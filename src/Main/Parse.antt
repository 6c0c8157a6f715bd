-- ===== src/Main/Parse.antt =====
-- `parse_args` of src/main.c against a description of the command line.
use nacl_proxy.Base.{
  ℕ, zero, suc, ◌+◌, ◌<◌, ◌≡◌, ◌≢◌, refl, inl, inr, Bool, true, false, ◌||◌, ◌&&◌, Option, none,
  some, List, [], ◌∷◌, ◌==◌, if◌then◌else◌, Bool-cases, length, arith,
}
use nacl_proxy.Proxy.{Config}
use nacl_proxy.Main.{
  Getopt, Parsed, parsed, refused, letter_i, letter_o, zero_config, positional, options_loop,
  parse_args,
}

abbrev pub nth : {A : Type 0} → List A → ℕ → Option A
nth [] i = none
nth (a ∷ rest) zero = some a
nth (a ∷ rest) (suc i) = nth rest i

abbrev pub has : ℕ → List ℕ → Bool
has c [] = false
has c (a ∷ rest) = (a == c) || has c rest

abbrev pub all_known : List ℕ → Bool
all_known [] = true
all_known (a ∷ rest) = ((a == letter_i) || (a == letter_o)) && all_known rest

abbrev pub flags : Config → List ℕ → Config
flags start options = record start {
  b_encrypt_in = start.b_encrypt_in || has letter_i options;
  b_encrypt_out = start.b_encrypt_out || has letter_o options;
}

abbrev pub place : Config → List (List ℕ) → Parsed
place config (a ∷ b ∷ c ∷ d ∷ []) =
    parsed (record config { bind_addr = a; bind_port = b; server_addr = c; server_port = d })
place config _ = refused

-- What a command line asks for, by its options and its operands: `-i` and `-o`, once or more and in any
-- order, and four operands.
abbrev pub asked : Config → List ℕ → List (List ℕ) → Parsed
asked start options operands =
    if all_known options then place (flags start options) operands else refused

-- What POSIX says of `getopt`: it yields the options in order, -1 after the last, and then `optind` is
-- the index of the first operand.
pub record GetoptLaws {G : Type 0} (getopt : Getopt G) (options : G → List ℕ)
    (operands : List (List ℕ)) (argc : ℕ) : Type 0 where
  pub yields :
      (g : G) (c : ℕ) (rest : List ℕ)
      → options g ≡ c ∷ rest
      → ((getopt.next g).0 ≡ some c) × (options (getopt.next g).1 ≡ rest)
  pub ends : (g : G) → options g ≡ [] → (getopt.next g).0 ≡ none
  pub count : (g : G) → options g ≡ [] → getopt.optind (getopt.next g).1 + length operands ≡ argc
  pub operand :
      (g : G) (i : ℕ) (a : List ℕ)
      → options g ≡ []
      → nth operands i ≡ some a
      → getopt.argv (getopt.next g).1 (getopt.optind (getopt.next g).1 + i) ≡ a

or_false : (b : Bool) → (b || false) ≡ b
or_false true = refl
or_false false = refl

add_zero : (n : ℕ) → n + 0 ≡ n
add_zero n = omega arith

or_true : (b : Bool) → (b || true) ≡ true
or_true true = refl
or_true false = refl

module _ {G : Type 0} (getopt : Getopt G) (options : G → List ℕ) (argc : ℕ) where
  few :
      (config : Config) (g : G) {n : ℕ}
      → getopt.optind (getopt.next g).1 + n ≡ argc
      → n ≢ 4
      → positional getopt argc config (getopt.next g).1 ≡ refused
  unfolding positional
  few config g count other = ground (arith, count, other)

  positional_lem :
      (operands : List (List ℕ)) (config : Config) (g : G)
      → GetoptLaws getopt options operands argc
      → options g ≡ []
      → positional getopt argc config (getopt.next g).1 ≡ place config operands
  unfolding positional
  positional_lem [] config g laws e = few config g (laws.count g e) (omega arith)
  positional_lem (a ∷ []) config g laws e = few config g (laws.count g e) (omega arith)
  positional_lem (a ∷ b ∷ []) config g laws e = few config g (laws.count g e) (omega arith)
  positional_lem (a ∷ b ∷ c ∷ []) config g laws e = few config g (laws.count g e) (omega arith)
  positional_lem (a ∷ b ∷ c ∷ d ∷ []) config g laws e =
      let n : getopt.optind (getopt.next g).1 + 4 ≡ argc = laws.count g e in
      let at_start = laws.operand g 0 a e refl in
      let same : (getopt.optind (getopt.next g).1 + 4 == getopt.optind (getopt.next g).1 + 4)
          ≡ true =
        ground arith in
      let first : getopt.argv (getopt.next g).1 (getopt.optind (getopt.next g).1) ≡ a =
        rw (add_zero (getopt.optind (getopt.next g).1)) at at_start in
      rw (← n, laws.operand g 1 b e refl, laws.operand g 2 c e refl, laws.operand g 3 d e refl)
        (rw (first, same) refl)
  positional_lem (a ∷ b ∷ c ∷ d ∷ f ∷ rest) config g laws e =
      few config g (laws.count g e) (omega arith)

  options_loop_lem :
      (fuel : ℕ) (letters : List ℕ) (operands : List (List ℕ)) (config : Config) (g : G)
      → GetoptLaws getopt options operands argc
      → options g ≡ letters
      → length letters < fuel
      → options_loop getopt fuel argc config g ≡ asked config letters operands
  unfolding options_loop
  options_loop_lem zero letters operands config g laws e h = absurd (omega arith)
  options_loop_lem (suc fuel) [] operands config g laws e h =
      rw (laws.ends g e, options_loop, or_false config.b_encrypt_in, or_false config.b_encrypt_out)
        (positional_lem operands config g laws e)
  options_loop_lem (suc fuel) (c ∷ rest) operands config g laws e h =
      let (is_c, left) = laws.yields g c rest e in
      elim (Bool-cases (c == letter_i)) [
        | inl i ↦
            let o : (c == letter_o) ≡ false = ground (arith, i) in
            rw (is_c, options_loop, i, o, or_true)
              (options_loop_lem fuel rest operands (record config { b_encrypt_in = true })
                (getopt.next g).1 laws left (omega arith))
        | inr not_i ↦ elim (Bool-cases (c == letter_o)) [
          | inl o ↦
              rw (is_c, options_loop, not_i, o, or_true)
                (options_loop_lem fuel rest operands (record config { b_encrypt_out = true })
                  (getopt.next g).1 laws left (omega arith))
          | inr not_o ↦ rw (is_c, options_loop, not_i, not_o) refl
        ]
      ]

  -- If `getopt` behaves as POSIX says and has fuel for one call more than there are options, then
  -- `parse_args` ends, and accepts a command line just if its options are `-i` and `-o` and its operands
  -- are four, with a configuration that has a flag set just if its option is there and the operands in
  -- their places.
  pub parse_args_lem :
      (operands : List (List ℕ)) (fuel : ℕ) (g : G)
      → GetoptLaws getopt options operands argc
      → length (options g) < fuel
      → parse_args getopt fuel argc zero_config g ≡ asked zero_config (options g) operands
  unfolding parse_args
  parse_args_lem operands fuel g laws h =
      options_loop_lem fuel (options g) operands zero_config g laws refl h
