-- ===== src/Main/Tests.antt =====
-- A command line with `-o -i` and four operands.
use nacl_proxy.Base.{ℕ, zero, suc, ◌+◌, ◌-◌, ◌≡◌, refl, Option, none, some, List, [], ◌∷◌, arith}
use nacl_proxy.Main.{Getopt, letter_i, letter_o, zero_config, parse_args}
use nacl_proxy.Main.Parse.{GetoptLaws, nth, asked, parse_args_lem}

abbrev operands : List (List ℕ)
operands = (1 ∷ []) ∷ (2 ∷ []) ∷ (3 ∷ []) ∷ (4 ∷ []) ∷ []

abbrev operand_from : List (List ℕ) → ℕ → List ℕ
operand_from [] i = []
operand_from (a ∷ rest) zero = a
operand_from (a ∷ rest) (suc i) = operand_from rest i

abbrev next_option : List ℕ → Option ℕ × List ℕ
next_option [] = (none, [])
next_option (c ∷ rest) = (some c, rest)

-- `argv` is the name of the program, an argument with the options, and the operands; the state is the
-- options that are left
abbrev two_options : Getopt (List ℕ)
two_options = record {
  next = next_option;
  optind = λ g. 2;
  argv = λ g i. operand_from operands (i - 2);
}

operand_from_lem :
    (xs : List (List ℕ)) (i : ℕ) (a : List ℕ) → nth xs i ≡ some a → operand_from xs i ≡ a
operand_from_lem [] i a e = absurd cc
operand_from_lem (x ∷ xs) zero a e = cc
operand_from_lem (x ∷ xs) (suc i) a e = operand_from_lem xs i a e

two_options-laws : GetoptLaws two_options (λ g. g) operands 6
two_options-laws = record {
  yields = λ g c rest e. rw e (refl, refl);
  ends = λ g e. rw e refl;
  count = λ g e. refl;
  operand = λ g i a e there.
      let back : 2 + i - 2 ≡ i = omega arith in rw back (operand_from_lem operands i a there);
}

parse_args_lem_example :
    parse_args two_options 3 6 zero_config (letter_o ∷ letter_i ∷ [])
    ≡ asked zero_config (letter_o ∷ letter_i ∷ []) operands
parse_args_lem_example =
    parse_args_lem two_options (λ g. g) 6 operands 3 (letter_o ∷ letter_i ∷ []) two_options-laws
      (omega arith)
