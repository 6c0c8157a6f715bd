-- ===== src/Main.antt =====
-- src/main.c: the command line, read by `getopt`, and the exit status. `getopt` is a parameter, with
-- `optind` and the array `argv`, which it may permute. A character is its number.
pub mod Parse
pub mod Tests
use nacl_proxy.Base.{
  ℕ, zero, suc, ◌+◌, Bool, true, false, Option, none, some, ℤ, int_eq, List, [], ◌==◌,
  if◌then◌else◌,
}
use nacl_proxy.Errors.{proxy_err}
use nacl_proxy.Event.Loop.{Outcome, returned, out_of_fuel}
use nacl_proxy.Proxy.{Config, State, System}
use nacl_proxy.Proxy.Process.{Machine, proxy_run}

-- `next` is a call of `getopt`, none for -1.
pub record Getopt (G : Type 0) : Type 0 where
  pub next : G → Option ℕ × G
  pub optind : G → ℕ
  pub argv : G → ℕ → List ℕ

-- The outcome of `parse_args`: 0 and the configuration, or -1, or the fuel of the model ran out.
pub data Parsed : Type 0 where
  parsed : Config → Parsed
  refused : Parsed
  no_fuel : Parsed

abbrev pub letter_i : ℕ
letter_i = 105

abbrev pub letter_o : ℕ
letter_o = 111

abbrev pub zero_config : Config
zero_config = record {
  server_addr = [];
  server_port = [];
  bind_addr = [];
  bind_port = [];
  b_encrypt_in = false;
  b_encrypt_out = false;
}

module _ {G : Type 0} (getopt : Getopt G) where
  open getopt use {next, optind, argv}

  -- exactly four positional arguments, and the assignments
  pub positional : ℕ → Config → G → Parsed
  positional argc config g =
      if optind g + 4 == argc
      then parsed (record config {
        bind_addr = argv g (optind g);
        bind_port = argv g (optind g + 1);
        server_addr = argv g (optind g + 2);
        server_port = argv g (optind g + 3);
      })
      else refused

  -- the loop over the options, with a unit of fuel for each call of `getopt`
  pub options_loop : ℕ → ℕ → Config → G → Parsed
  unfolding positional
  options_loop zero argc config g = no_fuel
  options_loop (suc fuel) argc config g =
      let (opt, g') = next g in
      elim opt [
        | none ↦ positional argc config g'
        | some c ↦ elim (c == letter_i) [
          | true ↦ options_loop fuel argc (record config { b_encrypt_in = true }) g'
          | false ↦ elim (c == letter_o) [
            | true ↦ options_loop fuel argc (record config { b_encrypt_out = true }) g'
            | false ↦ refused
          ]
        ]
      ]

  pub parse_args : ℕ → ℕ → Config → G → Parsed
  unfolding options_loop
  parse_args fuel argc config g = options_loop fuel argc config g

abbrev pub exit_success : ℕ
exit_success = 0

abbrev pub exit_failure : ℕ
exit_failure = 1

-- The exit status, if `proxy_run` returns: none is a fault or fuel that ran out.
abbrev pub exit_status : {S : Type 0} → Option (Outcome S) → Option ℕ
exit_status none = none
exit_status (some (out_of_fuel s)) = none
exit_status (some (returned err s)) =
    some (if int_eq proxy_err err then exit_failure else exit_success)

module _ {A W G : Type 0} (sys : System A W) (getopt : Getopt G) where
  abbrev run_parsed : ℕ → State A W → Parsed → Option ℕ
  run_parsed fuel s no_fuel = none
  run_parsed fuel s refused = some exit_failure
  run_parsed fuel s (parsed config) = exit_status (proxy_run sys fuel config s)

  -- `main`, with fuel for its command line and for the event loop
  pub main : ℕ → ℕ → ℕ → G → State A W → Option ℕ
  unfolding parse_args
  main parse_fuel fuel argc g s =
      run_parsed fuel s (parse_args getopt parse_fuel argc zero_config g)
