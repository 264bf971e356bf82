-- ===== src/Simulator/Args.antt =====
-- parseArgs of tools/dnp3-master-sim/main.cpp. std::stoi is a parameter: it throws, which is `none`,
-- or gives an int by its bit pattern.
pub mod Print
use dnp3_bridge.Base.{
  ℕ, String, Bool, true, false, ◌||◌, Option, none, some, List, [], ◌∷◌, if◌then◌else◌, ◌==◌,
  text_eq, u16,
}

pub record Args : Type 0 where
  pub host : String
  pub port : ℕ  -- uint16
  pub local_addr : ℕ  -- uint16
  pub remote_addr : ℕ  -- uint16

abbrev pub default_args : Args
default_args = record { host = "127.0.0.1"; port = 20000; local_addr = 1; remote_addr = 1024 }

-- The arguments, std::exit(0) behind the usage, or an exception.
pub data Parsed : Type 0 where
  parsed : Args → Parsed
  usage raised : Parsed

-- a.x = static_cast<uint16_t>(std::stoi(value))
abbrev pub set_number : (String → Option ℕ) → String → (ℕ → Args → Args) → Args → Option Args
set_number stoi value set a = elim (stoi value) [ none ↦ none | some n ↦ some (set (u16 n) a) ]

-- The branches that take the next argument, if `arg` is one of them.
unfoldable pub take_value : (String → Option ℕ) → String → String → Args → Option (Option Args)
take_value stoi arg value a =
    if arg == "--host"
    then some (some (record a { host = value }))
    else if arg == "--port"
    then some (set_number stoi value (λ n a. record a { port = n }) a)
    else if arg == "--local-addr"
    then some (set_number stoi value (λ n a. record a { local_addr = n }) a)
    else if arg == "--remote-addr"
    then some (set_number stoi value (λ n a. record a { remote_addr = n }) a)
    else none

abbrev pub is_help : String → Bool
is_help arg = arg == "--help" || arg == "-h"

-- The loop. An option without a value is no option.
unfoldable pub parse_from : (String → Option ℕ) → List String → Args → Parsed
unfolding take_value
parse_from stoi [] a = parsed a
parse_from stoi (arg ∷ []) a = if is_help arg then usage else parsed a
parse_from stoi (arg ∷ value ∷ rest) a = elim (take_value stoi arg value a) [
  | some (some a') ↦ parse_from stoi rest a'
  | some none ↦ raised
  | none ↦ elim (is_help arg) [ true ↦ usage | false ↦ parse_from stoi (value ∷ rest) a ]
]

unfoldable pub parse_args : (String → Option ℕ) → List String → Parsed
unfolding parse_from
parse_args stoi argv = parse_from stoi argv default_args
