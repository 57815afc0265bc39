-- ===== src/Options/Defs.antt =====
-- parse_agent_options.
use jleaker.Common.{
  ℕ, zero, suc, ◌+◌, Bool, true, false, if◌then◌else◌, Option, none, some, [], ◌∷◌, length, Bytes,
  bytes, str_eq,
}
use jleaker.Common.Int.{ℤ, pos}
use jleaker.Options.Scan.{strtok, strtol, to_int}

-- The fields of GlobalData that the options set.
pub record Settings : Type 0 where
  pub tcp_port : ℤ
  pub size_threshold : ℤ
  pub reference_chain_length : ℤ
  pub max_fan_in : ℤ
  pub debug : Bool
  pub self_check : Bool
  pub num_elements_to_dump : ℤ
  pub run_gc : Bool
  pub show_unreachables : Bool
  pub consider_local_references : Bool

-- The assignments at the start; `consider_local_references` keeps what it was.
unfoldable pub default_settings : Settings → Settings
default_settings before = record before {
  tcp_port = pos 0;
  size_threshold = pos 500;
  reference_chain_length = pos 0;
  max_fan_in = pos 5;
  debug = false;
  self_check = false;
  num_elements_to_dump = pos 5;
  run_gc = true;
  show_unreachables = false;
}

-- `crashed` is strtol of NULL, `exhausted` that the fuel ran out, `refused` the return of 0, and
-- `parsed` has the value of all_conf_files as well.
pub data Parsed : Type 0 where
  exhausted crashed : Parsed
  refused : Settings → Parsed
  parsed : Option Bytes → Settings → Parsed

-- The options that are followed by a number, and where it goes.
unfoldable pub number_option : Bytes → Option (ℤ → Settings → Settings)
number_option name =
    if str_eq name (bytes "tcp_port")
    then some (λ v s. record s { tcp_port = v })
    else (if str_eq name (bytes "size_threshold")
        then some (λ v s. record s { size_threshold = v })
        else (if str_eq name (bytes "reference_chain_length")
            then some (λ v s. record s { reference_chain_length = v })
            else (if str_eq name (bytes "max_fan_in")
                then some (λ v s. record s { max_fan_in = v })
                else none)))

-- The options that stand alone.
unfoldable pub flag_option : Bytes → Option (Settings → Settings)
flag_option name =
    if str_eq name (bytes "debug")
    then some (λ s. record s { debug = true })
    else (if str_eq name (bytes "self_check")
        then some (λ s. record s { self_check = true })
        else (if str_eq name (bytes "no_gc")
            then some (λ s. record s { run_gc = false })
            else (if str_eq name (bytes "consider_local_references")
                then some (λ s. record s { consider_local_references = true })
                else (if str_eq name (bytes "show_unreachables")
                    then some (λ s. record s { show_unreachables = true })
                    else none))))

-- `next = strtok(NULL, ",")` and strtol; `continue` is the rest of the loop.
unfoldable pub parse_number :
    (ℤ → Settings → Settings) → (continue : Bytes → Settings → Parsed) → Bytes → Settings → Parsed
unfolding strtok strtol to_int
parse_number assign continue text s =
    let (next, rest) = strtok (bytes ",") text in
    elim next [
      | none ↦ crashed
      | some value ↦ elim (strtol value).1 [
        | [] ↦ continue rest (assign (to_int (strtol value).0) s)
        | c ∷ cs ↦ refused (assign (to_int (strtol value).0) s)
      ]
    ]

-- One round of the loop, for the option `name`; `continue` is the rest of the loop.
unfoldable pub parse_option :
    (continue : Bytes → Option Bytes → Settings → Parsed)
    → (name text : Bytes) → Option Bytes
    → Settings
    → Parsed
unfolding parse_number
parse_option continue name text conf_files s = elim (number_option name) [
  | some assign ↦ parse_number assign (λ rest s'. continue rest conf_files s') text s
  | none ↦ elim (flag_option name) [
    | some set_flag ↦ continue text conf_files (set_flag s)
    | none ↦
        let (next, rest) = strtok (bytes ",") text in
        if str_eq name (bytes "conf_file") then continue rest next s else refused s
  ]
]

-- The loop, where `text` is what strtok goes on from.
unfoldable pub parse_options : (fuel : ℕ) → (text : Bytes) → Option Bytes → Settings → Parsed
unfolding parse_option
parse_options zero text conf_files s = exhausted
parse_options (suc fuel) text conf_files s =
    let (next, rest) = strtok (bytes ",=") text in
    elim next [
      | none ↦ parsed conf_files s
      | some name ↦ parse_option (parse_options fuel) name rest conf_files s
    ]

-- parse_agent_options up to the configuration files; `none` is NULL.
unfoldable pub parse_agent_options : Option Bytes → Settings → Parsed
unfolding parse_options default_settings
parse_agent_options none before = parsed none (default_settings before)
parse_agent_options (some options) before =
    parse_options (length options + 1) options none (default_settings before)
