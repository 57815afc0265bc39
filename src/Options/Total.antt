-- ===== src/Options/Total.antt =====
-- parse_agent_options ends: each round takes a token from the text.
use jleaker.Common.{
  ℕ, zero, suc, ◌+◌, ◌<◌, ◌≤◌, Option, none, some, [], ◌∷◌, length, Bytes, bytes, str_eq,
  Bool-cases, Option-cases, inl, inr, arith,
}
use jleaker.Common.Int.{ℤ}
use jleaker.Options.Scan.{strtok, strtol, to_int}
use jleaker.Options.Tokens.{length-strtok, length-strtok_le}
use jleaker.Options.Defs.{
  Settings, Parsed, exhausted, crashed, refused, parsed, default_settings, number_option,
  flag_option, parse_number, parse_option, parse_options, parse_agent_options,
}

-- The parser did not run out of fuel.
abbrev pub IsFinished : Parsed → Type 0
IsFinished exhausted = ⊥
IsFinished crashed = Unit {0}
IsFinished (refused s) = Unit {0}
IsFinished (parsed conf_files s) = Unit {0}

number-IsFinished :
    (assign : ℤ → Settings → Settings) (continue : Bytes → Settings → Parsed) (text : Bytes)
    (s : Settings)
    → ((rest : Bytes) (s' : Settings) → length rest ≤ length text → IsFinished (continue rest s'))
    → IsFinished (parse_number assign continue text s)
unfolding parse_number
number-IsFinished assign continue text s later = elim (Option-cases (strtok (bytes ",") text).0) [
  | inl null ↦ rw (null, IsFinished) tt
  | inr (value, e) ↦
      rw (e, IsFinished)
        (ended value (strtol value).1 (later _ _ (length-strtok_le (bytes ",") text)))
]
  where
    ended :
        (value end : Bytes)
        → IsFinished (continue (strtok (bytes ",") text).1 (assign (to_int (strtol value).0) s))
        → IsFinished (elim end as (λ x. Parsed) [
          | [] ↦ continue (strtok (bytes ",") text).1 (assign (to_int (strtol value).0) s)
          | c ∷ cs ↦ refused (assign (to_int (strtol value).0) s)
        ])
    ended value [] f = f
    ended value (c ∷ cs) f = tt

option-IsFinished :
    (continue : Bytes → Option Bytes → Settings → Parsed) (name text : Bytes)
    (conf_files : Option Bytes) (s : Settings)
    → ((rest : Bytes) (files : Option Bytes) (s' : Settings)
        → length rest ≤ length text
        → IsFinished (continue rest files s'))
    → IsFinished (parse_option continue name text conf_files s)
unfolding parse_option
option-IsFinished continue name text conf_files s later = elim (Option-cases (number_option name)) [
  | inr (assign, e) ↦
      rw (e, IsFinished)
        (number-IsFinished assign (λ rest s'. continue rest conf_files s') text s
          (λ rest s' h. later rest conf_files s' h))
  | inl no_number ↦ elim (Option-cases (flag_option name)) [
    | inr (set_flag, e) ↦
        rw (no_number, e, IsFinished) (later text conf_files (set_flag s) (omega arith))
    | inl no_flag ↦ elim (Bool-cases (str_eq name (bytes "conf_file"))) [
      | inl conf ↦
          rw (no_number, no_flag, conf, IsFinished)
            (later _ _ s (length-strtok_le (bytes ",") text))
      | inr unknown ↦ rw (no_number, no_flag, unknown, IsFinished) tt
    ]
  ]
]

options-IsFinished :
    (fuel : ℕ) (text : Bytes) (conf_files : Option Bytes) (s : Settings)
    → length text < fuel
    → IsFinished (parse_options fuel text conf_files s)
unfolding parse_options
options-IsFinished zero text conf_files s h = absurd (omega arith)
options-IsFinished (suc fuel) text conf_files s h =
    elim (Option-cases (strtok (bytes ",=") text).0) [
      | inl null ↦ rw (null, IsFinished) tt
      | inr (name, e) ↦
          rw (e, IsFinished)
            (option-IsFinished (parse_options fuel) name (strtok (bytes ",=") text).1 conf_files s
              (λ rest files s' shorter.
                options-IsFinished fuel rest files s'
                  (omega (arith, length-strtok (bytes ",=") text name e))))
    ]

-- parse_agent_options comes to an end on every text of options: the fuel, one more than the
-- text's length, does not run out.
pub parse_agent_options-IsFinished :
    (options : Option Bytes) (before : Settings) → IsFinished (parse_agent_options options before)
unfolding parse_agent_options
parse_agent_options-IsFinished none before = tt
parse_agent_options-IsFinished (some options) before =
    options-IsFinished (length options + 1) options none (default_settings before) (omega arith)
