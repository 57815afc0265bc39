-- ===== src/Options/Tests.antt =====
-- `tcp_port=80,debug`, and an option whose number is missing.
use jleaker.Common.{◌≡◌, refl, true, false, Option, none, some, List, [], ◌∷◌, bytes, str_eq, arith}
use jleaker.Common.Int.{ℤ, pos}
use jleaker.Options.{
  Settings, Parsed, default_settings, number_option, flag_option, parse_agent_options,
}
use jleaker.Options.Total.{IsFinished, parse_agent_options-IsFinished}
use jleaker.Options.RoundTrip.{
  Item, NumberName, FlagName, items_text, apply_items, parse_agent_options-items_text,
}

abbrev before : Settings
before = record {
  tcp_port = pos 9;
  size_threshold = pos 9;
  reference_chain_length = pos 9;
  max_fan_in = pos 9;
  debug = true;
  self_check = true;
  num_elements_to_dump = pos 9;
  run_gc = false;
  show_unreachables = true;
  consider_local_references = false;
}

abbrev items : List Item
items = Item.number NumberName.tcp_port 8 (0 ∷ []) ∷ Item.flag FlagName.debug ∷ []

abbrev run : Parsed → Option ℤ
run (Parsed.parsed files s) = some s.tcp_port
run _ = none

runs :
    (run (parse_agent_options (some (bytes "tcp_port=80,debug")) before) ≡ some (pos 80))
    × (parse_agent_options (some (bytes "tcp_port")) before ≡ Parsed.crashed)
    × (items_text items ≡ bytes "tcp_port=80,debug")
unfolding parse_agent_options number_option flag_option str_eq
runs = (refl, refl, refl)

parse_agent_options-items_text_example :
    parse_agent_options (some (items_text items)) before
    ≡ Parsed.parsed none (apply_items items (default_settings before))
parse_agent_options-items_text_example =
    parse_agent_options-items_text items before ((omega arith, (omega arith, tt)), omega arith, tt)

parse_agent_options-IsFinished_example :
    IsFinished (parse_agent_options (some (bytes "debug,x")) before)
parse_agent_options-IsFinished_example =
    parse_agent_options-IsFinished (some (bytes "debug,x")) before
