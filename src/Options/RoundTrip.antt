-- ===== src/Options/RoundTrip.antt =====
-- A text of well-formed options sets what the options say.
use jleaker.Common.{
  ℕ, zero, suc, ◌+◌, ◌<◌, ◌≤◌, ◌^◌, ◌≡◌, refl, ◌∙◌, sym, ap, true, false, Option, none, some, List,
  [], ◌∷◌, ◌++◌, length, length-append, Bytes, bytes, str_eq, arith,
}
use mathlib.Core.List.{append_assoc, append-nil}
use jleaker.Common.Int.{ℤ, pos}
use jleaker.Options.Scan.{is_among, strtok, strtol, to_int}
use jleaker.Options.Tokens.{IsPlain, Follows, nothing, delimiter, strtok_lem, is_word, strtok_word}
use jleaker.Options.Numbers.{value, AreDigits, digit_text, strtol_lem}
use jleaker.Options.Defs.{
  Settings, Parsed, parsed, default_settings, number_option, flag_option, parse_number,
  parse_option, parse_options, parse_agent_options,
}

pub data NumberName : Type 0 where
  tcp_port size_threshold reference_chain_length max_fan_in : NumberName

pub data FlagName : Type 0 where
  debug self_check no_gc consider_local_references show_unreachables : FlagName

-- An option with a number, as digits, or one that stands alone.
pub data Item : Type 0 where
  number : NumberName → (first : ℕ) → (others : List ℕ) → Item
  flag : FlagName → Item

abbrev pub number_text : NumberName → Bytes
number_text tcp_port = bytes "tcp_port"
number_text size_threshold = bytes "size_threshold"
number_text reference_chain_length = bytes "reference_chain_length"
number_text max_fan_in = bytes "max_fan_in"

abbrev pub flag_text : FlagName → Bytes
flag_text debug = bytes "debug"
flag_text self_check = bytes "self_check"
flag_text no_gc = bytes "no_gc"
flag_text consider_local_references = bytes "consider_local_references"
flag_text show_unreachables = bytes "show_unreachables"

-- What the options mean.
abbrev pub set_number : NumberName → ℤ → Settings → Settings
set_number tcp_port v s = record s { tcp_port = v }
set_number size_threshold v s = record s { size_threshold = v }
set_number reference_chain_length v s = record s { reference_chain_length = v }
set_number max_fan_in v s = record s { max_fan_in = v }

abbrev pub set_flag : FlagName → Settings → Settings
set_flag debug s = record s { debug = true }
set_flag self_check s = record s { self_check = true }
set_flag no_gc s = record s { run_gc = false }
set_flag consider_local_references s = record s { consider_local_references = true }
set_flag show_unreachables s = record s { show_unreachables = true }

abbrev pub apply_item : Item → Settings → Settings
apply_item (number name d ds) s = set_number name (pos (value 0 (d ∷ ds))) s
apply_item (flag name) s = set_flag name s

abbrev pub apply_items : List Item → Settings → Settings
apply_items [] s = s
apply_items (i ∷ is) s = apply_items is (apply_item i s)

abbrev pub item_text : Item → Bytes
item_text (number name d ds) = number_text name ++ 61 ∷ digit_text (d ∷ ds)
item_text (flag name) = flag_text name

-- The items with commas between them.
abbrev pub items_text : List Item → Bytes
items_text [] = []
items_text (i ∷ []) = item_text i
items_text (i ∷ j ∷ is) = item_text i ++ 44 ∷ items_text (j ∷ is)

-- The numbers are digits and below 2^31.
abbrev pub AreSmall : List Item → Type 0
AreSmall [] = Unit {0}
AreSmall (number name d ds ∷ is) = AreDigits (d ∷ ds) × (value 0 (d ∷ ds) < 2 ^ 31) × AreSmall is
AreSmall (flag name ∷ is) = AreSmall is

-- What stands behind the first item.
abbrev tail_text : List Item → Bytes
tail_text [] = []
tail_text (i ∷ is) = 44 ∷ items_text (i ∷ is)

items_text_lem : (i : Item) (is : List Item) → items_text (i ∷ is) ≡ item_text i ++ tail_text is
items_text_lem i [] = sym (append-nil (item_text i))
items_text_lem i (j ∷ is) = refl

tail-Follows :
    (ds : Bytes) (is : List Item)
    → is_among ds 44 ≡ true
    → Follows ds (tail_text is) (items_text is)
tail-Follows ds [] e = nothing
tail-Follows ds (i ∷ is) e = delimiter e

number_option_lem : (name : NumberName) → number_option (number_text name) ≡ some (set_number name)
unfolding number_option str_eq
number_option_lem tcp_port = refl
number_option_lem size_threshold = refl
number_option_lem reference_chain_length = refl
number_option_lem max_fan_in = refl

flag_option_lem :
    (name : FlagName)
    → (number_option (flag_text name) ≡ none)
      × (flag_option (flag_text name) ≡ some (set_flag name))
unfolding number_option flag_option str_eq
flag_option_lem debug = (refl, refl)
flag_option_lem self_check = (refl, refl)
flag_option_lem no_gc = (refl, refl)
flag_option_lem consider_local_references = (refl, refl)
flag_option_lem show_unreachables = (refl, refl)

digits-IsPlain : (ds : List ℕ) → AreDigits ds → IsPlain (bytes ",") (digit_text ds)
digits-IsPlain [] a = tt
digits-IsPlain (d ∷ ds) (here, later) = (ground arith, digits-IsPlain ds later)

number_word : (name : NumberName) → is_word (bytes ",=") (number_text name) ≡ true
number_word tcp_port = refl
number_word size_threshold = refl
number_word reference_chain_length = refl
number_word max_fan_in = refl

flag_word : (name : FlagName) → is_word (bytes ",=") (flag_text name) ≡ true
flag_word debug = refl
flag_word self_check = refl
flag_word no_gc = refl
flag_word consider_local_references = refl
flag_word show_unreachables = refl

number_text_lem :
    (name : NumberName) (digits tail : Bytes)
    → (number_text name ++ 61 ∷ digits) ++ tail ≡ number_text name ++ 61 ∷ (digits ++ tail)
number_text_lem name digits tail = append_assoc (number_text name) (61 ∷ digits) tail

start_round :
    (fuel : ℕ) (text name rest : Bytes) (files : Option Bytes) (s : Settings)
    → strtok (bytes ",=") text ≡ (some name, rest)
    → parse_options (suc fuel) text files s ≡ parse_option (parse_options fuel) name rest files s
unfolding parse_options
start_round fuel text name rest files s e =
    let here : (strtok (bytes ",=") text).0 ≡ some name = ap (λ x. x.0) e in
    let later : (strtok (bytes ",=") text).1 ≡ rest = ap (λ x. x.1) e in
    rw (here, later, parse_options) refl

number_round :
    (continue : Bytes → Option Bytes → Settings → Parsed) (name text rest digits : Bytes)
    (files : Option Bytes) (assign : ℤ → Settings → Settings) (v : ℤ) (s : Settings)
    → number_option name ≡ some assign
    → strtok (bytes ",") text ≡ (some digits, rest)
    → (strtol digits).1 ≡ []
    → to_int (strtol digits).0 ≡ v
    → parse_option continue name text files s ≡ continue rest files (assign v s)
unfolding parse_option parse_number
number_round continue name text rest digits files assign v s o e whole is_v =
    let here : (strtok (bytes ",") text).0 ≡ some digits = ap (λ x. x.0) e in
    let later : (strtok (bytes ",") text).1 ≡ rest = ap (λ x. x.1) e in
    rw (o, here, whole, later, is_v, parse_option, parse_number) refl

flag_round :
    (continue : Bytes → Option Bytes → Settings → Parsed) (name text : Bytes) (files : Option Bytes)
    (change : Settings → Settings) (s : Settings)
    → number_option name ≡ none
    → flag_option name ≡ some change
    → parse_option continue name text files s ≡ continue text files (change s)
unfolding parse_option
flag_round continue name text files change s n f = rw (n, f, parse_option) refl

-- One round of the loop.
round_lem :
    (fuel : ℕ) (i : Item) (is : List Item) (files : Option Bytes) (s : Settings)
    → AreSmall (i ∷ is)
    → parse_options (suc fuel) (items_text (i ∷ is)) files s
      ≡ parse_options fuel (items_text is) files (apply_item i s)
round_lem fuel (flag name) is files s small =
    let (no_number, is_flag) = flag_option_lem name in
    let token =
      strtok_word (bytes ",=") (flag_text name) (tail_text is) (items_text is) (flag_word name)
        (tail-Follows (bytes ",=") is refl) in
    ap (λ t. parse_options (suc fuel) t files s) (items_text_lem (flag name) is)
    ∙ start_round fuel _ (flag_text name) (items_text is) files s token
    ∙ flag_round (parse_options fuel) (flag_text name) (items_text is) files (set_flag name) s
        no_number is_flag
round_lem fuel (number name d ds) is files s (digits, below, later) =
    let text = digit_text (d ∷ ds) in
    let token =
      strtok_word (bytes ",=") (number_text name) (61 ∷ (text ++ tail_text is))
        (text ++ tail_text is) (number_word name) (delimiter refl) in
    let numeral =
      strtok_lem (bytes ",") (48 + d) (digit_text ds) (tail_text is) (items_text is)
        (digits-IsPlain (d ∷ ds) digits) (tail-Follows (bytes ",") is refl) in
    let (whole, is_value) = strtol_lem d ds digits below in
    ap (λ t. parse_options (suc fuel) t files s)
      (items_text_lem (number name d ds) is ∙ number_text_lem name text (tail_text is))
    ∙ start_round fuel _ (number_text name) (text ++ tail_text is) files s token
    ∙ number_round (parse_options fuel) (number_text name) (text ++ tail_text is) (items_text is)
        text files (set_number name) (pos (value 0 (d ∷ ds))) s (number_option_lem name) numeral
        whole is_value

small_tail : (i : Item) (is : List Item) → AreSmall (i ∷ is) → AreSmall is
small_tail (flag name) is small = small
small_tail (number name d ds) is (digits, below, later) = later

items_lem :
    (fuel : ℕ) (is : List Item) (files : Option Bytes) (s : Settings)
    → AreSmall is
    → length is < fuel
    → parse_options fuel (items_text is) files s ≡ parsed files (apply_items is s)
unfolding parse_options strtok
items_lem zero is files s small h = absurd (omega arith)
items_lem (suc fuel) [] files s small h = refl
items_lem (suc fuel) (i ∷ is) files s small h =
    round_lem fuel i is files s small
    ∙ items_lem fuel is files (apply_item i s) (small_tail i is small) (omega arith)

item_text-pos : (i : Item) → 0 < length (item_text i)
item_text-pos (number name d ds) =
    omega (arith, length-append (number_text name) (61 ∷ digit_text (d ∷ ds)))
item_text-pos (flag debug) = omega arith
item_text-pos (flag self_check) = omega arith
item_text-pos (flag no_gc) = omega arith
item_text-pos (flag consider_local_references) = omega arith
item_text-pos (flag show_unreachables) = omega arith

length-items_text : (is : List Item) → length is ≤ length (items_text is)
length-items_text [] = omega arith
length-items_text (i ∷ []) = omega (arith, item_text-pos i)
length-items_text (i ∷ j ∷ is) =
    omega
      (arith, length-items_text (j ∷ is), length-append (item_text i) (44 ∷ items_text (j ∷ is)))

-- A text of options, with commas between them and numbers below 2^31 written in digits, is accepted,
-- and the settings are the defaults changed as the options say, one after the other.
pub parse_agent_options-items_text :
    (is : List Item) (before : Settings)
    → AreSmall is
    → parse_agent_options (some (items_text is)) before
      ≡ parsed none (apply_items is (default_settings before))
unfolding parse_agent_options
parse_agent_options-items_text is before small =
    items_lem (length (items_text is) + 1) is none (default_settings before) small
      (omega (arith, length-items_text is))
