-- ===== src/Agent/Usage.antt =====
-- The selection of absolute token totals of agent/events.py.
use symphony_python.Prelude.{
  ℕ, zero, suc, ◌+◌, ◌-◌, ◌*◌, ◌/◌, ◌^◌, ℤ, Bool, true, false, ◌&&◌, ◌||◌, Option, none, some, List,
  [], ◌∷◌, leb, ltb, ◌==◌, length, keep, or_else, first_some, if◌then◌else◌,
}
use symphony_python.Text.{Text, codes, text_eq, truthy, strip}
use symphony_python.Dict.{member}
use symphony_python.Json.{Float, Value, Fields}
use symphony_python.Agent.Payload.{
  norm, as_mapping, maybe_cons, absolute_total_keys, token_usage_event_keys, type_keys,
  envelope_keys, iter_nodes,
}

abbrev pub usage_container_keys : List Text
usage_container_keys =
    codes "totaltokenusage"
    ∷ codes "usage"
    ∷ codes "tokenusage"
    ∷ codes "tokens"
    ∷ codes "totals"
    ∷ []

abbrev pub input_fields : List Text
input_fields =
    codes "inputtokens"
    ∷ codes "prompttokens"
    ∷ codes "inputtokencount"
    ∷ codes "tokensin"
    ∷ codes "input"
    ∷ codes "prompt"
    ∷ []

abbrev pub output_fields : List Text
output_fields =
    codes "outputtokens"
    ∷ codes "completiontokens"
    ∷ codes "outputtokencount"
    ∷ codes "tokensout"
    ∷ codes "output"
    ∷ codes "completion"
    ∷ []

abbrev pub total_fields : List Text
total_fields =
    codes "totaltokens" ∷ codes "totaltokencount" ∷ codes "tokenstotal" ∷ codes "total" ∷ []

-- `_COUNT_FIELDS`
unfoldable pub is_count_field : Text → Bool
is_count_field name =
    member name input_fields || member name output_fields || member name total_fields

-- The first value under an absolute-total key that is a mapping
unfoldable pub absolute_in : Fields → Option Fields
absolute_in Fields.end = none
absolute_in (Fields.field k v rest) =
    or_else (if member (norm k) absolute_total_keys then as_mapping v else none) (absolute_in rest)

abbrev pub names_usage_event : Value → Bool
names_usage_event (Value.str s) = member (norm s) token_usage_event_keys
names_usage_event _ = false

-- `_is_token_usage_event`
unfoldable pub is_token_usage_event : Fields → Bool
is_token_usage_event Fields.end = false
is_token_usage_event (Fields.field k v rest) =
    (member (norm k) type_keys && names_usage_event v) || is_token_usage_event rest

-- `_has_count_fields`
unfoldable pub has_count_fields : Fields → Bool
has_count_fields Fields.end = false
has_count_fields (Fields.field k v rest) = is_count_field (norm k) || has_count_fields rest

unfoldable pub envelopes : Fields → List Fields
envelopes Fields.end = []
envelopes (Fields.field k v rest) =
    maybe_cons (if member (norm k) envelope_keys then as_mapping v else none) (envelopes rest)

-- `folded.get(name)`, where `folded` has the last value of each folded key
unfoldable pub folded_get : Text → Fields → Option Value
folded_get name Fields.end = none
folded_get name (Fields.field k v rest) =
    or_else (folded_get name rest) (if text_eq (norm k) name then some v else none)

abbrev pub mapping_of : Option Value → Option Fields
mapping_of none = none
mapping_of (some v) = as_mapping v

-- The body of the loop of `_usage_container`
unfoldable pub container_in : Fields → Option Fields
container_in candidate =
    or_else (first_some (λ name. mapping_of (folded_get name candidate)) usage_container_keys)
      (if has_count_fields candidate then some candidate else none)

-- `_usage_container`
unfoldable pub usage_container : Fields → Option Fields
usage_container node = first_some container_in (node ∷ envelopes node)

abbrev pub event_container : Fields → Option Fields
event_container node = if is_token_usage_event node then usage_container node else none

unfoldable pub select_absolute_usage : Fields → Option Fields
select_absolute_usage payload =
    or_else (first_some absolute_in (iter_nodes payload))
      (first_some event_container (iter_nodes payload))

unfoldable pub is_digit : ℕ → Bool
is_digit c = leb b'0' c && leb c b'9'

-- Digits, with single underscores between them
unfoldable pub digits_from : ℕ → Bool → Text → Option ℕ
digits_from n after_digit [] = if after_digit then some n else none
digits_from n after_digit (c ∷ s) =
    let more = digits_from (n * 10 + (c - b'0')) true s in
    let skip = digits_from n false s in
    if is_digit c then more else if (c == b'_') && after_digit then skip else none

abbrev pub negated : ℕ → ℤ
negated zero = ℤ.pos 0
negated (suc n) = ℤ.negsuc n

abbrev pub signed : Bool → Option ℕ → Option ℤ
signed minus none = none
signed true (some n) = some (negated n)
signed false (some n) = some (ℤ.pos n)

-- `int(text)` on a stripped ASCII text; more than 4300 digits are a `ValueError`.
unfoldable pub parse_int : Text → Option ℤ
parse_int [] = none
parse_int (c ∷ s) =
    if ltb 4300 (length (keep is_digit (c ∷ s)))
    then none
    else if c == b'-'
    then signed true (digits_from 0 false s)
    else if c == b'+'
    then signed false (digits_from 0 false s)
    else signed false (digits_from 0 false (c ∷ s))

-- `int(value)` for a finite double that is not negative
abbrev pub truncate : ℕ → ℤ → ℕ
truncate m (ℤ.pos e) = m * 2 ^ e
truncate m (ℤ.negsuc e) = m / 2 ^ suc e

abbrev pub count_of_int : ℤ → Option ℕ
count_of_int (ℤ.pos n) = some n
count_of_int (ℤ.negsuc n) = none

abbrev pub count_of_float : Float → Option ℕ
count_of_float (Float.finite (ℤ.pos m) e) = some (truncate m e)
count_of_float _ = none

abbrev pub count_of_parsed : Option Float → Option ℕ
count_of_parsed none = none
count_of_parsed (some x) = count_of_float x

abbrev pub or_zero : Option ℕ → ℕ
or_zero none = 0
or_zero (some n) = n

abbrev pub filled : Option ℕ → Option ℕ → Option ℕ → Option (ℕ × ℕ × ℕ)
filled none none none = none
filled i o (some total) = some (or_zero i, or_zero o, total)
filled i o none = some (or_zero i, or_zero o, or_zero i + or_zero o)

-- `float(text)` is the argument `parse_float`.
module _ (parse_float : Text → Option Float) where
  abbrev pub count_of_number : Text → Option ℤ → Option ℕ
  count_of_number text none = count_of_parsed (parse_float text)
  count_of_number text (some i) = count_of_int i

  -- `_coerce_count`
  unfoldable pub coerce_count : Value → Option ℕ
  coerce_count (Value.int i) = count_of_int i
  coerce_count (Value.float x) = count_of_float x
  coerce_count (Value.str s) =
      if truthy (strip s) then count_of_number (strip s) (parse_int (strip s)) else none
  coerce_count _ = none

  abbrev pub count_in : Option Value → Option ℕ
  count_in none = none
  count_in (some v) = coerce_count v

  -- `_first_count`
  unfoldable pub first_count : List Text → Fields → Option ℕ
  first_count names usage = first_some (λ name. count_in (folded_get name usage)) names

  unfoldable pub read_token_counts : Fields → Option (ℕ × ℕ × ℕ)
  read_token_counts usage =
      filled (first_count input_fields usage) (first_count output_fields usage)
        (first_count total_fields usage)

  abbrev pub counts_of : Option Fields → Option (ℕ × ℕ × ℕ)
  counts_of none = none
  counts_of (some usage) = read_token_counts usage

  unfoldable pub extract_token_totals : Fields → Option (ℕ × ℕ × ℕ)
  extract_token_totals payload = counts_of (select_absolute_usage payload)
