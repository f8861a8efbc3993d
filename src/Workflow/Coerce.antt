-- ===== src/Workflow/Coerce.antt =====
-- The coercions of workflow/config.py.
use symphony_python.Prelude.{
  ℕ, suc, ◌*◌, ◌/◌, ◌%◌, ◌^◌, ℤ, Option, none, some, List, [], ◌∷◌, ltb, ◌==◌, if◌then◌else◌,
}
use symphony_python.Text.{Text, truthy, strip}
use symphony_python.Dict.{Dict, put}
use symphony_python.Json.{Float, Value, Items, Fields}
use symphony_python.Models.{normalize_state, normalize_label}
use symphony_python.Orchestrator.Tokens.{payload_get}
use symphony_python.Agent.Usage.{parse_int, negated}

-- The result of a step, a `ConfigValidationError` about a field or a variable, or another exception
pub data Checked {ℓ} (A : Type ℓ) : Type ℓ where
  ok : A → Checked A
  invalid : Text → Checked A
  raised : Checked A

infixl 5 ◌>>=◌
abbrev pub ◌>>=◌ {ℓ κ} : {A : Type ℓ} {B : Type κ} → Checked A → (A → Checked B) → Checked B
ok a >>= f = f a
invalid e >>= f = invalid e
raised >>= f = raised

abbrev pub fields_or_end : Value → Fields
fields_or_end (Value.obj fields) = fields
fields_or_end _ = Fields.end

-- `_section`
unfoldable pub section : Fields → Text → Fields
section raw key = fields_or_end (payload_get key raw)

abbrev scaled : ℤ → ℕ → ℤ
scaled (ℤ.pos m) k = ℤ.pos (m * k)
scaled (ℤ.negsuc m) k = negated (suc m * k)

abbrev divided : ℤ → ℕ → Option ℤ
divided (ℤ.pos m) k = if m % k == 0 then some (ℤ.pos (m / k)) else none
divided (ℤ.negsuc m) k = if suc m % k == 0 then some (negated (suc m / k)) else none

-- `int(value) if value.is_integer() else None`
unfoldable pub int_of_float : Float → Option ℤ
int_of_float (Float.finite m (ℤ.pos e)) = some (scaled m (2 ^ e))
int_of_float (Float.finite m (ℤ.negsuc e)) = divided m (2 ^ suc e)
int_of_float _ = none

-- `_coerce_int`
unfoldable pub coerce_int : Value → Option ℤ
coerce_int (Value.int i) = some i
coerce_int (Value.float x) = int_of_float x
coerce_int (Value.str s) = parse_int (strip s)
coerce_int _ = none

abbrev pub at_least : ℕ → ℕ → Option ℤ → ℕ
at_least default minimum (some (ℤ.pos n)) = if ltb n minimum then default else n
at_least default minimum _ = default

-- `_lenient_int`, for the minimums that the callers pass, which are not negative
unfoldable pub lenient_int : Fields → Text → ℕ → ℕ → ℕ
lenient_int section key default minimum =
    at_least default minimum (coerce_int (payload_get key section))

abbrev pub positive : Text → Option ℤ → Checked ℕ
positive field_name (some (ℤ.pos n)) = if ltb 0 n then ok n else invalid field_name
positive field_name _ = invalid field_name

abbrev pub positive_or : Text → ℕ → Value → Checked ℕ
positive_or field_name default Value.null = ok default
positive_or field_name default v = positive field_name (coerce_int v)

-- `_fatal_positive_int`
unfoldable pub fatal_positive_int : Fields → Text → ℕ → Text → Checked ℕ
fatal_positive_int section key default field_name =
    positive_or field_name default (payload_get key section)

unfoldable pub stripped_items : Items → List Text
stripped_items Items.nil = []
stripped_items (Items.cons (Value.str s) rest) =
    let more = stripped_items rest in if truthy (strip s) then strip s ∷ more else more
stripped_items (Items.cons v rest) = stripped_items rest

-- `_string_list`
unfoldable pub string_list : Value → List Text
string_list (Value.arr items) = stripped_items items
string_list _ = []

unfoldable pub label_items : Items → List Text
label_items Items.nil = []
label_items (Items.cons (Value.str s) rest) = normalize_label s ∷ label_items rest
label_items (Items.cons v rest) = label_items rest

-- `_required_labels`: blanks are kept.
unfoldable pub required_labels_of : Value → List Text
required_labels_of (Value.arr items) = label_items items
required_labels_of _ = []

-- `_optional_script`
unfoldable pub optional_script : Value → Option Text
optional_script (Value.str s) = if truthy (strip s) then some s else none
optional_script _ = none

-- An integer that is there and positive
abbrev pub positive_only : Option ℤ → Option ℕ
positive_only (some (ℤ.pos n)) = if ltb 0 n then some n else none
positive_only _ = none

abbrev pub put_limit : Text → Option ℕ → Dict ℕ → Dict ℕ
put_limit key none limits = limits
put_limit key (some n) limits = if truthy key then put key n limits else limits

-- The loop of `_by_state_limits`
unfoldable pub limits_from : Fields → Dict ℕ → Dict ℕ
limits_from Fields.end limits = limits
limits_from (Fields.field k v rest) limits =
    limits_from rest (put_limit (normalize_state k) (positive_only (coerce_int v)) limits)

-- `_by_state_limits`
unfoldable pub by_state_limits : Value → Dict ℕ
by_state_limits (Value.obj fields) = limits_from fields []
by_state_limits _ = []

abbrev pub max_tcp_port : ℕ
max_tcp_port = 65535

abbrev pub port_of : Option ℤ → Option ℕ
port_of (some (ℤ.pos n)) = if ltb max_tcp_port n then none else some n
port_of _ = none

-- `_server_port`
unfoldable pub server_port_of : Value → Option ℕ
server_port_of v = port_of (coerce_int v)

-- `_passthrough`
unfoldable pub passthrough : Value → Text → Text
passthrough (Value.str s) default = if truthy (strip s) then strip s else default
passthrough _ default = default
