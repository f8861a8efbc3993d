-- ===== src/Trackers/Normalize.antt =====
-- The shared normalisation helpers of trackers/base.py. `datetime.fromisoformat` is an argument.
use symphony_python.Prelude.{
  ℤ, Bool, true, false, ◌||◌, Option, none, some, List, [], ◌∷◌, ◌++◌, ◌==◌, if◌then◌else◌,
}
use symphony_python.Text.{Text, codes, truthy, strip}
use symphony_python.Dict.{member}
use symphony_python.Json.{Value, Items, Fields}
use symphony_python.Models.{DateTime, Priority, BlockerRef, normalize_label}
use symphony_python.Orchestrator.Tokens.{payload_get}
use symphony_python.Agent.Usage.{parse_int}
use symphony_python.Workflow.Coerce.{int_of_float}

abbrev not_blank : Text → Option Text
not_blank s = if truthy s then some s else none

-- `_opt_str`
unfoldable pub opt_str : Value → Option Text
opt_str (Value.str s) = not_blank (strip s)
opt_str _ = none

-- The trailing `Z` of an instant becomes `+00:00`.
unfoldable pub zulu_offset : Text → Text
zulu_offset [] = []
zulu_offset (c ∷ []) = if (c == b'Z') || (c == b'z') then codes "+00:00" else c ∷ []
zulu_offset (c ∷ d ∷ s) = c ∷ zulu_offset (d ∷ s)

-- `parse_rfc3339`, for a decoded value, which is never a `datetime`
unfoldable pub parse_rfc3339 : (Text → Option DateTime) → Value → Option DateTime
parse_rfc3339 from_iso_format (Value.str s) =
    if truthy (strip s) then from_iso_format (zulu_offset (strip s)) else none
parse_rfc3339 from_iso_format _ = none

abbrev label_text : Value → Option Text
label_text (Value.str s) = not_blank (normalize_label s)
label_text _ = none

abbrev label_of : Value → Option Text
label_of (Value.obj fields) = label_text (payload_get (codes "name") fields)
label_of v = label_text v

-- `seen.setdefault(label, None)`
abbrev pub with_new : Option Text → List Text → List Text
with_new none seen = seen
with_new (some s) seen = if member s seen then seen else seen ++ (s ∷ [])

unfoldable pub labels_from : Items → List Text → List Text
labels_from Items.nil seen = seen
labels_from (Items.cons v rest) seen = labels_from rest (with_new (label_of v) seen)

-- `normalize_labels`
unfoldable pub normalize_labels : Value → List Text
normalize_labels (Value.arr items) = labels_from items []
normalize_labels _ = []

abbrev priority_of : Option ℤ → Priority
priority_of none = Priority.absent
priority_of (some i) = Priority.level i

-- `coerce_priority`
unfoldable pub coerce_priority : Value → Priority
coerce_priority (Value.int i) = Priority.level i
coerce_priority (Value.float x) = priority_of (int_of_float x)
coerce_priority (Value.str s) = priority_of (parse_int (strip s))
coerce_priority _ = Priority.absent

abbrev is_there : Option Text → Bool
is_there none = false
is_there (some s) = true

abbrev usable : BlockerRef → List BlockerRef → List BlockerRef
usable ref out =
    if is_there ref.id || is_there ref.identifier || is_there ref.state then ref ∷ out else out

abbrev blocker_of : Fields → BlockerRef
blocker_of item = record {
  id = opt_str (payload_get (codes "id") item);
  identifier = opt_str (payload_get (codes "identifier") item);
  state = opt_str (payload_get (codes "state") item);
}

unfoldable pub blockers_from : Items → List BlockerRef
blockers_from Items.nil = []
blockers_from (Items.cons (Value.obj item) rest) = usable (blocker_of item) (blockers_from rest)
blockers_from (Items.cons v rest) = blockers_from rest

-- `coerce_blockers`
unfoldable pub coerce_blockers : Value → List BlockerRef
coerce_blockers (Value.arr items) = blockers_from items
coerce_blockers _ = []

-- `require_str`: `none` is the `TrackerResponseError` about the key.
unfoldable pub require_str : Fields → Text → Option Text
require_str fields key = opt_str (payload_get key fields)
