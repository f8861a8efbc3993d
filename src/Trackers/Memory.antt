-- ===== src/Trackers/Memory.antt =====
-- The records of trackers/memory.py, their normalisation, and the operations on the store.
use symphony_python.Prelude.{
  ℕ, zero, suc, Bool, true, false, not, ◌&&◌, ◌||◌, Option, none, some, List, [], ◌∷◌, ◌++◌, any,
  or_else, if◌then◌else◌,
}
use symphony_python.Text.{Text, codes, text_eq, lower, contains}
use symphony_python.Dict.{TextSet, member}
use symphony_python.Json.{Float, Value, Items, Fields}
use symphony_python.Models.{Issue, BlockerRef, DateTime, normalize_state}
use symphony_python.Config.{get_or}
use symphony_python.Orchestrator.Tokens.{payload_get, is_true}
use symphony_python.Trackers.Normalize.{
  opt_str, parse_rfc3339, normalize_labels, coerce_priority, coerce_blockers, require_str,
}
use symphony_python.Trackers.Faults.{FaultInjector, TrackerError, check}

-- What a call leaves, or the error that it raises
pub data Answer {ℓ} (A : Type ℓ) : Type ℓ where
  got : A → Answer A
  failed : TrackerError → Answer A

-- `ProviderCall`, without the counts that only tests read
pub data Operation : Type 0 where
  states_page : Operation
  ids_batch : Operation
  tool_call : Text → Operation

-- `MemoryTrackerAdapter`
pub record Memory : Type 0 where
  pub scope : Option Text
  pub page_size : ℕ
  pub max_ids_per_request : ℕ
  pub require_assignee : Bool
  pub terminal_set : TextSet
  pub records : List Fields
  pub faults : FaultInjector
  pub calls : List Operation
  pub omitted : List Text
  pub closed : Bool

unfoldable pub has_field : Text → Fields → Bool
has_field key Fields.end = false
has_field key (Fields.field k v rest) = text_eq k key || has_field key rest

-- `record[key] = value`
unfoldable pub set_field : Text → Value → Fields → Fields
set_field key value Fields.end = Fields.field key value Fields.end
set_field key value (Fields.field k v rest) =
    if text_eq k key then Fields.field k value rest else Fields.field k v (set_field key value rest)

abbrev pub opt_eq : Option Text → Option Text → Bool
opt_eq none none = true
opt_eq (some a) (some b) = text_eq a b
opt_eq _ _ = false

-- `_text(record.get(key))`
unfoldable pub text_at : Text → Fields → Option Text
text_at key fields = opt_str (payload_get key fields)

-- `_dispatch_id`
unfoldable pub dispatch_id : Fields → Option Text
dispatch_id fields = or_else (text_at (codes "item_id") fields) (text_at (codes "id") fields)

-- `_in_scope`
unfoldable pub in_scope : Option Text → Fields → Bool
in_scope none fields = true
in_scope (some scope) fields = opt_eq (text_at (codes "scope") fields) (some scope)

-- `_json_safe`, with the levels that are left
unfoldable mutual
  pub is_json_safe : ℕ → Value → Bool
  is_json_safe zero v = false
  is_json_safe (suc left) (Value.float (Float.finite m e)) = true
  is_json_safe (suc left) (Value.float (Float.infinite s)) = false
  is_json_safe (suc left) (Value.float Float.nan) = false
  is_json_safe (suc left) (Value.arr items) = are_json_safe left items
  is_json_safe (suc left) (Value.obj fields) = has_safe_values left fields
  is_json_safe (suc left) Value.null = true
  is_json_safe (suc left) (Value.bool b) = true
  is_json_safe (suc left) (Value.int i) = true
  is_json_safe (suc left) (Value.str s) = true

  pub are_json_safe : ℕ → Items → Bool
  are_json_safe left Items.nil = true
  are_json_safe left (Items.cons v rest) = is_json_safe left v && are_json_safe left rest

  pub has_safe_values : ℕ → Fields → Bool
  has_safe_values left Fields.end = true
  has_safe_values left (Fields.field k v rest) = is_json_safe left v && has_safe_values left rest

-- The depths 0 to `_MAX_NATIVE_REF_DEPTH`
abbrev pub native_ref_levels : ℕ
native_ref_levels = 7

abbrev pub secretish_parts : List Text
secretish_parts =
    codes "token"
    ∷ codes "secret"
    ∷ codes "password"
    ∷ codes "passwd"
    ∷ codes "apikey"
    ∷ codes "api-key"
    ∷ codes "api_key"
    ∷ codes "api key"
    ∷ codes "authoriz"
    ∷ codes "credential"
    ∷ codes "cookie"
    ∷ codes "sessionid"
    ∷ codes "session-id"
    ∷ codes "session_id"
    ∷ codes "session id"
    ∷ []

-- `_SECRETISH_KEY.search(key)`
unfoldable pub is_secretish : Text → Bool
is_secretish key = any (λ part. contains part (lower key)) secretish_parts

unfoldable pub safe_entries : Fields → Fields
safe_entries Fields.end = Fields.end
safe_entries (Fields.field k v rest) =
    let more = safe_entries rest in
    if not (is_secretish k) && is_json_safe native_ref_levels v then Fields.field k v more else more

abbrev ref_entries : Value → Fields
ref_entries (Value.obj fields) = safe_entries fields
ref_entries _ = Fields.end

abbrev with_ticket : Option Text → Option Text → Fields → Fields
with_ticket (some item) (some ticket) out =
    if text_eq ticket item then out else set_field (codes "ticket_id") (Value.str ticket) out
with_ticket _ _ out = out

abbrev or_nothing : Fields → Option Fields
or_nothing Fields.end = none
or_nothing (Fields.field k v rest) = some (Fields.field k v rest)

-- `_native_ref`
unfoldable pub native_ref_of : Fields → Option Fields
native_ref_of fields = or_nothing (
    with_ticket (text_at (codes "item_id") fields) (text_at (codes "id") fields)
      (ref_entries (payload_get (codes "native_ref") fields)))

abbrev explicit : Value → Option Bool
explicit (Value.bool b) = some b
explicit _ = none

-- A blocker that is not in a terminal state; one without a state is unresolved.
abbrev unresolved : TextSet → BlockerRef → Bool
unresolved terminal ref = not (member (normalize_state (get_or ref.state [])) terminal)

abbrev is_blank : Option Text → Bool
is_blank none = true
is_blank (some s) = false

module _ (require_assignee : Bool) (terminal : TextSet) where
  abbrev derived : Fields → Bool
  derived fields =
      if is_true (payload_get (codes "archived") fields)
      then false
      else if require_assignee && is_blank (text_at (codes "assignee_id") fields)
      then false
      else not
          (any (unresolved terminal) (coerce_blockers (payload_get (codes "blocked_by") fields)))

  -- `_dispatchable`: `none` is the `TrackerResponseError`.
  unfoldable pub dispatchable_of : Fields → Option Bool
  dispatchable_of fields =
      if has_field (codes "dispatchable") fields
      then explicit (payload_get (codes "dispatchable") fields)
      else some (derived fields)

abbrev description_of : Value → Option Text
description_of (Value.str s) = some s
description_of _ = none

-- The end of `_normalize`, where the required fields have been looked for: the first that is absent
-- is the `TrackerResponseError`.
abbrev pub issue_from :
    (Text → Option DateTime)
    → Fields
    → Option Text
    → Option Text
    → Option Text
    → Option Text
    → Option Bool
    → Answer Issue
issue_from iso fields none identifier title state dispatchable =
    failed (TrackerError.response_error (codes "id"))
issue_from iso fields (some id) none title state dispatchable =
    failed (TrackerError.response_error (codes "identifier"))
issue_from iso fields (some id) (some identifier) none state dispatchable =
    failed (TrackerError.response_error (codes "title"))
issue_from iso fields (some id) (some identifier) (some title) none dispatchable =
    failed (TrackerError.response_error (codes "state"))
issue_from iso fields (some id) (some identifier) (some title) (some state) none =
    failed (TrackerError.response_error (codes "dispatchable"))
issue_from iso fields (some id) (some identifier) (some title) (some state) (some dispatchable) =
    got (record {
      id = id;
      identifier = identifier;
      title = title;
      state = state;
      dispatchable = dispatchable;
      native_ref = native_ref_of fields;
      description = description_of (payload_get (codes "description") fields);
      priority = coerce_priority (payload_get (codes "priority") fields);
      branch_name = text_at (codes "branch_name") fields;
      url = text_at (codes "url") fields;
      assignee_id = text_at (codes "assignee_id") fields;
      labels = normalize_labels (payload_get (codes "labels") fields);
      blocked_by = coerce_blockers (payload_get (codes "blocked_by") fields);
      created_at = parse_rfc3339 iso (payload_get (codes "created_at") fields);
      updated_at = parse_rfc3339 iso (payload_get (codes "updated_at") fields);
    })

-- `_normalize`
unfoldable pub normalize : (Text → Option DateTime) → Memory → Fields → Answer Issue
normalize from_iso_format memory fields =
    issue_from from_iso_format fields (dispatch_id fields) (require_str fields (codes "identifier"))
      (require_str fields (codes "title")) (require_str fields (codes "state"))
      (dispatchable_of memory.require_assignee memory.terminal_set fields)

-- `_provider_call`
unfoldable pub provider_call : Operation → Memory → Memory × Option TrackerError
provider_call op memory =
    if memory.closed
    then (memory, some TrackerError.closed_error)
    else let (faults, error) = check memory.faults in
      (record memory { calls = memory.calls ++ (op ∷ []); faults = faults }, error)

-- Whether a record is the one that `_find_record` looks for
unfoldable pub is_target : Option Text → Text → Fields → Bool
is_target scope id r = in_scope scope r && opt_eq (dispatch_id r) (some id)

-- `_find_record`
unfoldable pub find_in : Option Text → Text → List Fields → Option Fields
find_in scope id [] = none
find_in scope id (r ∷ records) =
    let later = find_in scope id records in if is_target scope id r then some r else later

-- `remove`
unfoldable pub remove_in : Option Text → Text → List Fields → List Fields
remove_in scope id [] = []
remove_in scope id (r ∷ records) =
    let later = remove_in scope id records in if is_target scope id r then records else r ∷ later

unfoldable pub remove : Text → Memory → Memory
remove id memory = record memory { records = remove_in memory.scope id memory.records }

abbrev pub both_there : Option Text → Option Text → Bool
both_there (some a) (some b) = text_eq a b
both_there _ _ = false

-- Two records that `_assert_unique` does not let stand together
unfoldable pub clashes : Fields → Fields → Bool
clashes fresh other =
    opt_eq (text_at (codes "scope") other) (text_at (codes "scope") fresh)
    && (both_there (dispatch_id fresh) (dispatch_id other)
        || both_there (text_at (codes "identifier") fresh) (text_at (codes "identifier") other))

-- `add`: `none` is the `InvalidTrackerConfig` of `_assert_unique`.
unfoldable pub add_record : Fields → Memory → Option Memory
add_record fresh memory =
    if any (clashes fresh) memory.records
    then none
    else some (record memory { records = memory.records ++ (fresh ∷ []) })

unfoldable pub update_fields : Fields → Fields → Fields
update_fields Fields.end old = old
update_fields (Fields.field k v rest) old = update_fields rest (set_field k v old)

-- The record that `_find_record` finds is changed in place.
unfoldable pub change_in : Option Text → Text → (Fields → Fields) → List Fields → List Fields
change_in scope id f [] = []
change_in scope id f (r ∷ records) =
    let later = change_in scope id f records in
    if is_target scope id r then f r ∷ records else r ∷ later

abbrev pub is_found : Option Fields → Bool
is_found none = false
is_found (some r) = true

-- `update`: `none` is the `KeyError`.
unfoldable pub update : Text → Fields → Memory → Option Memory
update id changes memory =
    if is_found (find_in memory.scope id memory.records)
    then some (record memory {
      records = change_in memory.scope id (update_fields changes) memory.records;
    })
    else none

-- `corrupt`
unfoldable pub corrupt : Text → Text → Value → Memory → Option Memory
corrupt id name value memory = update id (Fields.field name value Fields.end) memory

-- `aclose`
unfoldable pub aclose : Memory → Memory
aclose memory = record memory { closed = true }
