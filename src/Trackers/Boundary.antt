-- ===== src/Trackers/Boundary.antt =====
-- The agent tools of trackers/memory.py stay inside of the configured scope.
use symphony_python.Prelude.{
  ◌≡◌, refl, sym, false, not, Option, none, some, List, [], ◌∷◌, keep, or_else, inl, inr,
  Bool-cases, Option-cases, arith,
}
use symphony_python.Text.{Text, codes, text_eq, text_eq_iff, strip}
use symphony_python.Dict.{member}
use symphony_python.Json.{Value, Fields}
use symphony_python.Models.{DateTime}
use symphony_python.Orchestrator.Tokens.{payload_get}
use symphony_python.Trackers.Faults.{TrackerError}
use symphony_python.Trackers.Memory.{
  Operation, Memory, set_field, text_at, in_scope, provider_call, find_in, is_target, change_in,
}
use symphony_python.Trackers.Tools.{
  commented, some_text, comments_in, behind_call, with_payload, tool_names, tool_add_comment,
  tool_set_state, run_tool, on_record, on_target, execute_agent_tool,
}

payload_get-set_field :
    (key name : Text) (v : Value) (r : Fields)
    → text_eq name key ≡ false
    → payload_get key (set_field name v r) ≡ payload_get key r
unfolding payload_get set_field
payload_get-set_field key name v Fields.end h = rw h refl
payload_get-set_field key name v (Fields.field k w rest) h = ground (
  arith,
  text_eq_iff k key,
  text_eq_iff k name,
  text_eq_iff name key,
  payload_get-set_field key name v rest h,
)

in_scope-set_field :
    (scope : Option Text) (name : Text) (v : Value) (r : Fields)
    → text_eq name (codes "scope") ≡ false
    → in_scope scope (set_field name v r) ≡ in_scope scope r
unfolding in_scope text_at
in_scope-set_field none name v r h = refl
in_scope-set_field (some s) name v r h = rw (payload_get-set_field (codes "scope") name v r h) refl

module _ (from_iso_format : Text → Option DateTime) (now : Text) (scope : Option Text) where
  in_scope-commented :
      (body : Text) (r : Fields) (v : Value)
      → in_scope scope (commented now body r v).0 ≡ in_scope scope r
  unfolding text_eq
  in_scope-commented body r Value.null = refl
  in_scope-commented body r (Value.bool b) = refl
  in_scope-commented body r (Value.int i) = refl
  in_scope-commented body r (Value.float x) = refl
  in_scope-commented body r (Value.str s) = refl
  in_scope-commented body r (Value.arr comments) =
      in_scope-set_field scope (codes "comments") _ r refl
  in_scope-commented body r (Value.obj fields) = refl

  in_scope-tool_add_comment :
      (r arguments : Fields)
      → in_scope scope (tool_add_comment now r arguments).0 ≡ in_scope scope r
  unfolding tool_add_comment
  in_scope-tool_add_comment r arguments =
      elim (Option-cases (some_text (payload_get (codes "body") arguments))) [
        | inl e ↦ rw e refl
        | inr (body, e) ↦ rw e (in_scope-commented body r (comments_in r))
      ]

  in_scope-tool_set_state :
      (r arguments : Fields) → in_scope scope (tool_set_state r arguments).0 ≡ in_scope scope r
  unfolding tool_set_state text_eq
  in_scope-tool_set_state r arguments =
      elim (Option-cases (some_text (payload_get (codes "state") arguments))) [
        | inl e ↦ rw e refl
        | inr (state, e) ↦
            rw e (in_scope-set_field scope (codes "state") (Value.str (strip state)) r refl)
      ]

  in_scope-run_tool :
      (memory : Memory) (name : Text) (arguments r : Fields)
      → in_scope scope (run_tool from_iso_format now memory name arguments r).0 ≡ in_scope scope r
  unfolding run_tool
  in_scope-run_tool memory name arguments r =
      elim (Bool-cases (text_eq name (codes "memory_get_issue"))) [
        | inl e ↦ rw e refl
        | inr e ↦ elim (Bool-cases (text_eq name (codes "memory_add_comment"))) [
          | inl d ↦ rw (e, d) (in_scope-tool_add_comment r arguments)
          | inr d ↦ rw (e, d) (in_scope-tool_set_state r arguments)
        ]
      ]

-- The records that the scope leaves out
abbrev pub outside : Option Text → List Fields → List Fields
outside scope records = keep (λ r. not (in_scope scope r)) records

outside-change_in :
    (scope : Option Text) (id : Text) (f : Fields → Fields) (records : List Fields)
    → ((r : Fields) → in_scope scope (f r) ≡ in_scope scope r)
    → outside scope (change_in scope id f records) ≡ outside scope records
unfolding change_in keep is_target
outside-change_in scope id f [] h = refl
outside-change_in scope id f (r ∷ records) h =
    ground (arith, h r, outside-change_in scope id f records h)

provider_call-records :
    (op : Operation) (memory : Memory)
    → ((provider_call op memory).0.records ≡ memory.records)
      × ((provider_call op memory).0.scope ≡ memory.scope)
unfolding provider_call
provider_call-records op memory = ground arith

module _ (from_iso_format : Text → Option DateTime) (now : Text) where
  on_target-outside :
      (memory : Memory) (name : Text) (arguments : Fields) (target : Option Text)
      → outside memory.scope (on_target from_iso_format now memory name arguments target).0.records
        ≡ outside memory.scope memory.records
  unfolding on_target on_record
  on_target-outside memory name arguments none = refl
  on_target-outside memory name arguments (some id) =
      elim (Option-cases (find_in memory.scope id memory.records)) [
        | inl e ↦ rw e refl
        | inr (r, e) ↦ rw e (
            outside-change_in memory.scope id
              (λ x. (run_tool from_iso_format now memory name arguments x).0) memory.records
              (in_scope-run_tool from_iso_format now memory.scope memory name arguments))
      ]

  behind_call-outside :
      (name : Text) (arguments : Fields) (current : Option Text) (scope : Option Text)
      (records : List Fields) (call : Memory × Option TrackerError)
      → (call.0.records ≡ records) × (call.0.scope ≡ scope)
      → outside scope (behind_call from_iso_format now name arguments current call).0.records
        ≡ outside scope records
  behind_call-outside name arguments current scope records (memory, some e) (same, scoped) =
      rw same refl
  behind_call-outside name arguments current scope records (memory, none) (same, scoped) =
      rw (sym same, sym scoped)
        (on_target-outside memory name arguments
          (or_else (text_at (codes "issue_id") arguments) current))

  with_payload-outside :
      (name : Text) (current : Option Text) (memory : Memory) (arguments : Value)
      → outside memory.scope
          (with_payload from_iso_format now name current memory arguments).0.records
        ≡ outside memory.scope memory.records
  with_payload-outside name current memory Value.null =
      behind_call-outside name Fields.end current memory.scope memory.records
        (provider_call (Operation.tool_call name) memory)
        (provider_call-records (Operation.tool_call name) memory)
  with_payload-outside name current memory (Value.obj arguments) =
      behind_call-outside name arguments current memory.scope memory.records
        (provider_call (Operation.tool_call name) memory)
        (provider_call-records (Operation.tool_call name) memory)
  with_payload-outside name current memory (Value.bool b) = refl
  with_payload-outside name current memory (Value.int i) = refl
  with_payload-outside name current memory (Value.float x) = refl
  with_payload-outside name current memory (Value.str s) = refl
  with_payload-outside name current memory (Value.arr items) = refl

  -- Whatever tool an agent calls, with whatever arguments and in whatever context: the records
  -- outside of the configured scope stay as they are.
  pub execute_agent_tool-outside :
      (name : Text) (arguments : Value) (current : Option Text) (memory : Memory)
      → outside memory.scope
          (execute_agent_tool from_iso_format now name arguments current memory).0.records
        ≡ outside memory.scope memory.records
  unfolding execute_agent_tool
  execute_agent_tool-outside name arguments current memory =
      elim (Bool-cases (member name tool_names)) [
        | inl e ↦ rw e (with_payload-outside name current memory arguments)
        | inr e ↦ rw e refl
      ]
