-- ===== src/Trackers/Tools.antt =====
-- The agent tools of trackers/memory.py. The clock's `isoformat` is an argument, and the results are
-- the facts that `ToolResult` carries.
use symphony_python.Prelude.{ℕ, suc, Option, none, some, List, [], ◌∷◌, or_else, if◌then◌else◌}
use symphony_python.Text.{Text, codes, text_eq, truthy, strip}
use symphony_python.Dict.{member}
use symphony_python.Json.{Value, Items, Fields}
use symphony_python.Models.{Issue, DateTime}
use symphony_python.Orchestrator.Tokens.{payload_get}
use symphony_python.Trackers.Faults.{TrackerError}
use symphony_python.Trackers.Memory.{
  Answer, got, failed, Operation, Memory, has_field, set_field, text_at, dispatch_id, normalize,
  provider_call, find_in, change_in,
}

pub data ToolResult : Type 0 where
  unsupported_tool : ToolResult
  not_an_object : ToolResult
  tracker_failure : TrackerError → ToolResult
  no_issue_id : ToolResult
  not_visible : Text → ToolResult
  bad_argument : Text → ToolResult
  not_a_list : ToolResult
  issue_read : Issue → Items → ToolResult
  comment_added : Option Text → ℕ → ToolResult
  state_set : Option Text → Value → Text → ToolResult

-- `_TOOL_NAMES`
abbrev pub tool_names : List Text
tool_names = codes "memory_get_issue" ∷ codes "memory_add_comment" ∷ codes "memory_set_state" ∷ []

abbrev comments_of : Value → Items
comments_of (Value.arr items) = items
comments_of _ = Items.nil

abbrev read_result : Answer Issue → Items → ToolResult
read_result (got issue) comments = ToolResult.issue_read issue comments
read_result (failed e) comments = ToolResult.tracker_failure e

-- `_tool_get_issue`
unfoldable pub tool_get_issue : (Text → Option DateTime) → Memory → Fields → ToolResult
tool_get_issue from_iso_format memory r =
    read_result (normalize from_iso_format memory r)
      (comments_of (payload_get (codes "comments") r))

unfoldable pub count_items : Items → ℕ
count_items Items.nil = 0
count_items (Items.cons v rest) = suc (count_items rest)

unfoldable pub append_item : Items → Value → Items
append_item Items.nil v = Items.cons v Items.nil
append_item (Items.cons w rest) v = Items.cons w (append_item rest v)

abbrev pub some_text : Value → Option Text
some_text (Value.str s) = if truthy (strip s) then some s else none
some_text _ = none

-- `record.setdefault("comments", [])`
unfoldable pub comments_in : Fields → Value
comments_in r =
    if has_field (codes "comments") r then payload_get (codes "comments") r else Value.arr Items.nil

-- The record and the result where the body of a comment is good
abbrev pub commented : Text → Text → Fields → Value → Fields × ToolResult
commented now body r (Value.arr comments) = (
  set_field (codes "comments")
      (Value.arr (
        append_item comments (
          Value.obj (
            Fields.field (codes "body") (Value.str body)
              (Fields.field (codes "created_at") (Value.str now) Fields.end)))))
      r,
  ToolResult.comment_added (dispatch_id r) (count_items comments),
)
commented now body r _ = (r, ToolResult.not_a_list)

abbrev pub with_body : Text → Fields → Option Text → Fields × ToolResult
with_body now r none = (r, ToolResult.bad_argument (codes "body"))
with_body now r (some body) = commented now body r (comments_in r)

-- `_tool_add_comment`: the record afterwards, and the result
unfoldable pub tool_add_comment : Text → Fields → Fields → Fields × ToolResult
tool_add_comment now r arguments =
    with_body now r (some_text (payload_get (codes "body") arguments))

abbrev pub with_state : Fields → Option Text → Fields × ToolResult
with_state r none = (r, ToolResult.bad_argument (codes "state"))
with_state r (some state) = (
  set_field (codes "state") (Value.str (strip state)) r,
  ToolResult.state_set (dispatch_id (set_field (codes "state") (Value.str (strip state)) r))
      (payload_get (codes "state") r) (strip state),
)

-- `_tool_set_state`
unfoldable pub tool_set_state : Fields → Fields → Fields × ToolResult
tool_set_state r arguments = with_state r (some_text (payload_get (codes "state") arguments))

module _ (from_iso_format : Text → Option DateTime) (now : Text) where
  -- The tool by its name, on the record it is for
  unfoldable pub run_tool : Memory → Text → Fields → Fields → Fields × ToolResult
  run_tool memory name arguments r =
      if text_eq name (codes "memory_get_issue")
      then (r, tool_get_issue from_iso_format memory r)
      else if text_eq name (codes "memory_add_comment")
      then tool_add_comment now r arguments
      else tool_set_state r arguments

  -- The record that is found is changed in place.
  unfoldable pub on_record : Memory → Text → Fields → Text → Option Fields → Memory × ToolResult
  on_record memory name arguments id none = (memory, ToolResult.not_visible id)
  on_record memory name arguments id (some r) = (
    record memory {
      records =
          change_in memory.scope id (λ x. (run_tool memory name arguments x).0) memory.records;
    },
    (run_tool memory name arguments r).1,
  )

  -- `_tool_target`, and what follows it
  unfoldable pub on_target : Memory → Text → Fields → Option Text → Memory × ToolResult
  on_target memory name arguments none = (memory, ToolResult.no_issue_id)
  on_target memory name arguments (some id) =
      on_record memory name arguments id (find_in memory.scope id memory.records)

  abbrev pub behind_call :
      Text → Fields → Option Text → Memory × Option TrackerError → Memory × ToolResult
  behind_call name arguments current (memory, some e) = (memory, ToolResult.tracker_failure e)
  behind_call name arguments current (memory, none) =
      on_target memory name arguments (or_else (text_at (codes "issue_id") arguments) current)

  abbrev pub with_payload : Text → Option Text → Memory → Value → Memory × ToolResult
  with_payload name current memory (Value.obj arguments) =
      behind_call name arguments current (provider_call (Operation.tool_call name) memory)
  with_payload name current memory Value.null =
      behind_call name Fields.end current (provider_call (Operation.tool_call name) memory)
  with_payload name current memory _ = (memory, ToolResult.not_an_object)

  -- `execute_agent_tool`, with the id of the issue in the context
  unfoldable pub execute_agent_tool : Text → Value → Option Text → Memory → Memory × ToolResult
  execute_agent_tool name arguments current memory =
      if member name tool_names
      then with_payload name current memory arguments
      else (memory, ToolResult.unsupported_tool)
