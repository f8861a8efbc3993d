-- ===== src/Agent/Approvals.antt =====
-- agent/approvals.py: how requests are classified, and what the policies answer.
use symphony_python.Prelude.{
  ℕ, zero, suc, Bool, true, false, Option, none, some, List, [], ◌∷◌, ◌++◌, any, if◌then◌else◌,
}
use symphony_python.Text.{Text, codes, text_eq, contains, strip, lower}
use symphony_python.Dict.{TextSet, member}
use symphony_python.Json.{Value, Fields}
use symphony_python.Agent.Payload.{norm}

pub data ApprovalKind : Type 0 where
  command_execution file_change user_input unknown : ApprovalKind

pub data ApprovalDecision : Type 0 where
  approve approve_for_session deny fail_run : ApprovalDecision

unfoldable pub is_approval : ApprovalDecision → Bool
is_approval approve = true
is_approval approve_for_session = true
is_approval _ = false

unfoldable pub remembers_for_session : ApprovalDecision → Bool
remembers_for_session approve_for_session = true
remembers_for_session _ = false

unfoldable pub ends_run : ApprovalDecision → Bool
ends_run fail_run = true
ends_run _ = false

-- Any object with a name and a total `decide`
pub record ApprovalPolicy : Type 0 where
  pub name : Text
  pub decide : ApprovalKind → Option Fields → ApprovalDecision

pub record StaticApprovalPolicy : Type 0 where
  pub name : Text
  pub decisions : ApprovalKind → Option ApprovalDecision
  pub default : ApprovalDecision

abbrev get_or : Option ApprovalDecision → ApprovalDecision → ApprovalDecision
get_or none d = d
get_or (some a) d = a

-- `StaticApprovalPolicy.decide`: the request plays no part.
unfoldable pub static_decide : StaticApprovalPolicy → ApprovalKind → ApprovalDecision
static_decide policy kind = get_or (policy.decisions kind) policy.default

abbrev pub as_policy : StaticApprovalPolicy → ApprovalPolicy
as_policy policy = record { name = policy.name; decide = λ kind request. static_decide policy kind }

abbrev trusted_table : ApprovalKind → Option ApprovalDecision
trusted_table command_execution = some approve_for_session
trusted_table file_change = some approve_for_session
trusted_table user_input = some fail_run
trusted_table unknown = some deny

abbrev pub trusted_auto_approve : StaticApprovalPolicy
trusted_auto_approve = record {
  name = codes "trusted-auto-approve";
  decisions = trusted_table;
  default = deny;
}

abbrev deny_table : ApprovalKind → Option ApprovalDecision
deny_table user_input = some fail_run
deny_table _ = some deny

abbrev pub deny_all : StaticApprovalPolicy
deny_all = record { name = codes "deny-all"; decisions = deny_table; default = deny }

-- `policy_by_name`: `none` is the `ValueError`.
unfoldable pub policy_by_name : Text → Option ApprovalPolicy
policy_by_name name =
    let key = lower (strip name) in
    if text_eq key trusted_auto_approve.name
    then some (as_policy trusted_auto_approve)
    else if text_eq key deny_all.name
    then some (as_policy deny_all)
    else none

abbrev pub user_input_hints : List Text
user_input_hints =
    codes "userinput"
    ∷ codes "inputrequired"
    ∷ codes "requestinput"
    ∷ codes "askuser"
    ∷ codes "elicit"
    ∷ codes "userquestion"
    ∷ []

abbrev pub file_change_hints : List Text
file_change_hints =
    codes "patch"
    ∷ codes "filechange"
    ∷ codes "applychange"
    ∷ codes "writefile"
    ∷ codes "editapproval"
    ∷ codes "diffapproval"
    ∷ []

abbrev pub command_hints : List Text
command_hints =
    codes "execcommand"
    ∷ codes "commandapproval"
    ∷ codes "execapproval"
    ∷ codes "shell"
    ∷ codes "runcommand"
    ∷ codes "exec"
    ∷ []

abbrev pub file_change_keys : TextSet
file_change_keys =
    codes "changes" ∷ codes "filechanges" ∷ codes "patch" ∷ codes "diff" ∷ codes "edits" ∷ []

abbrev pub command_keys : TextSet
command_keys = codes "command" ∷ codes "argv" ∷ codes "cmd" ∷ codes "commandline" ∷ []

abbrev pub user_input_keys : TextSet
user_input_keys = codes "question" ∷ codes "inputrequest" ∷ codes "prompttouser" ∷ []

abbrev pub name_keys : TextSet
name_keys =
    codes "method"
    ∷ codes "type"
    ∷ codes "event"
    ∷ codes "kind"
    ∷ codes "name"
    ∷ codes "subtype"
    ∷ codes "eventtype"
    ∷ []

abbrev pub envelope_keys : TextSet
envelope_keys =
    codes "params"
    ∷ codes "payload"
    ∷ codes "data"
    ∷ codes "request"
    ∷ codes "msg"
    ∷ codes "update"
    ∷ []

-- A bare name, a payload, or anything else
pub data Request : Type 0 where
  bare : Text → Request
  payload : Fields → Request
  other : Request

-- `_candidate_names`, with the levels that are left: 4 at depth 0, none beyond depth 3
unfoldable pub candidate_names : ℕ → Fields → List Text
candidate_names zero fields = []
candidate_names (suc left) Fields.end = []
candidate_names (suc left) (Fields.field k (Value.str s) rest) =
    let more = candidate_names (suc left) rest in
    if member (norm k) name_keys then norm s ∷ more else more
candidate_names (suc left) (Fields.field k (Value.obj inner) rest) =
    let more = candidate_names (suc left) rest in
    let within = candidate_names left inner ++ more in
    if member (norm k) envelope_keys then within else more
candidate_names (suc left) (Fields.field k v rest) = candidate_names (suc left) rest

-- `_structural_keys`, as a list
unfoldable pub structural_keys : ℕ → Fields → List Text
structural_keys zero fields = []
structural_keys (suc left) Fields.end = []
structural_keys (suc left) (Fields.field k (Value.obj inner) rest) =
    let more = structural_keys (suc left) rest in
    let within = structural_keys left inner ++ more in
    norm k ∷ (if member (norm k) envelope_keys then within else more)
structural_keys (suc left) (Fields.field k v rest) = norm k ∷ structural_keys (suc left) rest

abbrev pub walk_levels : ℕ
walk_levels = 4

unfoldable pub names_of : Request → List Text
names_of (bare text) = norm text ∷ []
names_of (payload fields) = candidate_names walk_levels fields
names_of other = []

unfoldable pub keys_of : Request → List Text
keys_of (payload fields) = structural_keys walk_levels fields
keys_of _ = []

-- Does one of the names contain one of the hints?
unfoldable pub hinted : List Text → List Text → Bool
hinted hints names = any (λ name. any (λ hint. contains hint name) hints) names

-- `structural & keys`
unfoldable pub meets : TextSet → List Text → Bool
meets keys structural = any (λ key. member key keys) structural

-- The two loops of `classify_approval`, over its two tables in order
unfoldable pub classify_by : List Text → List Text → ApprovalKind
classify_by names structural =
    if hinted user_input_hints names
    then user_input
    else if hinted file_change_hints names
    then file_change
    else if hinted command_hints names
    then command_execution
    else if meets file_change_keys structural
    then file_change
    else if meets command_keys structural
    then command_execution
    else if meets user_input_keys structural
    then user_input
    else unknown

unfoldable pub classify_approval : Request → ApprovalKind
classify_approval request = classify_by (names_of request) (keys_of request)

abbrev payload_of : Request → Option Fields
payload_of (payload fields) = some fields
payload_of _ = none

abbrev pub policy_or : Option ApprovalPolicy → ApprovalPolicy → ApprovalPolicy
policy_or none active = active
policy_or (some policy) active = policy

-- The process-wide policy is the argument `active`.
unfoldable pub decide_approval : ApprovalPolicy → Option ApprovalPolicy → Request → ApprovalDecision
decide_approval active policy request =
    (policy_or policy active).decide (classify_approval request) (payload_of request)

unfoldable pub decide_user_input :
    ApprovalPolicy → Option ApprovalPolicy → Request → ApprovalDecision
decide_user_input active policy request =
    (policy_or policy active).decide user_input (payload_of request)

-- The new active policy, and the previous one
unfoldable pub set_approval_policy :
    ApprovalPolicy → ApprovalPolicy → ApprovalPolicy × ApprovalPolicy
set_approval_policy policy active = (policy, active)

-- The first name of the request itself
unfoldable pub first_name : Fields → Option Text
first_name Fields.end = none
first_name (Fields.field k (Value.str s) rest) =
    if member (norm k) name_keys then some s else first_name rest
first_name (Fields.field k v rest) = first_name rest

-- The `method` of the error that `user_input_failure` builds
unfoldable pub failure_method : Request → Option Text
failure_method (bare text) = some text
failure_method (payload fields) = first_name fields
failure_method other = none
