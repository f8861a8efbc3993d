-- ===== src/Agent/Approved.antt =====
-- What the shipped policies approve.
use symphony_python.Prelude.{◌≡◌, refl, Bool, false, not, ◌&&◌, ◌||◌, some, List, arith}
use symphony_python.Text.{Text}
use symphony_python.Agent.Approvals.{
  ApprovalKind, command_execution, file_change, user_input, unknown, is_approval, ApprovalPolicy,
  static_decide, as_policy, trusted_auto_approve, deny_all, Request, names_of, keys_of, hinted,
  meets, user_input_hints, file_change_hints, command_hints, file_change_keys, command_keys,
  classify_by, classify_approval, decide_approval,
}

-- No name asks for input, and a name or a key tells of a file change or of a command.
abbrev pub asks_approvable : List Text → List Text → Bool
asks_approvable names structural =
    not (hinted user_input_hints names)
    && (hinted file_change_hints names
        || hinted command_hints names
        || meets file_change_keys structural
        || meets command_keys structural)

trusted-classify_by :
    (names structural : List Text)
    → is_approval (static_decide trusted_auto_approve (classify_by names structural))
      ≡ asks_approvable names structural
unfolding classify_by static_decide is_approval
trusted-classify_by names structural = ground arith

denied : (kind : ApprovalKind) → is_approval (static_decide deny_all kind) ≡ false
unfolding static_decide is_approval
denied command_execution = refl
denied file_change = refl
denied user_input = refl
denied unknown = refl

-- The default policy approves a request exactly if no name of it asks for input, and a name or a
-- key of it tells of a file change or of a command; no other request is approved, and the policy
-- that denies all approves none.
pub decide_approval-shipped :
    (active : ApprovalPolicy) (request : Request)
    → (is_approval (decide_approval active (some (as_policy trusted_auto_approve)) request)
        ≡ asks_approvable (names_of request) (keys_of request))
      × (is_approval (decide_approval active (some (as_policy deny_all)) request) ≡ false)
unfolding decide_approval classify_approval
decide_approval-shipped active request =
    (trusted-classify_by (names_of request) (keys_of request), denied (classify_approval request))
