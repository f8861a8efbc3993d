-- ===== src/Agent/Payload.antt =====
-- The walk over a payload of agent/events.py. Decoded JSON has text keys only.
use symphony_python.Prelude.{
  ℕ, zero, suc, ◌+◌, Bool, ◌&&◌, ◌||◌, Option, none, some, List, [], ◌∷◌, ◌++◌, map, keep, leb,
  if◌then◌else◌,
}
use symphony_python.Text.{Text, codes, lower}
use symphony_python.Dict.{TextSet, member}
use symphony_python.Json.{Value, Fields}

-- `[a-z0-9]`
unfoldable pub is_lower_alnum : ℕ → Bool
is_lower_alnum c = (leb b'a' c && leb c b'z') || (leb b'0' c && leb c b'9')

-- `_norm`
unfoldable pub norm : Text → Text
unfolding is_lower_alnum
norm text = keep is_lower_alnum (lower text)

abbrev pub absolute_total_keys : TextSet
absolute_total_keys =
    codes "totaltokenusage" ∷ codes "totalusage" ∷ codes "cumulativetokenusage" ∷ []

abbrev pub delta_usage_keys : TextSet
delta_usage_keys =
    codes "lasttokenusage"
    ∷ codes "lastusage"
    ∷ codes "deltatokenusage"
    ∷ codes "tokenusagedelta"
    ∷ []

-- The folded `TOKEN_USAGE_EVENT_NAMES`
abbrev pub token_usage_event_keys : TextSet
token_usage_event_keys = codes "threadtokenusageupdated" ∷ codes "tokenusageupdated" ∷ []

abbrev pub type_keys : TextSet
type_keys = codes "method" ∷ codes "type" ∷ codes "event" ∷ codes "eventtype" ∷ codes "name" ∷ []

abbrev pub envelope_keys : TextSet
envelope_keys =
    codes "params"
    ∷ codes "payload"
    ∷ codes "data"
    ∷ codes "result"
    ∷ codes "info"
    ∷ codes "msg"
    ∷ codes "update"
    ∷ []

abbrev pub rate_limit_keys : TextSet
rate_limit_keys = codes "ratelimits" ∷ codes "ratelimit" ∷ codes "ratelimitsnapshot" ∷ []

abbrev pub max_walk_depth : ℕ
max_walk_depth = 8

abbrev pub max_walk_nodes : ℕ
max_walk_nodes = 512

-- `_as_mapping`
abbrev pub as_mapping : Value → Option Fields
as_mapping (Value.obj fields) = some fields
as_mapping _ = none

abbrev pub maybe_cons : Option Fields → List Fields → List Fields
maybe_cons none nodes = nodes
maybe_cons (some node) nodes = node ∷ nodes

-- The values of a node that the walk goes on with
unfoldable pub children : Fields → List Fields
children Fields.end = []
children (Fields.field k v rest) =
    maybe_cons (if member (norm k) delta_usage_keys then none else as_mapping v) (children rest)

abbrev pub at_depth : ℕ → Fields → Fields × ℕ
at_depth depth node = (node, depth)

-- The loop of `_iter_nodes` over its queue, with the number of nodes that it may still yield
unfoldable pub walk : ℕ → List (Fields × ℕ) → List Fields
walk zero queue = []
walk (suc left) [] = []
walk (suc left) ((node, depth) ∷ queue) =
    node
    ∷ walk left (
        queue
        ++ map (at_depth (depth + 1)) (if leb max_walk_depth depth then [] else children node))

-- `_iter_nodes`
unfoldable pub iter_nodes : Fields → List Fields
iter_nodes root = walk max_walk_nodes ((root, 0) ∷ [])
