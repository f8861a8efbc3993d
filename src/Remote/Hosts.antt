-- ===== src/Remote/Hosts.antt =====
-- `HostPool` of ssh/worker.py, between two awaits. A host is its spec, and the clock is left out.
use symphony_python.Prelude.{
  ℕ, zero, suc, ◌-◌, Bool, true, false, not, Option, none, some, List, [], ◌∷◌, keep, ltb, or_else,
  if◌then◌else◌,
}
use symphony_python.Text.{Text, text_eq}
use symphony_python.Dict.{TextSet, member}
use symphony_python.Remote.Paths.{normalize_remote_path, remote_workspace_path}

-- `_HostState`
pub record HostState : Type 0 where
  pub spec : Text
  pub in_use : ℕ
  pub reachable : Bool
  pub last_error : Option Text

pub record HostPool : Type 0 where
  pub states : List HostState
  pub max_concurrent_agents_per_host : Option ℕ

abbrev pub fresh : Text → HostState
fresh spec = record { spec = spec; in_use = 0; reachable = true; last_error = none }

-- The loop of `__init__` over the hosts, which skips a spec that it has seen
unfoldable pub states_from : List Text → TextSet → List HostState
states_from [] seen = []
states_from (spec ∷ specs) seen =
    let repeated = states_from specs seen in
    let more = states_from specs (spec ∷ seen) in
    if member spec seen then repeated else fresh spec ∷ more

abbrev pub positive_cap : Option ℕ → Option ℕ
positive_cap none = none
positive_cap (some n) = if ltb 0 n then some n else none

-- `__init__`
unfoldable pub make_pool : List Text → Option ℕ → HostPool
make_pool specs cap = record {
  states = states_from specs [];
  max_concurrent_agents_per_host = positive_cap cap;
}

abbrev pub below_cap : Option ℕ → ℕ → Bool
below_cap none n = true
below_cap (some cap) n = ltb n cap

-- `has_capacity`
unfoldable pub has_capacity : Option ℕ → HostState → Bool
has_capacity cap state = if not state.reachable then false else below_cap cap state.in_use

unfoldable pub find_host : Text → List HostState → Option HostState
find_host spec [] = none
find_host spec (state ∷ states) =
    if text_eq state.spec spec then some state else find_host spec states

abbrev pub lesser : HostState → Option HostState → Option HostState
lesser state none = some state
lesser state (some other) = some (if ltb other.in_use state.in_use then other else state)

-- `min(candidates, key=lambda s: s.in_use)`: the first of the least
unfoldable pub least_loaded : List HostState → Option HostState
least_loaded [] = none
least_loaded (state ∷ states) = lesser state (least_loaded states)

abbrev pub with_room : Option ℕ → Option HostState → Option HostState
with_room cap none = none
with_room cap (some state) = if has_capacity cap state then some state else none

abbrev pub preferred : Option ℕ → Option Text → List HostState → Option HostState
preferred cap none states = none
preferred cap (some spec) states = with_room cap (find_host spec states)

-- `select`
unfoldable pub select : Option Text → HostPool → Option HostState
select prefer pool =
    or_else (preferred pool.max_concurrent_agents_per_host prefer pool.states)
      (least_loaded (keep (has_capacity pool.max_concurrent_agents_per_host) pool.states))

-- The state of the host with this spec is changed.
unfoldable pub change_host : Text → (HostState → HostState) → List HostState → List HostState
change_host spec f [] = []
change_host spec f (state ∷ states) =
    let later = change_host spec f states in
    if text_eq state.spec spec then f state ∷ states else state ∷ later

abbrev pub with_states : HostPool → List HostState → HostPool
with_states pool states = record pool { states = states }

pub record HostAssignment : Type 0 where
  pub host : Text
  pub issue_identifier : Text
  pub workspace_path : List Text
  pub remote_root : List Text

pub data Acquired : Type 0 where
  no_hosts : Acquired
  saturated : Acquired
  path_escapes : Acquired
  assigned : HostAssignment → Acquired

abbrev pub taken : HostState → HostState
taken state = record state { in_use = suc state.in_use }

abbrev pub reserve :
    Text
    → HostPool
    → Option HostState
    → Option (List Text)
    → Option (List Text)
    → HostPool × Acquired
reserve issue_identifier pool none root path = (pool, Acquired.saturated)
reserve issue_identifier pool (some state) (some root) (some path) = (
  with_states pool (change_host state.spec taken pool.states),
  Acquired.assigned (record {
    host = state.spec;
    issue_identifier = issue_identifier;
    workspace_path = path;
    remote_root = root;
  }),
)
reserve issue_identifier pool (some state) none path = (pool, Acquired.path_escapes)
reserve issue_identifier pool (some state) (some root) none = (pool, Acquired.path_escapes)

abbrev pub if_enabled : List HostState → HostPool → HostPool × Acquired → HostPool × Acquired
if_enabled [] pool result = (pool, Acquired.no_hosts)
if_enabled (s ∷ states) pool result = result

-- `try_acquire` without a given workspace path; `digest` is the hash of workspace keys
unfoldable pub try_acquire :
    (Text → Text) → Text → Text → Option Text → HostPool → HostPool × Acquired
try_acquire digest issue_identifier remote_root prefer pool = if_enabled pool.states pool (
    reserve issue_identifier pool (select prefer pool) (normalize_remote_path remote_root)
      (remote_workspace_path digest remote_root issue_identifier))

abbrev pub released : HostState → HostState
released state = record state { in_use = state.in_use - 1 }

-- `release`
unfoldable pub release : HostAssignment → HostPool → HostPool
release assignment pool = with_states pool (change_host assignment.host released pool.states)

-- `mark_unreachable`; a host that is not a member is an error, and nothing changes.
unfoldable pub mark_unreachable : Text → Option Text → HostPool → HostPool
mark_unreachable spec error pool =
    with_states pool (
      change_host spec (λ state. record state { reachable = false; last_error = error })
        pool.states)

-- `mark_reachable`
unfoldable pub mark_reachable : Text → HostPool → HostPool
mark_reachable spec pool =
    with_states pool
      (change_host spec (λ state. record state { reachable = true; last_error = none }) pool.states)

-- What can happen to a pool between two awaits of a worker: a run asks for a host, the run that
-- holds the assignment at a position gives it back, or a host is lost or comes back.
pub data PoolEvent : Type 0 where
  acquires : Text → Text → Option Text → PoolEvent
  releases : ℕ → PoolEvent
  loses : Text → Option Text → PoolEvent
  regains : Text → PoolEvent

-- A pool with the assignments that runs hold
pub record PoolRuns : Type 0 where
  pub pool : HostPool
  pub held : List HostAssignment

abbrev pub handed_out : List HostAssignment → HostPool × Acquired → PoolRuns
handed_out held (pool, Acquired.assigned a) = record { pool = pool; held = a ∷ held }
handed_out held (pool, other) = record { pool = pool; held = held }

unfoldable pub assignment_at : ℕ → List HostAssignment → Option HostAssignment
assignment_at n [] = none
assignment_at zero (a ∷ held) = some a
assignment_at (suc n) (a ∷ held) = assignment_at n held

unfoldable pub without : ℕ → List HostAssignment → List HostAssignment
without n [] = []
without zero (a ∷ held) = held
without (suc n) (a ∷ held) = a ∷ without n held

abbrev pub given_back : ℕ → Option HostAssignment → PoolRuns → PoolRuns
given_back n none r = r
given_back n (some a) r = record { pool = release a r.pool; held = without n r.held }

unfoldable pub after_event : (Text → Text) → PoolRuns → PoolEvent → PoolRuns
after_event digest r (PoolEvent.acquires issue root prefer) =
    handed_out r.held (try_acquire digest issue root prefer r.pool)
after_event digest r (PoolEvent.releases n) = given_back n (assignment_at n r.held) r
after_event digest r (PoolEvent.loses spec error) = record r {
  pool = mark_unreachable spec error r.pool;
}
after_event digest r (PoolEvent.regains spec) = record r { pool = mark_reachable spec r.pool }

unfoldable pub after_events : (Text → Text) → PoolRuns → List PoolEvent → PoolRuns
after_events digest r [] = r
after_events digest r (e ∷ events) = after_events digest (after_event digest r e) events

-- The number of runs that hold the host with this spec
unfoldable pub runs_on : Text → List HostAssignment → ℕ
runs_on spec [] = 0
runs_on spec (a ∷ held) =
    let rest = runs_on spec held in if text_eq a.host spec then suc rest else rest
