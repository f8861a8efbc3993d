-- ===== src/Remote/Pool.antt =====
-- A host of ssh/worker.py is selected only while it has room, so its counter stays within the cap.
use symphony_python.Prelude.{
  ℕ, ◌≤◌, ◌≡◌, ◌⊎◌, refl, sym, ap, subst, ◌∙◌, inl, inr, Bool, true, false, Option, none, some,
  List, [], ◌∷◌, All, keep, ltb, or_else, Bool-cases, arith, if◌then◌else◌,
}
use symphony_python.Text.{Text, text_eq, text_eq_iff, text_eq_refl}
use symphony_python.Dict.{member}
use symphony_python.Remote.Paths.{normalize_remote_path, remote_workspace_path}
use symphony_python.Remote.Hosts.{
  HostState, HostPool, has_capacity, find_host, lesser, least_loaded, with_room, preferred, select,
  change_host, with_states, Acquired, taken, released, reserve, if_enabled, try_acquire,
  HostAssignment, release, mark_unreachable, mark_reachable,
}

-- The spec of no later host is that of an earlier one.
abbrev pub AreDistinct : List HostState → Type 0
AreDistinct [] = Unit
AreDistinct (s ∷ states) =
    All (λ other. text_eq other.spec s.spec ≡ false) states × AreDistinct states

-- The counter of a host is within the cap.
abbrev pub IsWithin : Option ℕ → HostState → Type 0
IsWithin none s = Unit
IsWithin (some cap) s = s.in_use ≤ cap

abbrev pub IsSound : HostPool → Type 0
IsSound pool =
    AreDistinct pool.states × All (IsWithin pool.max_concurrent_agents_per_host) pool.states

abbrev Has : HostState → List HostState → Type 0
Has s [] = ⊥
Has s (x ∷ states) = (x ≡ s) ⊎ Has s states

some_injective {ℓ} : {A : Type ℓ} {a b : A} → some a ≡ some b → a ≡ b
some_injective h = cc

lesser-either :
    (x : HostState) (o : Option HostState) (s : HostState)
    → lesser x o ≡ some s
    → (x ≡ s) ⊎ (o ≡ some s)
lesser-either x none s h = inl (some_injective h)
lesser-either x (some other) s h = elim (Bool-cases (ltb other.in_use x.in_use)) [
  | inl e ↦ inr (subst (λ b. some (if b then other else x) ≡ some s) e h)
  | inr e ↦ inl (some_injective (subst (λ b. some (if b then other else x) ≡ some s) e h))
]

least_loaded-Has :
    (s : HostState) (states : List HostState) → least_loaded states ≡ some s → Has s states
unfolding least_loaded
least_loaded-Has s [] h = ground arith
least_loaded-Has s (x ∷ states) h = elim (lesser-either x (least_loaded states) s h) [
  | inl same ↦ inl same
  | inr later ↦ inr (least_loaded-Has s states later)
]

keep-Has :
    (p : HostState → Bool) (s : HostState) (states : List HostState)
    → Has s (keep p states)
    → Has s states × (p s ≡ true)
unfolding keep
keep-Has p s [] h = elim h [ ]
keep-Has p s (x ∷ states) h = elim (Bool-cases (p x)) [
  | inl e ↦ elim (subst (λ b. Has s (if b then x ∷ keep p states else keep p states)) e h) [
    | inl same ↦ (inl same, subst (λ y. p y ≡ true) same e)
    | inr later ↦ let (kept, ok) = keep-Has p s states later in (inr kept, ok)
  ]
  | inr e ↦
      let (kept, ok) =
        keep-Has p s states
          (subst (λ b. Has s (if b then x ∷ keep p states else keep p states)) e h) in
      (inr kept, ok)
]

All-Has :
    (P : HostState → Type 0) (s : HostState) (states : List HostState)
    → All P states
    → Has s states
    → P s
All-Has P s [] all h = elim h [ ]
All-Has P s (x ∷ states) (here, rest) h = elim h [
  | inl same ↦ subst P same here
  | inr later ↦ All-Has P s states rest later
]

text_eq_sym : (a b : Text) → text_eq a b ≡ text_eq b a
text_eq_sym a b = ground (arith, text_eq_iff a b, text_eq_iff b a)

find_host-Has :
    (s : HostState) (states : List HostState)
    → AreDistinct states
    → Has s states
    → find_host s.spec states ≡ some s
unfolding find_host
find_host-Has s [] d h = elim h [ ]
find_host-Has s (x ∷ states) (d, ds) h = elim h [
  | inl same ↦ rw (same, text_eq_refl s.spec) refl
  | inr later ↦
      rw
        (
          text_eq_sym x.spec s.spec,
          All-Has (λ other. text_eq other.spec x.spec ≡ false) s states d later,
        )
        (find_host-Has s states ds later)
]

find_host_named :
    (spec : Text) (states : List HostState) (s : HostState)
    → find_host spec states ≡ some s
    → s.spec ≡ spec
unfolding find_host
find_host_named spec [] s h = ground arith
find_host_named spec (x ∷ states) s h = elim (Bool-cases (text_eq x.spec spec)) [
  | inl e ↦
      ap (λ y. y.spec)
        (sym (
          some_injective (subst (λ b. (if b then some x else find_host spec states) ≡ some s) e h)))
      ∙ (text_eq_iff x.spec spec).0 e
  | inr e ↦
      find_host_named spec states s
        (subst (λ b. (if b then some x else find_host spec states) ≡ some s) e h)
]

change_host-All :
    (P : HostState → Type 0) (spec : Text) (f : HostState → HostState) (states : List HostState)
    → ((s : HostState) → find_host spec states ≡ some s → P s → P (f s))
    → All P states
    → All P (change_host spec f states)
unfolding change_host find_host
change_host-All P spec f [] ok h = tt
change_host-All P spec f (x ∷ states) ok (h, hs) = elim (Bool-cases (text_eq x.spec spec)) [
  | inl e ↦ rw e (ok x (rw e refl) h, hs)
  | inr e ↦ rw e (h, change_host-All P spec f states (λ s found. ok s (rw e found)) hs)
]

change_host-AreDistinct :
    (spec : Text) (f : HostState → HostState) (states : List HostState)
    → ((s : HostState) → (f s).spec ≡ s.spec)
    → AreDistinct states
    → AreDistinct (change_host spec f states)
unfolding change_host
change_host-AreDistinct spec f [] same d = tt
change_host-AreDistinct spec f (x ∷ states) same (d, ds) = elim (Bool-cases (text_eq x.spec spec)) [
  | inl e ↦ rw (e, same x) (d, ds)
  | inr e ↦ rw e (
    change_host-All (λ other. text_eq other.spec x.spec ≡ false) spec f states
        (λ s found apart. rw (same s) apart) d,
    change_host-AreDistinct spec f states same ds,
  )
]

with_room-inv :
    (cap : Option ℕ) (o : Option HostState) (s : HostState)
    → with_room cap o ≡ some s
    → (o ≡ some s) × (has_capacity cap s ≡ true)
with_room-inv cap none s h = ground arith
with_room-inv cap (some t) s h = elim (Bool-cases (has_capacity cap t)) [
  | inl e ↦
      let same : t ≡ s = some_injective (subst (λ b. (if b then some t else none) ≡ some s) e h) in
      (ap some same, subst (λ u. has_capacity cap u ≡ true) same e)
  | inr e ↦ ground arith
]

or_else-inv {ℓ} :
    {A : Type ℓ} (a b : Option A) (s : A) → or_else a b ≡ some s → (a ≡ some s) ⊎ (b ≡ some s)
or_else-inv none b s h = inr h
or_else-inv (some x) b s h = inl h

unchanged :
    (cap : Option ℕ) (s t : HostState) → IsWithin cap s → t.in_use ≡ s.in_use → IsWithin cap t
unchanged none s t h e = tt
unchanged (some cap) s t h e = rw e h

-- A host that is selected is the one of its spec, and has room.
abbrev pub HasRoom : HostPool → HostState → Type 0
HasRoom pool s =
    (find_host s.spec pool.states ≡ some s)
    × (has_capacity pool.max_concurrent_agents_per_host s ≡ true)

preferred-HasRoom :
    (prefer : Option Text) (pool : HostPool) (s : HostState)
    → preferred pool.max_concurrent_agents_per_host prefer pool.states ≡ some s
    → HasRoom pool s
preferred-HasRoom none pool s h = ground arith
preferred-HasRoom (some spec) pool s h =
    let (found, room) =
      with_room-inv pool.max_concurrent_agents_per_host (find_host spec pool.states) s h in
    (
      subst (λ k. find_host k pool.states ≡ some s) (sym (find_host_named spec pool.states s found))
          found,
      room,
    )

pub select-HasRoom :
    (prefer : Option Text) (pool : HostPool) (s : HostState)
    → AreDistinct pool.states
    → select prefer pool ≡ some s
    → HasRoom pool s
unfolding select
select-HasRoom prefer pool s distinct h =
    let cap = pool.max_concurrent_agents_per_host in
    let free = keep (has_capacity cap) pool.states in
    elim (or_else-inv (preferred cap prefer pool.states) (least_loaded free) s h) [
      | inl found ↦ preferred-HasRoom prefer pool s found
      | inr found ↦
          let (member, room) =
            keep-Has (has_capacity cap) s pool.states (least_loaded-Has s free found) in
          (find_host-Has s pool.states distinct member, room)
    ]

taken-IsWithin :
    (cap : Option ℕ) (s : HostState) → has_capacity cap s ≡ true → IsWithin cap (taken s)
unfolding has_capacity
taken-IsWithin none s h = tt
taken-IsWithin (some cap) s h = ground arith

released-IsWithin : (cap : Option ℕ) (s : HostState) → IsWithin cap s → IsWithin cap (released s)
released-IsWithin none s h = tt
released-IsWithin (some cap) s h = omega (arith, h)

change_host-IsSound :
    (spec : Text) (f : HostState → HostState) (pool : HostPool)
    → ((s : HostState) → (f s).spec ≡ s.spec)
    → ((s : HostState)
        → find_host spec pool.states ≡ some s
        → IsWithin pool.max_concurrent_agents_per_host s
        → IsWithin pool.max_concurrent_agents_per_host (f s))
    → IsSound pool
    → IsSound (with_states pool (change_host spec f pool.states))
change_host-IsSound spec f pool same ok (distinct, within) = (
  change_host-AreDistinct spec f pool.states same distinct,
  change_host-All (IsWithin pool.max_concurrent_agents_per_host) spec f pool.states ok within,
)

reserve-IsSound :
    (issue : Text) (pool : HostPool) (s : Option HostState) (root path : Option (List Text))
    → IsSound pool
    → ((t : HostState) → s ≡ some t → HasRoom pool t)
    → IsSound (reserve issue pool s root path).0
reserve-IsSound issue pool none root path sound room = sound
reserve-IsSound issue pool (some s) none path sound room = sound
reserve-IsSound issue pool (some s) (some root) none sound room = sound
reserve-IsSound issue pool (some s) (some root) (some path) sound room =
    let (found, free) = room s refl in
    change_host-IsSound s.spec taken pool (λ t. refl)
      (λ t at_spec h. taken-IsWithin pool.max_concurrent_agents_per_host t (
        subst (λ u. has_capacity pool.max_concurrent_agents_per_host u ≡ true)
          (some_injective (sym found ∙ at_spec)) free))
      sound

if_enabled-IsSound :
    (states : List HostState) (pool : HostPool) (result : HostPool × Acquired)
    → IsSound pool
    → IsSound result.0
    → IsSound (if_enabled states pool result).0
if_enabled-IsSound [] pool result sound after = sound
if_enabled-IsSound (s ∷ states) pool result sound after = after

pub try_acquire-IsSound :
    (digest : Text → Text) (issue root : Text) (prefer : Option Text) (pool : HostPool)
    → IsSound pool
    → IsSound (try_acquire digest issue root prefer pool).0
unfolding try_acquire
try_acquire-IsSound digest issue root prefer pool sound =
    if_enabled-IsSound pool.states pool
      (reserve issue pool (select prefer pool) (normalize_remote_path root)
        (remote_workspace_path digest root issue))
      sound
      (reserve-IsSound issue pool (select prefer pool) (normalize_remote_path root)
        (remote_workspace_path digest root issue) sound (λ t. select-HasRoom prefer pool t sound.0))

pub release-IsSound :
    (assignment : HostAssignment) (pool : HostPool)
    → IsSound pool
    → IsSound (release assignment pool)
unfolding release
release-IsSound assignment pool sound =
    change_host-IsSound assignment.host released pool (λ s. refl)
      (λ s found h. released-IsWithin pool.max_concurrent_agents_per_host s h) sound

pub mark_unreachable-IsSound :
    (spec : Text) (error : Option Text) (pool : HostPool)
    → IsSound pool
    → IsSound (mark_unreachable spec error pool)
unfolding mark_unreachable
mark_unreachable-IsSound spec error pool sound =
    change_host-IsSound spec _ pool (λ s. refl)
      (λ s found h. unchanged pool.max_concurrent_agents_per_host s _ h refl) sound

pub mark_reachable-IsSound :
    (spec : Text) (pool : HostPool) → IsSound pool → IsSound (mark_reachable spec pool)
unfolding mark_reachable
mark_reachable-IsSound spec pool sound =
    change_host-IsSound spec _ pool (λ s. refl)
      (λ s found h. unchanged pool.max_concurrent_agents_per_host s _ h refl) sound
