-- ===== src/Remote/Runs.antt =====
-- No host of a pool in ssh/worker.py has more runs than the cap, over a history of a pool.
use symphony_python.Prelude.{
  ℕ, zero, suc, ◌≤◌, ◌-◌, ◌≡◌, refl, sym, ap, subst, ◌∙◌, inl, inr, Option, none, some, List, [],
  ◌∷◌, All, Bool-cases, arith, if◌then◌else◌,
}
use symphony_python.Text.{Text, text_eq, text_eq_iff}
use symphony_python.Dict.{TextSet, member}
use symphony_python.Remote.Paths.{normalize_remote_path, remote_workspace_path}
use symphony_python.Remote.Hosts.{
  HostState, HostPool, HostAssignment, Acquired, make_pool, states_from, find_host, change_host,
  with_states, select, taken, released, reserve, if_enabled, try_acquire, release, mark_unreachable,
  mark_reachable, PoolEvent, PoolRuns, handed_out, assignment_at, without, given_back, after_event,
  after_events, runs_on,
}
use symphony_python.Remote.Pool.{
  IsWithin, IsSound, HasRoom, select-HasRoom, try_acquire-IsSound, release-IsSound,
  mark_unreachable-IsSound, mark_reachable-IsSound,
}
use symphony_python.Remote.Capacity.{
  used, changed, find_host-change_host, cap_is, make_pool-IsSound,
}

-- The counter of every host is the number of the runs that hold it.
abbrev IsAccounted : HostPool → List HostAssignment → Type 0
IsAccounted pool held = (k : Text) → runs_on k held ≡ used (find_host k pool.states)

abbrev IsCounted : PoolRuns → Type 0
IsCounted r = IsAccounted r.pool r.held

-- A change that leaves the counters alone
kept-used :
    (f : HostState → HostState) (o : Option HostState)
    → ((s : HostState) → (f s).in_use ≡ s.in_use)
    → used (changed f o) ≡ used o
kept-used f none same = refl
kept-used f (some s) same = same s

kept-IsAccounted :
    (spec : Text) (f : HostState → HostState) (pool : HostPool) (held : List HostAssignment)
    → ((s : HostState) → (f s).spec ≡ s.spec)
    → ((s : HostState) → (f s).in_use ≡ s.in_use)
    → IsAccounted pool held
    → IsAccounted (with_states pool (change_host spec f pool.states)) held
kept-IsAccounted spec f pool held named same h k =
    rw (find_host-change_host k spec f pool.states named) (elim (Bool-cases (text_eq spec k)) [
      | inl e ↦ rw e (h k ∙ sym (kept-used f (find_host k pool.states) same))
      | inr e ↦ rw e (h k)
    ])

used-released : (o : Option HostState) → used (changed released o) ≡ used o - 1
used-released none = refl
used-released (some s) = refl

runs_on-without :
    (k : Text) (n : ℕ) (held : List HostAssignment) (a : HostAssignment)
    → assignment_at n held ≡ some a
    → runs_on k held
      ≡ (if text_eq a.host k then suc (runs_on k (without n held)) else runs_on k (without n held))
unfolding assignment_at runs_on without
runs_on-without k n [] a h = ground arith
runs_on-without k zero (x ∷ held) a h = let same : x ≡ a = cc in rw (ap (λ y. y.host) same) refl
runs_on-without k (suc n) (x ∷ held) a h = ground (arith, runs_on-without k n held a h)

release-IsAccounted :
    (n : ℕ) (a : HostAssignment) (pool : HostPool) (held : List HostAssignment)
    → assignment_at n held ≡ some a
    → IsAccounted pool held
    → IsAccounted (release a pool) (without n held)
unfolding release
release-IsAccounted n a pool held at_n h k =
    let counted = sym (h k) ∙ runs_on-without k n held a at_n in
    rw (find_host-change_host k a.host released pool.states (λ s. refl))
      (elim (Bool-cases (text_eq a.host k)) [
        | inl e ↦
            let one_more : used (find_host k pool.states) ≡ suc (runs_on k (without n held)) =
              counted ∙ rw e refl in
            rw (e, used-released (find_host k pool.states)) (omega (arith, one_more))
        | inr e ↦ rw e (sym (counted ∙ rw e refl))
      ])

taken-IsAccounted :
    (a : HostAssignment) (s : HostState) (pool : HostPool) (held : List HostAssignment)
    → a.host ≡ s.spec
    → find_host s.spec pool.states ≡ some s
    → IsAccounted pool held
    → IsAccounted (with_states pool (change_host s.spec taken pool.states)) (a ∷ held)
unfolding runs_on
taken-IsAccounted a s pool held named found h k =
    rw (find_host-change_host k s.spec taken pool.states (λ t. refl), named)
      (elim (Bool-cases (text_eq s.spec k)) [
        | inl e ↦
            let at_k : find_host k pool.states ≡ some s =
              subst (λ t. find_host t pool.states ≡ some s) ((text_eq_iff s.spec k).0 e) found in
            rw (e, h k, at_k) refl
        | inr e ↦ rw e (h k)
      ])

reserve-IsCounted :
    (issue : Text) (pool : HostPool) (held : List HostAssignment) (states : List HostState)
    (s : Option HostState) (root path : Option (List Text))
    → ((t : HostState) → s ≡ some t → HasRoom pool t)
    → IsAccounted pool held
    → IsCounted (handed_out held (if_enabled states pool (reserve issue pool s root path)))
reserve-IsCounted issue pool held [] s root path room h = h
reserve-IsCounted issue pool held (x ∷ states) none root path room h = h
reserve-IsCounted issue pool held (x ∷ states) (some s) none path room h = h
reserve-IsCounted issue pool held (x ∷ states) (some s) (some root) none room h = h
reserve-IsCounted issue pool held (x ∷ states) (some s) (some root) (some path) room h =
    taken-IsAccounted _ s pool held refl (room s refl).0 h

-- The pool of a result, with its cap
abbrev cap_of : PoolRuns → Option ℕ
cap_of r = r.pool.max_concurrent_agents_per_host

reserve-cap :
    (issue : Text) (pool : HostPool) (held : List HostAssignment) (states : List HostState)
    (s : Option HostState) (root path : Option (List Text))
    → cap_of (handed_out held (if_enabled states pool (reserve issue pool s root path)))
      ≡ pool.max_concurrent_agents_per_host
reserve-cap issue pool held [] s root path = refl
reserve-cap issue pool held (x ∷ states) none root path = refl
reserve-cap issue pool held (x ∷ states) (some s) none path = refl
reserve-cap issue pool held (x ∷ states) (some s) (some root) none = refl
reserve-cap issue pool held (x ∷ states) (some s) (some root) (some path) = refl

pool-handed_out :
    (held : List HostAssignment) (result : HostPool × Acquired)
    → (handed_out held result).pool ≡ result.0
pool-handed_out held (pool, Acquired.assigned a) = refl
pool-handed_out held (pool, Acquired.no_hosts) = refl
pool-handed_out held (pool, Acquired.saturated) = refl
pool-handed_out held (pool, Acquired.path_escapes) = refl

-- What every event keeps
record Inv (cap : Option ℕ) (r : PoolRuns) : Type 0 where
  capped : cap_of r ≡ cap
  sound : IsSound r.pool
  counted : IsCounted r

given_back-Inv :
    (cap : Option ℕ) (n : ℕ) (o : Option HostAssignment) (r : PoolRuns)
    → assignment_at n r.held ≡ o
    → Inv cap r
    → Inv cap (given_back n o r)
given_back-Inv cap n none r at_n inv = inv
given_back-Inv cap n (some a) r at_n inv = record {
  capped = unfold release in inv.capped;
  sound = release-IsSound a r.pool inv.sound;
  counted = release-IsAccounted n a r.pool r.held at_n inv.counted;
}

after_event-Inv :
    (digest : Text → Text) (cap : Option ℕ) (r : PoolRuns) (e : PoolEvent)
    → Inv cap r
    → Inv cap (after_event digest r e)
unfolding after_event
after_event-Inv digest cap r (PoolEvent.acquires issue root prefer) inv =
    let pool = r.pool in
    let s = select prefer pool in
    let at = normalize_remote_path root in
    let path = remote_workspace_path digest root issue in
    record {
      capped =
          unfold try_acquire in (reserve-cap issue pool r.held pool.states s at path ∙ inv.capped);
      sound =
          subst IsSound (sym (pool-handed_out r.held (try_acquire digest issue root prefer pool)))
            (try_acquire-IsSound digest issue root prefer pool inv.sound);
      counted =
          unfold try_acquire in
          (reserve-IsCounted issue pool r.held pool.states s at path
            (λ t. select-HasRoom prefer pool t inv.sound.0) inv.counted);
    }
after_event-Inv digest cap r (PoolEvent.releases n) inv =
    given_back-Inv cap n (assignment_at n r.held) r refl inv
after_event-Inv digest cap r (PoolEvent.loses spec error) inv = record {
  capped = unfold mark_unreachable in inv.capped;
  sound = mark_unreachable-IsSound spec error r.pool inv.sound;
  counted =
      unfold mark_unreachable in
      (kept-IsAccounted spec _ r.pool r.held (λ s. refl) (λ s. refl) inv.counted);
}
after_event-Inv digest cap r (PoolEvent.regains spec) inv = record {
  capped = unfold mark_reachable in inv.capped;
  sound = mark_reachable-IsSound spec r.pool inv.sound;
  counted =
      unfold mark_reachable in
      (kept-IsAccounted spec _ r.pool r.held (λ s. refl) (λ s. refl) inv.counted);
}

after_events-Inv :
    (digest : Text → Text) (cap : Option ℕ) (events : List PoolEvent) (r : PoolRuns)
    → Inv cap r
    → Inv cap (after_events digest r events)
unfolding after_events
after_events-Inv digest cap [] r inv = inv
after_events-Inv digest cap (e ∷ events) r inv =
    after_events-Inv digest cap events (after_event digest r e) (after_event-Inv digest cap r e inv)

unused :
    (k : Text) (specs : List Text) (seen : TextSet)
    → 0 ≡ used (find_host k (states_from specs seen))
unfolding states_from find_host
unused k [] seen = refl
unused k (spec ∷ specs) seen = elim (Bool-cases (member spec seen)) [
  | inl e ↦ rw e (unused k specs seen)
  | inr e ↦ rw e (elim (Bool-cases (text_eq spec k)) [
    | inl d ↦ rw d refl
    | inr d ↦ rw d (unused k specs (spec ∷ seen))
  ])
]

within-used :
    (cap : ℕ) (k : Text) (states : List HostState)
    → All (IsWithin (some cap)) states
    → used (find_host k states) ≤ cap
unfolding find_host
within-used cap k [] h = omega arith
within-used cap k (x ∷ states) (h, hs) = elim (Bool-cases (text_eq x.spec k)) [
  | inl e ↦ rw e h
  | inr e ↦ rw e (within-used cap k states hs)
]

-- A pool that no run has asked yet
abbrev pub opened : List Text → ℕ → PoolRuns
opened specs n = record { pool = make_pool specs (some (suc n)); held = [] }

opened-Inv : (specs : List Text) (n : ℕ) → Inv (some (suc n)) (opened specs n)
unfolding make_pool runs_on
opened-Inv specs n = record {
  capped = cap_is n;
  sound = unfold make_pool in make_pool-IsSound specs n;
  counted = λ k. unused k specs [];
}

-- Whatever a pool with a cap goes through (runs that acquire hosts, with or without a preferred
-- host, and give back the hosts that they hold, and hosts that are lost and come back), the number
-- of runs that hold a host is never more than the cap, and is what the counter of the host says.
pub after_events-within :
    (digest : Text → Text) (specs : List Text) (n : ℕ) (events : List PoolEvent) (spec : Text)
    → let r = after_events digest (opened specs n) events in
      (runs_on spec r.held ≤ suc n)
      × ((s : HostState) → find_host spec r.pool.states ≡ some s → s.in_use ≡ runs_on spec r.held)
after_events-within digest specs n events spec =
    let r = after_events digest (opened specs n) events in
    let inv = after_events-Inv digest (some (suc n)) events (opened specs n) (opened-Inv specs n) in
    (
      rw (inv.counted spec) (
          within-used (suc n) spec r.pool.states
            (subst (λ cap. All (IsWithin cap) r.pool.states) inv.capped inv.sound.1)),
      λ s found. sym (inv.counted spec ∙ ap used found),
    )
