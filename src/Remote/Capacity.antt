-- ===== src/Remote/Capacity.antt =====
-- The hosts of a new pool in ssh/worker.py, and the look-up of a host behind a change of one.
use symphony_python.Prelude.{
  ℕ, suc, ◌≡◌, refl, sym, ap, inl, inr, true, false, Option, none, some, List, [], ◌∷◌, All,
  Bool-cases, arith, if◌then◌else◌,
}
use symphony_python.Text.{Text, text_eq, text_eq_iff, text_eq_refl}
use symphony_python.Dict.{TextSet, member}
use symphony_python.Remote.Hosts.{
  HostState, states_from, make_pool, find_host, change_host, fresh, positive_cap,
}
use symphony_python.Remote.Pool.{AreDistinct, IsWithin, IsSound}

states_from-All :
    (P : HostState → Type 0)
    → ((spec : Text) → P (fresh spec))
    → (specs : List Text) (seen : TextSet) → All P (states_from specs seen)
unfolding states_from
states_from-All P ok [] seen = tt
states_from-All P ok (spec ∷ specs) seen = elim (Bool-cases (member spec seen)) [
  | inl e ↦ rw e (states_from-All P ok specs seen)
  | inr e ↦ rw e (ok spec, states_from-All P ok specs (spec ∷ seen))
]

apart :
    (k spec : Text) (seen : TextSet)
    → member k seen ≡ false
    → member spec seen ≡ true
    → text_eq k spec ≡ false
apart k spec seen h hs = ground (arith, text_eq_iff k spec)

seen_later :
    (k spec : Text) (seen : TextSet) → member spec seen ≡ true → member spec (k ∷ seen) ≡ true
unfolding member
seen_later k spec seen h = ground arith

states_from-apart :
    (spec : Text) (specs : List Text) (seen : TextSet)
    → member spec seen ≡ true
    → All (λ other. text_eq other.spec spec ≡ false) (states_from specs seen)
unfolding states_from
states_from-apart spec [] seen h = tt
states_from-apart spec (k ∷ specs) seen h = elim (Bool-cases (member k seen)) [
  | inl e ↦ rw e (states_from-apart spec specs seen h)
  | inr e ↦
      rw e
        (apart k spec seen e h, states_from-apart spec specs (k ∷ seen) (seen_later k spec seen h))
]

seen_now : (spec : Text) (seen : TextSet) → member spec (spec ∷ seen) ≡ true
unfolding member
seen_now spec seen = rw (text_eq_refl spec) refl

states_from-AreDistinct :
    (specs : List Text) (seen : TextSet) → AreDistinct (states_from specs seen)
unfolding states_from
states_from-AreDistinct [] seen = tt
states_from-AreDistinct (spec ∷ specs) seen = elim (Bool-cases (member spec seen)) [
  | inl e ↦ rw e (states_from-AreDistinct specs seen)
  | inr e ↦ rw e (
    states_from-apart spec specs (spec ∷ seen) (seen_now spec seen),
    states_from-AreDistinct specs (spec ∷ seen),
  )
]

-- The counter of a host that may be missing
abbrev pub used : Option HostState → ℕ
used none = 0
used (some s) = s.in_use

abbrev pub changed : (HostState → HostState) → Option HostState → Option HostState
changed f none = none
changed f (some s) = some (f s)

pub find_host-change_host :
    (k spec : Text) (f : HostState → HostState) (states : List HostState)
    → ((s : HostState) → (f s).spec ≡ s.spec)
    → find_host k (change_host spec f states)
      ≡ (if text_eq spec k then changed f (find_host k states) else find_host k states)
unfolding find_host change_host
find_host-change_host k spec f [] same = ground arith
find_host-change_host k spec f (x ∷ states) same = elim (Bool-cases (text_eq x.spec spec)) [
  | inl e ↦
      let at : text_eq spec k ≡ text_eq x.spec k =
        ap (λ t. text_eq t k) (sym ((text_eq_iff x.spec spec).0 e)) in
      simp e (simp (same x, at) (ground arith))
  | inr e ↦
      rw (e, find_host-change_host k spec f states same)
        (ground (arith, text_eq_iff x.spec spec, text_eq_iff spec k, text_eq_iff x.spec k))
]

pub cap_is : (n : ℕ) → positive_cap (some (suc n)) ≡ some (suc n)
cap_is n = ground arith

fresh-IsWithin : (n : ℕ) (spec : Text) → IsWithin (positive_cap (some (suc n))) (fresh spec)
fresh-IsWithin n spec = rw (cap_is n) (omega arith)

pub make_pool-IsSound : (specs : List Text) (n : ℕ) → IsSound (make_pool specs (some (suc n)))
unfolding make_pool
make_pool-IsSound specs n = (
  states_from-AreDistinct specs [],
  states_from-All (IsWithin (positive_cap (some (suc n)))) (λ spec. fresh-IsWithin n spec) specs [],
)
