-- ===== src/Sorting.antt =====
-- Python's `sorted`, a stable sort by `<` alone.
use mathlib.Core.List.{Perm}
use mathlib.Core.List.Perm
use symphony_python.Prelude.{
  ◌≡◌, refl, inl, inr, Bool, true, false, not, ◌&&◌, List, [], ◌∷◌, arith, keep, All, Bool-cases,
  if◌then◌else◌,
}

-- What `<` has to satisfy: a strict weak order.
pub record StrictOrder {ℓ} {A : Type ℓ} (lt : A → A → Bool) : Type ℓ where
  pub asym : (a b : A) → lt a b ≡ true → lt b a ≡ false
  pub le_trans : (a b c : A) → lt b a ≡ false → lt c b ≡ false → lt c a ≡ false

module _ {ℓ} {A : Type ℓ} (lt : A → A → Bool) where
  -- Before the first element that is not smaller.
  unfoldable pub insert : A → List A → List A
  insert x [] = x ∷ []
  insert x (y ∷ ys) = if lt y x then y ∷ insert x ys else x ∷ y ∷ ys

  unfoldable pub sorted : List A → List A
  unfolding insert
  sorted [] = []
  sorted (x ∷ xs) = insert x (sorted xs)

  -- No element is smaller than one before it.
  abbrev pub IsSorted : List A → Type 0
  IsSorted [] = Unit
  IsSorted (x ∷ xs) = All (λ y. lt y x ≡ false) xs × IsSorted xs

  -- Neither is smaller than the other.
  abbrev pub same : A → A → Bool
  same a b = not (lt a b) && not (lt b a)

  insert-perm : (x : A) (xs : List A) → Perm (insert x xs) (x ∷ xs)
  unfolding insert
  insert-perm x [] = Perm.refl (x ∷ [])
  insert-perm x (y ∷ ys) = elim (Bool-cases (lt y x)) [
    | inl e ↦ rw e (Perm.trans (Perm.cons y (insert-perm x ys)) (Perm.swap x y ys))
    | inr e ↦ rw e (Perm.refl (x ∷ y ∷ ys))
  ]

  pub sorted-perm : (xs : List A) → Perm (sorted xs) xs
  unfolding sorted
  sorted-perm [] = Perm.refl []
  sorted-perm (x ∷ xs) = Perm.trans (insert-perm x (sorted xs)) (Perm.cons x (sorted-perm xs))

  module _ (order : StrictOrder lt) where
    All-le :
        (x y : A) (ys : List A)
        → lt y x ≡ false
        → All (λ z. lt z y ≡ false) ys
        → All (λ z. lt z x ≡ false) ys
    All-le x y [] h a = tt
    All-le x y (z ∷ zs) h a = (order.le_trans x y z h a.0, All-le x y zs h a.1)

    All-insert :
        (z x : A) (xs : List A)
        → lt x z ≡ false
        → All (λ y. lt y z ≡ false) xs
        → All (λ y. lt y z ≡ false) (insert x xs)
    unfolding insert
    All-insert z x [] h a = (h, tt)
    All-insert z x (y ∷ ys) h a = elim (Bool-cases (lt y x)) [
      | inl e ↦ rw e (a.0, All-insert z x ys h a.1)
      | inr e ↦ rw e (h, a)
    ]

    insert-IsSorted : (x : A) (xs : List A) → IsSorted xs → IsSorted (insert x xs)
    unfolding insert
    insert-IsSorted x [] s = (tt, tt)
    insert-IsSorted x (y ∷ ys) s = elim (Bool-cases (lt y x)) [
      | inl e ↦ rw e (All-insert y x ys (order.asym y x e) s.0, insert-IsSorted x ys s.1)
      | inr e ↦ rw e ((e, All-le x y ys e s.0), s)
    ]

    pub sorted-IsSorted : (xs : List A) → IsSorted (sorted xs)
    unfolding sorted
    sorted-IsSorted [] = tt
    sorted-IsSorted (x ∷ xs) = insert-IsSorted x (sorted xs) (sorted-IsSorted xs)

    -- Of two elements in strict order at most one is level with `k`.
    same_of_lt : (k x y : A) → lt y x ≡ true → same k x && same k y ≡ false
    same_of_lt k x y e = ground (arith, order.le_trans x k y)

    keep-insert : (k x : A) (xs : List A) → keep (same k) (insert x xs) ≡ keep (same k) (x ∷ xs)
    unfolding insert keep
    keep-insert k x [] = refl
    keep-insert k x (y ∷ ys) = elim (Bool-cases (lt y x)) [
      | inl e ↦ rw (e, keep-insert k x ys) (ground (arith, same_of_lt k x y e))
      | inr e ↦ rw e
    ]

    -- Elements that are level with one another keep their order.
    pub sorted-stable : (k : A) (xs : List A) → keep (same k) (sorted xs) ≡ keep (same k) xs
    unfolding sorted keep
    sorted-stable k [] = refl
    sorted-stable k (x ∷ xs) = rw (keep-insert k x (sorted xs)) (rw (sorted-stable k xs))
