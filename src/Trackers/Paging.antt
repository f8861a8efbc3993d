-- ===== src/Trackers/Paging.antt =====
-- Pages and batches of trackers/memory.py hold the whole list, whatever their size.
use symphony_python.Prelude.{
  ℕ, zero, suc, ◌≤◌, ◌≡◌, refl, ap, ◌∙◌, List, [], ◌∷◌, ◌++◌, length, arith,
}
use symphony_python.Trackers.Reads.{take, drop, slices, at_least_one, paginate}

module _ {ℓ} {A : Type ℓ} where
  abbrev pub joined : List (List A) → List A
  joined [] = []
  joined (xs ∷ xss) = xs ++ joined xss

  take-drop : (n : ℕ) (xs : List A) → take n xs ++ drop n xs ≡ xs
  unfolding take drop
  take-drop zero xs = refl
  take-drop (suc n) [] = refl
  take-drop (suc n) (x ∷ xs) = ap (λ ys. x ∷ ys) (take-drop n xs)

  length-drop-le : (n : ℕ) (xs : List A) → length (drop n xs) ≤ length xs
  unfolding drop
  length-drop-le zero xs = omega arith
  length-drop-le (suc n) [] = omega arith
  length-drop-le (suc n) (x ∷ xs) = omega (arith, length-drop-le n xs)

  drop-◌∷◌ : (n : ℕ) (x : A) (xs : List A) → length (drop (suc n) (x ∷ xs)) ≤ length xs
  unfolding drop
  drop-◌∷◌ n x xs = length-drop-le n xs

  joined-slices :
      (fuel size : ℕ) (xs : List A) → length xs ≤ fuel → joined (slices fuel (suc size) xs) ≡ xs
  unfolding slices
  joined-slices zero size [] h = refl
  joined-slices zero size (x ∷ xs) h = ground arith
  joined-slices (suc fuel) size [] h = refl
  joined-slices (suc fuel) size (x ∷ xs) h =
      rw (joined-slices fuel size (drop (suc size) (x ∷ xs)) (omega (arith, drop-◌∷◌ size x xs)))
        (take-drop (suc size) (x ∷ xs))

  joined-at_least_one : (xss : List (List A)) → joined (at_least_one xss) ≡ joined xss
  joined-at_least_one [] = refl
  joined-at_least_one (xs ∷ xss) = refl

  -- Pages and batches hold the list they are made from.
  pub joined-paginate : (size : ℕ) (xs : List A) → joined (paginate size xs) ≡ xs
  unfolding paginate slices
  joined-paginate zero [] = joined-slices 0 0 [] (omega arith)
  joined-paginate zero (x ∷ xs) =
      joined-at_least_one (slices (length (x ∷ xs)) (suc (length xs)) (x ∷ xs))
      ∙ joined-slices (length (x ∷ xs)) (length xs) (x ∷ xs) (omega arith)
  joined-paginate (suc size) xs =
      joined-at_least_one (slices (length xs) (suc size) xs)
      ∙ joined-slices (length xs) size xs (omega arith)
