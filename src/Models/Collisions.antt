-- ===== src/Models/Collisions.antt =====
-- When two identifiers share a workspace, on a file system that folds case.
use symphony_python.Prelude.{
  ℕ, suc, ◌≡◌, refl, sym, ap, ◌∙◌, ◌⊎◌, inl, inr, Bool, true, false, not, ◌&&◌, some, [], ◌∷◌, ◌++◌,
  map, arith, length, length-append, Bool-cases, if_true, if_false,
}
use symphony_python.Text.{Text, text_eq, text_eq_iff, truthy, lower, codes}
use symphony_python.Models.Key.{allowed, sanitize, folds_ambiguously, workspace_key}

map-append : (f : ℕ → ℕ) (s t : Text) → map f (s ++ t) ≡ map f s ++ map f t
map-append f [] t = refl
map-append f (c ∷ s) t = ap (λ r. f c ∷ r) (map-append f s t)

sanitize_twice : (s : Text) → sanitize (sanitize s) ≡ sanitize s
unfolding sanitize allowed
sanitize_twice [] = refl
sanitize_twice (c ∷ s) = elim (Bool-cases (allowed c)) [
  | inl e ↦ rw (e, e) (ap (λ r. c ∷ r) (sanitize_twice s))
  | inr e ↦ rw (e) (ap (λ r. b'_' ∷ r) (sanitize_twice s))
]

abbrev tail : Text → Text
tail [] = []
tail (c ∷ s) = s

-- Equal concatenations with right parts of equal length have equal right parts.
suffix : (xs ys us vs : Text) → length us ≡ length vs → xs ++ us ≡ ys ++ vs → us ≡ vs
suffix [] [] us vs l e = e
suffix [] (y ∷ ys) us vs l e = absurd (omega (arith, ap length e, l, length-append ys vs))
suffix (x ∷ xs) [] us vs l e = absurd (omega (arith, ap length e, l, length-append xs us))
suffix (x ∷ xs) (y ∷ ys) us vs l e = suffix xs ys us vs l (ap tail e)

plain_lower : (k : Text) → folds_ambiguously k ≡ false → lower k ≡ k
unfolding folds_ambiguously
plain_lower k h = ground (arith, text_eq_iff k (lower k))

plain_parts : (p q : Bool) → p && not q ≡ true → (p ≡ true) × (q ≡ false)
plain_parts p q h = ground arith

both_parts : (p q : Bool) → p ≡ true → q ≡ false → p && not q ≡ true
both_parts p q g h = ground arith

plain_test :
    (a : Text)
    → text_eq (sanitize a) a && not (folds_ambiguously (sanitize a)) ≡ true
    → (sanitize a ≡ a) × (lower a ≡ a)
plain_test a h =
    let (p, q) = plain_parts (text_eq (sanitize a) a) (folds_ambiguously (sanitize a)) h in
    let same = (text_eq_iff (sanitize a) a).0 p in
    (same, plain_lower a (ap folds_ambiguously (sym same) ∙ q))

truthy-append : (s : Text) (c : ℕ) (t : Text) → truthy (s ++ c ∷ t) ≡ true
truthy-append [] c t = refl
truthy-append (d ∷ s) c t = refl

module _ (digest : Text → Text) where
  hashed : Text → Text
  hashed a = sanitize a ++ (codes "-" ++ digest a)

  key_cases :
      (a k : Text) → workspace_key digest a ≡ some k → ((k ≡ a) × (lower a ≡ a)) ⊎ (k ≡ hashed a)
  unfolding workspace_key hashed
  key_cases [] k h = cc
  key_cases (c ∷ s) k h =
      elim (Bool-cases
        (text_eq (sanitize (c ∷ s)) (c ∷ s) && not (folds_ambiguously (sanitize (c ∷ s))))) [
          | inl e ↦
              let (same, low) = plain_test (c ∷ s) e in
              let found : some (sanitize (c ∷ s)) ≡ some k = sym (if_true _ _ _ e) ∙ h in
              inl (cc (found, same), low)
          | inr e ↦
              let found : some (hashed (c ∷ s)) ≡ some k = sym (if_false _ _ _ e) ∙ h in
              inr (cc found)
        ]

  lower-hashed :
      (a : Text)
      → lower (digest a) ≡ digest a
      → lower (hashed a) ≡ lower (sanitize a) ++ b'-' ∷ digest a
  unfolding hashed lower
  lower-hashed a low =
      map-append _ (sanitize a) (b'-' ∷ digest a) ∙ ap (λ d. lower (sanitize a) ++ b'-' ∷ d) low

  sanitize-hashed : (a : Text) → sanitize (digest a) ≡ digest a → sanitize (hashed a) ≡ hashed a
  unfolding hashed sanitize
  sanitize-hashed a clean =
      map-append _ (sanitize a) (b'-' ∷ digest a)
      ∙ ap (λ s. s ++ b'-' ∷ sanitize (digest a)) (sanitize_twice a)
      ∙ ap (λ d. sanitize a ++ b'-' ∷ d) clean

  truthy-hashed : (a : Text) → truthy (hashed a) ≡ true
  unfolding hashed
  truthy-hashed a = truthy-append (sanitize a) b'-' (digest a)

  hashed-digest :
      (a b : Text)
      → length (digest a) ≡ length (digest b)
      → lower (digest a) ≡ digest a
      → lower (digest b) ≡ digest b
      → lower (hashed a) ≡ lower (hashed b)
      → digest a ≡ digest b
  hashed-digest a b size la lb e = ap tail (
      suffix (lower (sanitize a)) (lower (sanitize b)) (b'-' ∷ digest a) (b'-' ∷ digest b)
        (ap suc size) (sym (lower-hashed a la) ∙ e ∙ lower-hashed b lb))

  own_key :
      (k : Text)
      → truthy k ≡ true
      → sanitize k ≡ k
      → folds_ambiguously k ≡ false
      → workspace_key digest k ≡ some k
  unfolding workspace_key
  own_key [] t c f = cc
  own_key (x ∷ s) t c f =
      if_true _ _ _ (both_parts _ _ ((text_eq_iff _ _).1 c) (ap folds_ambiguously c ∙ f))
      ∙ ap some c

  -- Where the digest of every identifier is written in 16 characters that case folding leaves alone:
  -- if the keys of two identifiers differ at most in case, then the identifiers are equal, or their
  -- digests are, or one of them is its own key and is, up to case, the other's key.
  pub workspace_key-lower :
      (a b k l : Text)
      → ((s : Text) → length (digest s) ≡ 16)
      → ((s : Text) → lower (digest s) ≡ digest s)
      → workspace_key digest a ≡ some k
      → workspace_key digest b ≡ some l
      → lower k ≡ lower l
      → (a ≡ b) ⊎ (digest a ≡ digest b) ⊎ ((k ≡ a) × (a ≡ lower l)) ⊎ ((l ≡ b) × (b ≡ lower k))
  workspace_key-lower a b k l size low p q e = elim (key_cases a k p) [
    | inl (pa, la) ↦ elim (key_cases b l q) [
      | inl (qb, lb) ↦ inl (cc (pa, la, qb, lb, e))
      | inr qb ↦ inr (inr (inl (pa, cc (pa, la, e))))
    ]
    | inr pa ↦ elim (key_cases b l q) [
      | inl (qb, lb) ↦ inr (inr (inr (qb, cc (qb, lb, e))))
      | inr qb ↦ inr (
          inl (
            hashed-digest a b (size a ∙ sym (size b)) (low a) (low b)
              (ap lower (sym pa) ∙ e ∙ ap lower qb)))
    ]
  ]

  -- A key that does not fold ambiguously is its own key, if digests use the allowed characters: so an
  -- identifier that was given such a key shares its workspace with the identifier of that name.
  pub workspace_key-key :
      (a k : Text)
      → ((s : Text) → sanitize (digest s) ≡ digest s)
      → workspace_key digest a ≡ some k
      → folds_ambiguously k ≡ false
      → workspace_key digest k ≡ some k
  workspace_key-key a k clean p plain = elim (key_cases a k p) [
    | inl (pa, la) ↦ cc (p, pa)
    | inr pa ↦
        own_key k (ap truthy pa ∙ truthy-hashed a)
          (ap sanitize pa ∙ sanitize-hashed a (clean a) ∙ sym pa) plain
  ]
