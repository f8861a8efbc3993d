-- ===== src/Workspace/Containment.antt =====
-- What the containment check lets through.
use symphony_python.Prelude.{
  ◌≡◌, refl, sym, ap, ◌∙◌, ◌↔◌, inl, inr, Bool, true, false, not, ◌||◌, none, some, [], ◌∷◌, ◌++◌,
  arith, length, length-append, leb, Bool-cases, if_true, if_false,
}
use symphony_python.Text.{Text, text_eq_refl, text_eq_iff}
use symphony_python.Workspace.Safety.{
  FilePath, Platform, parts_eq, take, normalize_abs, components, assert_within_root,
}

-- A path that continues another one by at least one part
abbrev pub IsInside : FilePath → FilePath → Type 0
IsInside target prefix = (name : Text) × (rest : FilePath) × (target ≡ prefix ++ name ∷ rest)

pub parts_eq_sound : (ps qs : FilePath) → parts_eq ps qs ≡ true → ps ≡ qs
unfolding parts_eq
parts_eq_sound [] [] h = refl
parts_eq_sound [] (q ∷ qs) h = ground arith
parts_eq_sound (p ∷ ps) [] h = ground arith
parts_eq_sound (p ∷ ps) (q ∷ qs) h = ground (arith, parts_eq_sound ps qs, text_eq_iff p q)

pub parts_eq_refl : (ps : FilePath) → parts_eq ps ps ≡ true
unfolding parts_eq
parts_eq_refl [] = refl
parts_eq_refl (p ∷ ps) = ground (arith, parts_eq_refl ps, text_eq_refl p)

abbrev pub tail : FilePath → FilePath
tail [] = []
tail (p ∷ ps) = ps

abbrev pub head : FilePath → Text
head [] = []
head (p ∷ ps) = p

longer-IsInside :
    (prefix target : FilePath)
    → leb (length target) (length prefix) ≡ false
    → take (length prefix) target ≡ prefix
    → IsInside target prefix
longer-IsInside [] [] l e = ground arith
longer-IsInside [] (x ∷ t) l e = (x, t, refl)
longer-IsInside (p ∷ ps) [] l e = ground arith
longer-IsInside (p ∷ ps) (x ∷ t) l e =
    let (name, rest, same) = longer-IsInside ps t (ground arith) (ap tail e) in
    (name, rest, cc (same, ap head e))

parts_longer :
    (prefix : FilePath) (name : Text) (rest : FilePath)
    → leb (length (prefix ++ name ∷ rest)) (length prefix) ≡ false
parts_longer prefix name rest = ground (arith, length-append prefix (name ∷ rest))

take-append : (prefix rest : FilePath) → take (length prefix) (prefix ++ rest) ≡ prefix
take-append [] rest = refl
take-append (p ∷ ps) rest = ap (λ r. p ∷ r) (take-append ps rest)

test_parts : (a b : Bool) → a || not b ≡ false → (a ≡ false) × (b ≡ true)
test_parts a b h = ground arith

test_both : (a b : Bool) → a ≡ false → b ≡ true → a || not b ≡ false
test_both a b g h = ground arith

-- The test of `assert_within_root` on parts
outside : FilePath → FilePath → Bool
outside target prefix =
    leb (length target) (length prefix) || not (parts_eq (take (length prefix) target) prefix)

outside-IsInside :
    (target prefix : FilePath) → (outside target prefix ≡ false) ↔ IsInside target prefix
unfolding outside
outside-IsInside target prefix = (forward, backward)
  where
    forward : outside target prefix ≡ false → IsInside target prefix
    forward h =
        let (longer, same) =
          test_parts (leb (length target) (length prefix))
            (parts_eq (take (length prefix) target) prefix) h in
        longer-IsInside prefix target longer (parts_eq_sound _ _ same)

    backward : IsInside target prefix → outside target prefix ≡ false
    backward (name, rest, same) = rw same (
        test_both (leb (length (prefix ++ name ∷ rest)) (length prefix))
          (parts_eq (take (length prefix) (prefix ++ name ∷ rest)) prefix)
          (parts_longer prefix name rest) (rw take-append (parts_eq_refl prefix)))

module _ (platform : Platform) where
  -- The containment check succeeds exactly for a path whose resolved parts continue those of the
  -- resolved root by at least one, compared as the platform compares parts, and returns that
  -- resolved path.
  pub assert_within_root_iff :
      (path root p : FilePath)
      → (assert_within_root platform path root ≡ some p) ↔ (
          (p ≡ platform.resolve path)
          × IsInside
              (components platform (platform.resolve path))
              (components platform (platform.resolve root)))
  unfolding assert_within_root normalize_abs outside
  assert_within_root_iff path root p = (forward, backward)
    where
      target : FilePath
      target = components platform (platform.resolve path)

      prefix : FilePath
      prefix = components platform (platform.resolve root)

      forward :
          assert_within_root platform path root ≡ some p
          → (p ≡ platform.resolve path) × IsInside target prefix
      forward h = elim (Bool-cases (outside target prefix)) [
        | inl e ↦
            let found : none ≡ some p =
              sym (if_true (outside target prefix) none (some (platform.resolve path)) e) ∙ h in
            absurd (cc found)
        | inr e ↦
            let found : some (platform.resolve path) ≡ some p =
              sym (if_false (outside target prefix) none (some (platform.resolve path)) e) ∙ h in
            (cc found, (outside-IsInside target prefix).0 e)
      ]

      backward :
          (p ≡ platform.resolve path) × IsInside target prefix
          → assert_within_root platform path root ≡ some p
      backward (same, i) =
          if_false _ _ _ ((outside-IsInside target prefix).1 i) ∙ ap some (sym same)
