-- ===== src/Workspace/Removal.antt =====
-- What `cleanup` can remove.
use symphony_python.Prelude.{
  ◌≡◌, refl, sym, ap, ◌∙◌, ◌⊎◌, inl, inr, Bool, true, false, not, ◌&&◌, Option, none, some, [], ◌∷◌,
  ◌++◌, map, arith, length, Bool-cases, Option-cases, if_false,
}
use mathlib.Core.List.{append_assoc}
use symphony_python.Text.{Text}
use symphony_python.Models.Key.{workspace_key}
use symphony_python.Workspace.Safety.{FilePath, take, components, assert_within_root}
use symphony_python.Workspace.Manager.{
  Node, directory, directory_link, other_kind, Disk, Host, at_or_below, rmtree, joined, checked,
  path_for, remove_tree, cleanup_found, cleanup_path, cleanup,
}
use symphony_python.Workspace.Containment.{
  IsInside, head, tail, parts_eq_sound, assert_within_root_iff,
}

below_split :
    (path q : FilePath) → take (length path) q ≡ path → (rest : FilePath) × (q ≡ path ++ rest)
below_split [] q e = (q, refl)
below_split (p ∷ ps) [] e = cc
below_split (p ∷ ps) (x ∷ q) e =
    let (rest, same) = below_split ps q (ap tail e) in (rest, cc (same, ap head e))

map-append : (f : Text → Text) (s t : FilePath) → map f (s ++ t) ≡ map f s ++ map f t
map-append f [] t = refl
map-append f (c ∷ s) t = ap (λ r. f c ∷ r) (map-append f s t)

not_true : (b : Bool) → ¬ (b ≡ true) → b ≡ false
not_true true h = absurd (h refl)
not_true false h = refl

blocked : (a b : Bool) → a ≡ false → a && b ≡ false
blocked a b h = ground arith

module _ (host : Host) (root : FilePath) where
  -- Inside of the resolved root, as the platform compares parts
  InRoot : FilePath → Type 0
  InRoot q =
      IsInside (components host.platform q) (components host.platform (host.platform.resolve root))

  path_for-InRoot :
      (identifier : Text) (path : FilePath)
      → path_for host root identifier ≡ some path
      → InRoot path
  unfolding path_for InRoot
  path_for-InRoot identifier path h = elim (Option-cases (workspace_key host.digest identifier)) [
    | inl e ↦
        let found : none ≡ some path = sym (ap (λ k. checked host root (joined root k)) e) ∙ h in
        absurd (cc found)
    | inr (key, e) ↦
        let found : assert_within_root host.platform (root ++ key ∷ []) root ≡ some path =
          sym (ap (λ k. checked host root (joined root k)) e) ∙ h in
        let (same, inside) =
          (assert_within_root_iff host.platform (root ++ key ∷ []) root path).0 found in
        rw same inside
  ]

  InRoot-below : (path q : FilePath) → InRoot path → at_or_below path q ≡ true → InRoot q
  unfolding InRoot at_or_below components
  InRoot-below path q (name, rest, same) below =
      let (more, split) = below_split path q (parts_eq_sound _ _ below) in
      (
        name,
        rest ++ map host.platform.normcase more,
        ap (map host.platform.normcase) split
            ∙ map-append host.platform.normcase path more
            ∙ ap (λ s. s ++ map host.platform.normcase more) same
            ∙ append_assoc (map host.platform.normcase (host.platform.resolve root)) (name ∷ rest)
                _,
      )

  rmtree-outside :
      (path q : FilePath) (disk : Disk)
      → at_or_below path q ≡ false
      → rmtree host path disk q ≡ disk q
  unfolding rmtree
  rmtree-outside path q disk e =
      if_false _ _ _
        (blocked (at_or_below path q) (not (host.rmtree_fails path && host.survives q)) e)

  -- As the disk was before the operation, or as the hook left it
  abbrev pub Kept : FilePath → Disk → Disk → Type 0
  Kept q disk after = (after q ≡ disk q) ⊎ (after q ≡ host.before_remove disk q)

  Kept-remove_tree :
      (path q : FilePath) (disk : Disk)
      → at_or_below path q ≡ false
      → Kept q disk (remove_tree host root path (host.before_remove disk)).0
  unfolding remove_tree
  Kept-remove_tree path q disk n =
      elim (Option-cases (assert_within_root host.platform path root)) [
        | inl e ↦ rw (e, remove_tree) (inr refl)
        | inr (p, e) ↦ rw (e, remove_tree) (inr (rmtree-outside path q (host.before_remove disk) n))
      ]

  Kept-cleanup_found :
      (path q : FilePath) (disk : Disk) (node : Option Node)
      → at_or_below path q ≡ false
      → Kept q disk (cleanup_found host root path disk node).0
  unfolding cleanup_found
  Kept-cleanup_found path q disk none n = inl refl
  Kept-cleanup_found path q disk (some other_kind) n = inl refl
  Kept-cleanup_found path q disk (some directory_link) n = inl refl
  Kept-cleanup_found path q disk (some directory) n = Kept-remove_tree path q disk n

  Kept-cleanup_path :
      (path q : FilePath) (disk : Disk)
      → at_or_below path q ≡ false
      → Kept q disk (cleanup_path host root path disk).0
  unfolding cleanup_path
  Kept-cleanup_path path q disk n = elim (Bool-cases (host.lstat_fails path)) [
    | inl e ↦ rw e (inl refl)
    | inr e ↦ rw e (Kept-cleanup_found path q disk (disk path) n)
  ]

  -- Whatever the identifier, `cleanup` itself changes nothing outside of the resolved root: a path
  -- that is not strictly inside of it stays as it was, or as the `before_remove` hook left it.
  pub Kept-cleanup :
      (identifier : Text) (q : FilePath) (disk : Disk)
      → ¬ IsInside
          (components host.platform q)
          (components host.platform (host.platform.resolve root))
      → Kept q disk (cleanup host root identifier disk).0
  unfolding cleanup InRoot
  Kept-cleanup identifier q disk away = elim (Option-cases (path_for host root identifier)) [
    | inl e ↦ rw (e, cleanup) (inl refl)
    | inr (path, e) ↦
        let elsewhere : at_or_below path q ≡ false =
          not_true _
            (λ below. away (InRoot-below path q (path_for-InRoot identifier path e) below)) in
        rw (e, cleanup) (Kept-cleanup_path path q disk elsewhere)
  ]
