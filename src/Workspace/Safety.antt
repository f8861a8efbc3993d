-- ===== src/Workspace/Safety.antt =====
-- workspace/safety.py. A path is the tuple of its parts. What `Path.resolve` and `os.path.normcase`
-- make of it depends on the file system and the platform: both are arguments.
use symphony_python.Prelude.{
  ℕ, zero, suc, Bool, true, false, not, ◌&&◌, ◌||◌, Option, none, some, List, [], ◌∷◌, map, length,
  leb, if◌then◌else◌,
}
use symphony_python.Text.{Text, text_eq}

abbrev pub FilePath : Type 0
FilePath = List Text

-- `==` on tuples of parts
unfoldable pub parts_eq : FilePath → FilePath → Bool
parts_eq [] [] = true
parts_eq [] (q ∷ qs) = false
parts_eq (p ∷ ps) [] = false
parts_eq (p ∷ ps) (q ∷ qs) = text_eq p q && parts_eq ps qs

-- `target[:n]`
abbrev pub take {ℓ} : {A : Type ℓ} → ℕ → List A → List A
take zero xs = []
take (suc n) [] = []
take (suc n) (x ∷ xs) = x ∷ take n xs

-- The platform: `Path.resolve` and `os.path.normcase`
pub record Platform : Type 0 where
  pub resolve : FilePath → FilePath
  pub normcase : Text → Text

unfoldable pub normalize_abs : Platform → FilePath → FilePath
normalize_abs platform path = platform.resolve path

unfoldable pub components : Platform → FilePath → FilePath
components platform path = map platform.normcase path

-- `none` is `WorkspacePathEscapesRoot`.
unfoldable pub assert_within_root : Platform → FilePath → FilePath → Option FilePath
assert_within_root platform path root =
    let resolved = normalize_abs platform path in
    let target = components platform resolved in
    let prefix = components platform (normalize_abs platform root) in
    if leb (length target) (length prefix) || not (parts_eq (take (length prefix) target) prefix)
    then none
    else some resolved

-- False is `InvalidWorkspaceCwd`.
unfoldable pub assert_launch_cwd : Platform → FilePath → FilePath → Bool
assert_launch_cwd platform cwd workspace_path =
    parts_eq (components platform (normalize_abs platform cwd))
      (components platform (normalize_abs platform workspace_path))
