-- ===== src/Workspace/Manager.antt =====
-- workspace/manager.py: the operations on a disk. What the hooks do to the disk, and which system
-- calls fail, are arguments.
use symphony_python.Prelude.{
  Bool, true, false, not, ◌&&◌, Option, none, some, [], ◌∷◌, ◌++◌, length, if◌then◌else◌,
}
use symphony_python.Text.{Text}
use symphony_python.Models.Key.{workspace_key}
use symphony_python.Workspace.Safety.{
  FilePath, Platform, normalize_abs, assert_within_root, parts_eq, take,
}

-- What is at a path: `lstat` tells a directory from a link to one, and `is_dir` does not.
pub data Node : Type 0 where
  directory directory_link other_kind : Node

abbrev pub Disk : Type 0
Disk = FilePath → Option Node

-- What the operations meet: the platform, the hash of the keys, the hooks (`none` is a failure),
-- and the system calls that raise. A removal that raises has removed what does not survive it.
pub record Host : Type 0 where
  pub platform : Platform
  pub digest : Text → Text
  pub after_create : Disk → Disk × Bool
  pub before_remove : Disk → Disk
  pub root_fails : Bool
  pub mkdir_fails : FilePath → Bool
  pub lstat_fails : FilePath → Bool
  pub rmtree_fails : FilePath → Bool
  pub survives : FilePath → Bool

-- `some` of the value that a method returns; `none` is an exception.
abbrev pub Outcome {ℓ} : Type ℓ → Type ℓ
Outcome A = Disk × Option A

-- Is this path the directory or below it?
unfoldable pub at_or_below : FilePath → FilePath → Bool
at_or_below path q = parts_eq (take (length path) q) path

abbrev pub write : FilePath → Option Node → Disk → Disk
write path node disk q = if parts_eq q path then node else disk q

-- `shutil.rmtree`
unfoldable pub rmtree : Host → FilePath → Disk → Disk
rmtree host path disk q =
    if at_or_below path q && not (host.rmtree_fails path && host.survives q) then none else disk q

abbrev pub joined : FilePath → Option Text → Option FilePath
joined root none = none
joined root (some key) = some (root ++ key ∷ [])

abbrev pub checked : Host → FilePath → Option FilePath → Option FilePath
checked host root none = none
checked host root (some path) = assert_within_root host.platform path root

-- `path_for`, with the root as the manager stores it
unfoldable pub path_for : Host → FilePath → Text → Option FilePath
path_for host root identifier =
    checked host root (joined root (workspace_key host.digest identifier))

-- `_remove_tree`, and then the return of `cleanup`
unfoldable pub remove_tree : Host → FilePath → FilePath → Disk → Outcome Bool
remove_tree host root path disk = elim (assert_within_root host.platform path root) [
  | none ↦ (disk, none)
  | some p ↦ (rmtree host path disk, if host.rmtree_fails path then none else some true)
]

-- `cleanup` behind `lstat`
unfoldable pub cleanup_found : Host → FilePath → FilePath → Disk → Option Node → Outcome Bool
cleanup_found host root path disk none = (disk, some false)
cleanup_found host root path disk (some other_kind) = (disk, none)
cleanup_found host root path disk (some directory_link) = (disk, none)
cleanup_found host root path disk (some directory) =
    remove_tree host root path (host.before_remove disk)

-- `cleanup` for a path that was derived
unfoldable pub cleanup_path : Host → FilePath → FilePath → Disk → Outcome Bool
cleanup_path host root path disk =
    if host.lstat_fails path then (disk, none) else cleanup_found host root path disk (disk path)

-- `cleanup`
unfoldable pub cleanup : Host → FilePath → Text → Disk → Outcome Bool
cleanup host root identifier disk = elim (path_for host root identifier) [
  | none ↦ (disk, none)
  | some path ↦ cleanup_path host root path disk
]

-- `apply_root`: the stored root, and whether it moved
unfoldable pub apply_root : Host → FilePath → FilePath → FilePath × Bool
apply_root host stored root =
    let new_root = normalize_abs host.platform root in
    if parts_eq new_root stored then (stored, false) else (new_root, true)
