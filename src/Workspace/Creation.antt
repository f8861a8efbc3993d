-- ===== src/Workspace/Creation.antt =====
-- `create_for_issue` of workspace/manager.py.
use symphony_python.Prelude.{Bool, true, false, ◌&&◌, Option, none, some, if◌then◌else◌}
use symphony_python.Text.{Text}
use symphony_python.Models.Key.{workspace_key}
use symphony_python.Workspace.Safety.{FilePath, assert_within_root}
use symphony_python.Workspace.Manager.{
  Node, directory, directory_link, other_kind, Disk, Host, Outcome, at_or_below, write, rmtree,
  path_for,
}

-- `Workspace`, of models.py
pub record Workspace : Type 0 where
  pub path : FilePath
  pub workspace_key : Text
  pub created_now : Bool

abbrev absent : Option Node → Bool
absent none = true
absent (some node) = false

-- `root.mkdir(parents=True, exist_ok=True)` where it does not raise
unfoldable pub make_root : FilePath → Disk → Disk
make_root root disk q = if at_or_below q root && absent (disk q) then some directory else disk q

-- How `_ensure_directory` ends: created, found, or with an exception
pub data Ensured : Type 0 where
  created found failed : Ensured

-- `path.mkdir()`, and what is there if it is not new
unfoldable pub make_directory : FilePath → Disk → Option Node → Disk × Ensured
make_directory path disk none = (write path (some directory) disk, created)
make_directory path disk (some other_kind) = (disk, failed)
make_directory path disk (some directory_link) = (disk, found)
make_directory path disk (some directory) = (disk, found)

-- `_ensure_directory`
unfoldable pub ensure_directory : Host → FilePath → FilePath → Disk → Disk × Ensured
ensure_directory host root path disk =
    let rooted = make_root root disk in
    if host.root_fails
    then (disk, failed)
    else if host.mkdir_fails path
    then (rooted, failed)
    else make_directory path rooted (rooted path)

-- `_discard_new_directory`
unfoldable pub discard_new_directory : Host → FilePath → FilePath → Disk → Disk
discard_new_directory host root path disk = elim (assert_within_root host.platform path root) [
  | none ↦ disk
  | some p ↦ rmtree host path disk
]

-- What follows the hook `after_create`
unfoldable pub after_hook : Host → FilePath → FilePath → Text → Disk × Bool → Outcome Workspace
after_hook host root path key (disk, true) =
    (disk, some (record { path = path; workspace_key = key; created_now = true }))
after_hook host root path key (disk, false) = (discard_new_directory host root path disk, none)

unfoldable pub after_ensure : Host → FilePath → FilePath → Text → Disk × Ensured → Outcome Workspace
after_ensure host root path key (disk, failed) = (disk, none)
after_ensure host root path key (disk, found) =
    (disk, some (record { path = path; workspace_key = key; created_now = false }))
after_ensure host root path key (disk, created) =
    after_hook host root path key (host.after_create disk)

unfoldable pub create_at :
    Host → FilePath → Disk → Option Text → Option FilePath → Outcome Workspace
create_at host root disk (some key) (some path) =
    after_ensure host root path key (ensure_directory host root path disk)
create_at host root disk _ _ = (disk, none)

-- `create_for_issue`
unfoldable pub create_for_issue : Host → FilePath → Text → Disk → Outcome Workspace
create_for_issue host root identifier disk =
    create_at host root disk (workspace_key host.digest identifier) (path_for host root identifier)
