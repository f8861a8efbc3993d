-- ===== src/Workspace/Created.antt =====
-- What `create_for_issue` leaves.
use symphony_python.Prelude.{
  ◌≡◌, refl, inl, inr, ◌⊎◌, Bool, true, false, not, Option, none, some, Bool-cases,
}
use symphony_python.Text.{Text}
use symphony_python.Models.Key.{workspace_key}
use symphony_python.Workspace.Safety.{FilePath}
use symphony_python.Workspace.Manager.{
  Node, directory, directory_link, other_kind, Disk, Host, path_for,
}
use symphony_python.Workspace.Creation.{
  Workspace, Ensured, created, found, failed, make_root, make_directory, ensure_directory,
  after_ensure, create_at, create_for_issue,
}

-- The disk before the operation, or with the root
abbrev pub Untouched : FilePath → Disk → Disk → Type 0
Untouched root disk after = (after ≡ disk) ⊎ (after ≡ make_root root disk)

-- No workspace that this call created
abbrev pub reuses : Option Workspace → Bool
reuses none = true
reuses (some workspace) = not workspace.created_now

was_there : Ensured → Bool
was_there created = false
was_there found = true
was_there failed = true

module _ (host : Host) (root : FilePath) where
  make-occupied :
      (path : FilePath) (disk : Disk) (node : Node)
      → ((make_directory path disk (some node)).0 ≡ disk)
        × (was_there (make_directory path disk (some node)).1 ≡ true)
  unfolding make_directory was_there
  make-occupied path disk directory = (refl, refl)
  make-occupied path disk directory_link = (refl, refl)
  make-occupied path disk other_kind = (refl, refl)

  ensure-occupied :
      (path : FilePath) (disk : Disk) (node : Node)
      → make_root root disk path ≡ some node
      → Untouched root disk (ensure_directory host root path disk).0
        × (was_there (ensure_directory host root path disk).1 ≡ true)
  unfolding ensure_directory was_there
  ensure-occupied path disk node there = elim (Bool-cases host.root_fails) [
    | inl e ↦ rw e (inl refl, refl)
    | inr e ↦ elim (Bool-cases (host.mkdir_fails path)) [
      | inl g ↦ rw (e, g) (inr refl, refl)
      | inr g ↦
          let made = make-occupied path (make_root root disk) node in
          rw (e, g, there) (inr made.0, made.1)
    ]
  ]

  after-occupied :
      (path : FilePath) (key : Text) (disk after : Disk) (end : Ensured)
      → Untouched root disk after
      → was_there end ≡ true
      → Untouched root disk (after_ensure host root path key (after, end)).0
        × (reuses (after_ensure host root path key (after, end)).1 ≡ true)
  unfolding after_ensure was_there
  after-occupied path key disk after created u t = cc t
  after-occupied path key disk after found u t = (u, refl)
  after-occupied path key disk after failed u t = (u, refl)

  at-occupied :
      (path : FilePath) (disk : Disk) (node : Node) (key : Option Text)
      → make_root root disk path ≡ some node
      → Untouched root disk (create_at host root disk key (some path)).0
        × (reuses (create_at host root disk key (some path)).1 ≡ true)
  unfolding create_at
  at-occupied path disk node none there = (inl refl, refl)
  at-occupied path disk node (some key) there =
      let ensured = ensure-occupied path disk node there in
      after-occupied path key disk _ _ ensured.0 ensured.1

  -- Where something is at the path of an identifier already, once the root is there,
  -- `create_for_issue` changes nothing on the disk but that it may make the root, and it never
  -- reports a workspace as new.
  pub create_for_issue-Untouched :
      (identifier : Text) (path : FilePath) (disk : Disk) (node : Node)
      → path_for host root identifier ≡ some path
      → make_root root disk path ≡ some node
      → Untouched root disk (create_for_issue host root identifier disk).0
        × (reuses (create_for_issue host root identifier disk).1 ≡ true)
  unfolding create_for_issue
  create_for_issue-Untouched identifier path disk node derived there =
      rw (derived) (at-occupied path disk node (workspace_key host.digest identifier) there)
