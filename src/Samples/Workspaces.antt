-- ===== src/Samples/Workspaces.antt =====
-- Tests of the workspace paths, on a platform that resolves a final `.` and keeps case.
use symphony_python.Prelude.{
  ◌≡◌, ◌↔◌, refl, ap, true, false, none, some, [], ◌∷◌, arith, length, if◌then◌else◌,
}
use symphony_python.Text.{codes, text_eq, lower, rstrip_by}
use symphony_python.Models.Key.{workspace_key, sanitize, allowed, folds_ambiguously}
use symphony_python.Workspace.Safety.{
  FilePath, Platform, components, assert_within_root, normalize_abs, parts_eq,
}
use symphony_python.Workspace.Manager.{
  Disk, Host, directory, cleanup, cleanup_path, cleanup_found, remove_tree, path_for, at_or_below,
}
use symphony_python.Workspace.Creation.{make_root, create_for_issue}
use symphony_python.Workspace.Created.{Untouched, reuses, create_for_issue-Untouched}
use symphony_python.Workspace.Containment.{IsInside, assert_within_root_iff}
use symphony_python.Workspace.Removal.{Kept, Kept-cleanup}

abbrev drop_dots : FilePath → FilePath
drop_dots [] = []
drop_dots (p ∷ ps) = let rest = drop_dots ps in if text_eq p (codes ".") then rest else p ∷ rest

abbrev platform : Platform
platform = record { resolve = drop_dots; normcase = λ p. p }

abbrev root : FilePath
root = codes "w" ∷ []

abbrev host : Host
host = record {
  platform = platform;
  digest = λ s. codes "0123456789abcdef";
  after_create = λ d. (d, true);
  before_remove = λ d. d;
  root_fails = false;
  mkdir_fails = λ p. false;
  lstat_fails = λ p. false;
  rmtree_fails = λ p. false;
  survives = λ p. false;
}

abbrev all_directories : Disk
all_directories q = some directory

workspace_inside :
    assert_within_root platform (codes "w" ∷ codes "a" ∷ []) root
    ≡ some (codes "w" ∷ codes "a" ∷ [])
unfolding assert_within_root components normalize_abs parts_eq text_eq
workspace_inside = refl

-- The key `.` would be the root itself, and a sibling that continues its name is no part of it.
dot_escapes : assert_within_root platform (codes "w" ∷ codes "." ∷ []) root ≡ none
unfolding assert_within_root components normalize_abs parts_eq text_eq
dot_escapes = refl

sibling_escapes : assert_within_root platform (codes "wx" ∷ codes "a" ∷ []) root ≡ none
unfolding assert_within_root components normalize_abs parts_eq text_eq
sibling_escapes = refl

cleanup_removes : (cleanup host root (codes "a") all_directories).1 ≡ some true
unfolding cleanup cleanup_path cleanup_found remove_tree path_for assert_within_root components
    normalize_abs parts_eq text_eq workspace_key sanitize allowed folds_ambiguously lower rstrip_by
cleanup_removes = refl

assert_within_root_iff_example :
    (assert_within_root platform (codes "w" ∷ codes "a" ∷ []) root
      ≡ some (codes "w" ∷ codes "a" ∷ []))
    ↔ ((codes "w" ∷ codes "a" ∷ [] ≡ platform.resolve (codes "w" ∷ codes "a" ∷ []))
        × IsInside
            (components platform (platform.resolve (codes "w" ∷ codes "a" ∷ [])))
            (components platform (platform.resolve root)))
assert_within_root_iff_example =
    assert_within_root_iff platform (codes "w" ∷ codes "a" ∷ []) root (codes "w" ∷ codes "a" ∷ [])

etc_outside :
    ¬ IsInside
      (components platform (codes "etc" ∷ []))
      (components platform (platform.resolve root))
unfolding components text_eq
etc_outside (name, rest, same) = omega (arith, ap length same)

Kept-cleanup_example :
    Kept host root
      (codes "etc" ∷ [])
      all_directories
      (cleanup host root (codes "a") all_directories).0
Kept-cleanup_example =
    Kept-cleanup host root (codes "a") (codes "etc" ∷ []) all_directories etc_outside

path_of_a : path_for host root (codes "a") ≡ some (codes "w" ∷ codes "a" ∷ [])
unfolding path_for assert_within_root components normalize_abs parts_eq text_eq workspace_key
    sanitize allowed folds_ambiguously lower rstrip_by
path_of_a = refl

rooted : make_root root all_directories (codes "w" ∷ codes "a" ∷ []) ≡ some directory
unfolding make_root at_or_below parts_eq text_eq
rooted = refl

create_for_issue-Untouched_example :
    Untouched root all_directories (create_for_issue host root (codes "a") all_directories).0
    × (reuses (create_for_issue host root (codes "a") all_directories).1 ≡ true)
create_for_issue-Untouched_example =
    create_for_issue-Untouched host root (codes "a") (codes "w" ∷ codes "a" ∷ []) all_directories
      directory path_of_a rooted
