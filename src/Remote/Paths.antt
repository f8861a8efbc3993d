-- ===== src/Remote/Paths.antt =====
-- The remote paths of ssh/worker.py, with `PurePosixPath` of an absolute path as the list of its
-- components below the root, and the commands that are built for a path.
use symphony_python.Prelude.{
  Bool, true, false, not, ◌&&◌, Option, none, some, List, [], ◌∷◌, ◌++◌, any, ◌==◌, if◌then◌else◌,
}
use symphony_python.Text.{Text, codes, text_eq, truthy, strip, starts_with, contains}
use symphony_python.Dict.{member}
use symphony_python.Models.Key.{workspace_key}
use symphony_python.Remote.Quote.{is_unquotable, Token, build_remote_command}

-- `text.split("/")`: the first component, and the others
unfoldable pub split_slashes : Text → Text × List Text
split_slashes [] = ([], [])
split_slashes (c ∷ s) =
    let (part, rest) = split_slashes s in if c == b'/' then ([], part ∷ rest) else (c ∷ part, rest)

unfoldable pub named : List Text → List Text
named [] = []
named (part ∷ parts) =
    let rest = named parts in
    if truthy part && not (text_eq part (codes ".")) then part ∷ rest else rest

-- `PurePosixPath(text).parts` below the root
unfoldable pub components : Text → List Text
components text = let (part, rest) = split_slashes text in named (part ∷ rest)

-- `str` of an absolute path
unfoldable pub path_text : List Text → Text
path_text [] = codes "/"
path_text (part ∷ []) = b'/' ∷ part
path_text (part ∷ next ∷ parts) = b'/' ∷ part ++ path_text (next ∷ parts)

-- `normalize_remote_path`: `none` is the `RemoteWorkspacePathEscapesRoot`.
unfoldable pub normalize_remote_path : Text → Option (List Text)
normalize_remote_path text =
    if any is_unquotable text
    then none
    else if not (starts_with (codes "/") text)
    then none
    else if starts_with (codes "//") text && not (starts_with (codes "///") text)
    then none
    else if contains (codes "~") text
    then none
    else if contains (codes "$") text
    then none
    else if member (codes "..") (components text)
    then none
    else some (components text)

-- `len(tparts) > len(bparts) and tparts[: len(bparts)] == bparts`
unfoldable pub is_strictly_under : List Text → List Text → Bool
is_strictly_under [] [] = false
is_strictly_under [] (part ∷ target) = true
is_strictly_under (b ∷ base) [] = false
is_strictly_under (b ∷ base) (part ∷ target) = text_eq b part && is_strictly_under base target

abbrev pub contained : Option (List Text) → Option (List Text) → Option (List Text)
contained (some target) (some base) = if is_strictly_under base target then some target else none
contained _ _ = none

-- `assert_remote_within_root`
unfoldable pub assert_remote_within_root : Text → Text → Option (List Text)
assert_remote_within_root path root =
    contained (normalize_remote_path path) (normalize_remote_path root)

abbrev keyed : Text → Option Text → Option (List Text) → Option (List Text)
keyed root (some key) (some base) =
    assert_remote_within_root (path_text (base ++ components key)) root
keyed root _ _ = none

-- `remote_workspace_path`, with the hash of the key as a parameter
unfoldable pub remote_workspace_path : (Text → Text) → Text → Text → Option (List Text)
remote_workspace_path digest root identifier =
    keyed root (workspace_key digest identifier) (normalize_remote_path root)

abbrev pub on_path : (Text → Option Text) → Option (List Text) → Option Text
on_path f none = none
on_path f (some path) = f (path_text path)

abbrev launch_tokens : Text → Text → List Token
launch_tokens command path =
    Token.word (codes "cd")
    ∷ Token.word (codes "--")
    ∷ Token.word path
    ∷ Token.and_operator
    ∷ Token.word (codes "exec")
    ∷ Token.word (codes "bash")
    ∷ Token.word (codes "-lc")
    ∷ Token.word command
    ∷ []

-- `build_remote_launch_command`
unfoldable pub build_remote_launch_command : Text → Text → Option Text
build_remote_launch_command workspace command =
    on_path
      (λ path.
        if truthy (strip command) then build_remote_command (launch_tokens command path) else none)
      (normalize_remote_path workspace)

abbrev pub enter_tokens : Text → List Token → List Token
enter_tokens path rest =
    Token.word (codes "cd")
    ∷ Token.word (codes "--")
    ∷ Token.word path
    ∷ Token.and_operator
    ∷ Token.word (codes "test")
    ∷ Token.word (codes "-w")
    ∷ Token.word (codes ".")
    ∷ Token.and_operator
    ∷ Token.word (codes "pwd")
    ∷ Token.word (codes "-P")
    ∷ rest

-- `build_remote_probe_command`
unfoldable pub build_remote_probe_command : Text → Text → Option Text
build_remote_probe_command workspace root =
    on_path
      (λ path.
        on_path
          (λ base.
            build_remote_command (enter_tokens base (Token.and_operator ∷ enter_tokens path [])))
          (normalize_remote_path root))
      (assert_remote_within_root workspace root)

abbrev pub cleanup_tokens : Text → List Token
cleanup_tokens path =
    Token.word (codes "rm")
    ∷ Token.word (codes "-rf")
    ∷ Token.word (codes "--")
    ∷ Token.word path
    ∷ []

-- `build_remote_cleanup_command`
unfoldable pub build_remote_cleanup_command : Text → Text → Option Text
build_remote_cleanup_command workspace root =
    on_path (λ path. build_remote_command (cleanup_tokens path))
      (assert_remote_within_root workspace root)
