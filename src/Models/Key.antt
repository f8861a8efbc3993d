-- ===== src/Models/Key.antt =====
-- `workspace_key` of models.py.
use symphony_python.Prelude.{
  ℕ, Bool, true, not, ◌&&◌, ◌||◌, Option, none, some, [], ◌∷◌, ◌++◌, map, leb, ◌==◌, if◌then◌else◌,
}
use symphony_python.Text.{Text, text_eq, truthy, lower, rstrip_by, codes}

-- `[A-Za-z0-9._-]`
unfoldable pub allowed : ℕ → Bool
allowed c =
    (leb 65 c && leb c 90)
    || (leb 97 c && leb c 122)
    || (leb 48 c && leb c 57)
    || (c == b'.')
    || (c == b'_')
    || (c == b'-')

-- `WORKSPACE_KEY_ALLOWED.sub("_", identifier)`
unfoldable pub sanitize : Text → Text
unfolding allowed
sanitize s = map (λ c. if allowed c then c else b'_') s

abbrev is_dot_or_space : ℕ → Bool
is_dot_or_space c = (c == b'.') || (c == b' ')

-- The key is ASCII where this is called, so `casefold` is `lower`.
unfoldable pub folds_ambiguously : Text → Bool
folds_ambiguously key =
    if not (text_eq key (lower key))
    then true
    else let stripped = rstrip_by is_dot_or_space key in
      truthy stripped && not (text_eq stripped key)

-- `hexdigest` of the 64-bit BLAKE2b hash is the parameter `digest`; `none` is the `ValueError`.
module _ (digest : Text → Text) where
  unfoldable pub workspace_key : Text → Option Text
  workspace_key [] = none
  workspace_key (c ∷ rest) =
      let identifier = c ∷ rest in
      let sanitized = sanitize identifier in
      if text_eq sanitized identifier && not (folds_ambiguously sanitized)
      then some sanitized
      else some (sanitized ++ (codes "-" ++ digest identifier))
