-- ===== src/Workflow/Expand.antt =====
-- `expand_value` of workflow/config.py. The home directory, the environment and the path
-- operations of the host are arguments.
use symphony_python.Prelude.{
  ℕ, zero, suc, Bool, not, ◌&&◌, ◌||◌, Option, none, some, [], ◌∷◌, ◌++◌, length, leb, ◌==◌,
  if◌then◌else◌,
}
use symphony_python.Text.{Text, truthy, starts_with}
use symphony_python.Workflow.Coerce.{Checked, ok, invalid, raised, ◌>>=◌}

pub record Host : Type 0 where
  pub getenv : Text → Text
  pub expanduser : Text → Text
  pub is_abs : Text → Bool
  pub join : Text → Text → Text
  pub resolve : Text → Text
  pub default_root : Text

-- `[A-Za-z_]`
unfoldable pub starts_name : ℕ → Bool
starts_name c = (leb b'A' c && leb c b'Z') || (leb b'a' c && leb c b'z') || (c == b'_')

-- `[A-Za-z0-9_]`
unfoldable pub in_name : ℕ → Bool
in_name c = starts_name c || (leb b'0' c && leb c b'9')

-- The longest run of name characters, and what follows it
unfoldable pub name_run : Text → Text × Text
name_run [] = ([], [])
name_run (c ∷ s) =
    let (run, rest) = name_run s in if in_name c then (c ∷ run, rest) else ([], c ∷ s)

-- `[A-Za-z_][A-Za-z0-9_]*` at the start
unfoldable pub match_name : Text → Option (Text × Text)
match_name [] = none
match_name (c ∷ s) =
    let (run, rest) = name_run s in if starts_name c then some (c ∷ run, rest) else none

abbrev pub closed : Option (Text × Text) → Option (Text × Text)
closed (some (name, c ∷ rest)) = if c == b'}' then some (name, rest) else none
closed _ = none

-- What `_VAR_PATTERN` matches behind a `$`: the name, and what follows the match
unfoldable pub match_variable : Text → Option (Text × Text)
match_variable [] = none
match_variable (c ∷ s) = if c == b'{' then closed (match_name s) else match_name (c ∷ s)

abbrev pub prefixed : Text → Checked Text → Checked Text
prefixed s (ok t) = ok (s ++ t)
prefixed s (invalid e) = invalid e
prefixed s raised = raised

module _ (host : Host) where
  -- One step at the character `c` before `s`: the match, if there is one, and what goes on behind
  abbrev pub substituted : Option (Text × Text) → ℕ → Text → (Text → Checked Text) → Checked Text
  substituted none c s next = prefixed (c ∷ []) (next s)
  substituted (some (name, rest)) c s next =
      if truthy (host.getenv name) then prefixed (host.getenv name) (next rest) else invalid name

  -- `_VAR_PATTERN.sub(_substitute, text)`, with a unit of fuel for each character
  unfoldable pub substitute : ℕ → Text → Checked Text
  substitute zero s = ok []
  substitute (suc fuel) [] = ok []
  substitute (suc fuel) (c ∷ s) =
      substituted (if c == b'$' then match_variable s else none) c s (substitute fuel)

  abbrev pub based : Text → Text → Text
  based base_dir expanded =
      if truthy expanded && not (host.is_abs expanded)
      then host.join base_dir expanded
      else expanded

  -- `expand_value` with a base directory
  unfoldable pub expand_value : Text → Text → Checked Text
  expand_value base_dir value =
      let authored = if starts_with (b'~' ∷ []) value then host.expanduser value else value in
      substitute (length authored) authored >>= λ expanded. ok (based base_dir expanded)
