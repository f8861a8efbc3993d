-- ===== src/Samples/Keys.antt =====
-- Tests of workspace keys, with a digest that is the same for all identifiers.
use symphony_python.Prelude.{◌≡◌, ◌⊎◌, refl, false, some}
use symphony_python.Text.{Text, codes, text_eq, lower, rstrip_by}
use symphony_python.Models.Key.{allowed, sanitize, folds_ambiguously, workspace_key}
use symphony_python.Models.Collisions.{workspace_key-lower, workspace_key-key}

abbrev digest : Text → Text
digest identifier = codes "0123456789abcdef"

abbrev hashed : Text
hashed = codes "eng_42-0123456789abcdef"

hashed_slash : workspace_key digest (codes "eng/42") ≡ some hashed
unfolding workspace_key sanitize allowed folds_ambiguously text_eq lower rstrip_by
hashed_slash = refl

plain : workspace_key digest (codes "eng-42") ≡ some (codes "eng-42")
unfolding workspace_key sanitize allowed folds_ambiguously text_eq lower rstrip_by
plain = refl

unambiguous : folds_ambiguously hashed ≡ false
unfolding folds_ambiguously text_eq lower rstrip_by
unambiguous = refl

sanitize-digest : (s : Text) → sanitize (digest s) ≡ digest s
unfolding sanitize allowed
sanitize-digest s = refl

lower-digest : (s : Text) → lower (digest s) ≡ digest s
unfolding lower
lower-digest s = refl

-- The identifiers `eng/42` and `eng_42-0123456789abcdef` have one workspace.
workspace_key-key_example : workspace_key digest hashed ≡ some hashed
workspace_key-key_example =
    workspace_key-key digest (codes "eng/42") hashed sanitize-digest hashed_slash unambiguous

workspace_key-lower_example :
    (codes "eng-42" ≡ codes "eng-42")
    ⊎ (digest (codes "eng-42") ≡ digest (codes "eng-42"))
    ⊎ ((codes "eng-42" ≡ codes "eng-42") × (codes "eng-42" ≡ lower (codes "eng-42")))
    ⊎ ((codes "eng-42" ≡ codes "eng-42") × (codes "eng-42" ≡ lower (codes "eng-42")))
workspace_key-lower_example =
    workspace_key-lower digest (codes "eng-42") (codes "eng-42") (codes "eng-42") (codes "eng-42")
      (λ s. refl) lower-digest plain plain refl
