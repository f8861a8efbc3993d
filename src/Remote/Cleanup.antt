-- ===== src/Remote/Cleanup.antt =====
-- What a remote cleanup of ssh/worker.py removes.
use symphony_python.Prelude.{
  ◌≡◌, refl, sym, subst, ap, ◌∙◌, Bool, true, false, ◌&&◌, Option, none, some, List, [], ◌∷◌, ◌++◌,
  map, inl, inr, Bool-cases, arith,
}
use symphony_python.Text.{Text, codes, text_eq, text_eq_iff}
use symphony_python.Dict.{member}
use symphony_python.Remote.Quote.{
  Token, text_of, render, Lexer, lex, same_texts, verified, reparsed, build_remote_command,
}
use symphony_python.Remote.Shell.{Shell, shell_words}
use symphony_python.Remote.Unexpanded.{shell_words-render}
use symphony_python.Remote.Paths.{
  path_text, normalize_remote_path, is_strictly_under, contained, on_path,
  assert_remote_within_root, cleanup_tokens, build_remote_cleanup_command,
}

same_texts-eq : (xs ys : List Text) → same_texts xs ys ≡ true → xs ≡ ys
unfolding same_texts
same_texts-eq [] [] h = refl
same_texts-eq [] (y ∷ ys) h = ground arith
same_texts-eq (x ∷ xs) [] h = ground arith
same_texts-eq (x ∷ xs) (y ∷ ys) h = ground (arith, text_eq_iff x y, same_texts-eq xs ys)

verified-same :
    (tokens : List Text) (rendered line : Text) (parsed : Option (List Text))
    → verified tokens rendered parsed ≡ some line
    → (parsed ≡ some tokens) × (rendered ≡ line)
verified-same tokens rendered line none h = ground arith
verified-same tokens rendered line (some parsed) h = ground (arith, same_texts-eq parsed tokens)

reparsed-lex :
    (tokens : List Text) (rendered : Option Text) (line : Text)
    → reparsed tokens rendered ≡ some line
    → lex Lexer.blank line ≡ some tokens
reparsed-lex tokens none line h = ground arith
reparsed-lex tokens (some rendered) line h =
    let (parsed, same) = verified-same tokens rendered line (lex Lexer.blank rendered) h in
    ap (lex Lexer.blank) (sym same) ∙ parsed

-- A command line that is built is read back as its tokens.
pub build_remote_command-lex :
    (tokens : List Token) (line : Text)
    → build_remote_command tokens ≡ some line
    → lex Lexer.blank line ≡ some (map text_of tokens)
unfolding build_remote_command
build_remote_command-lex [] line h = ground arith
build_remote_command-lex (t ∷ tokens) line h =
    reparsed-lex (map text_of (t ∷ tokens)) (render t tokens) line h

reparsed-same :
    (tokens : List Text) (rendered : Option Text) (line : Text)
    → reparsed tokens rendered ≡ some line
    → rendered ≡ some line
reparsed-same tokens none line h = ground arith
reparsed-same tokens (some rendered) line h =
    ap some (verified-same tokens rendered line (lex Lexer.blank rendered) h).1

-- A command of words that is built is read by a shell as exactly these words.
build_remote_command-shell_words :
    (s : Text) (words : List Text) (line : Text)
    → build_remote_command (Token.word s ∷ map Token.word words) ≡ some line
    → shell_words Shell.between line ≡ some (s ∷ words)
unfolding build_remote_command
build_remote_command-shell_words s words line h =
    shell_words-render s words line
      (reparsed-same (map text_of (Token.word s ∷ map Token.word words)) _ line h)

-- A path is strictly below another one: it has all of its components, and more.
abbrev pub IsBelow : List Text → List Text → Type 0
IsBelow base path = (part : Text) × (rest : List Text) × (path ≡ base ++ part ∷ rest)

both_true : (a b : Bool) → (a && b) ≡ true → (a ≡ true) × (b ≡ true)
both_true a b h = ground arith

is_strictly_under-IsBelow :
    (base path : List Text) → is_strictly_under base path ≡ true → IsBelow base path
unfolding is_strictly_under
is_strictly_under-IsBelow [] [] h = ground arith
is_strictly_under-IsBelow [] (part ∷ path) h = (part, path, refl)
is_strictly_under-IsBelow (b ∷ base) [] h = ground arith
is_strictly_under-IsBelow (b ∷ base) (part ∷ path) h =
    let (same, under) = both_true (text_eq b part) (is_strictly_under base path) h in
    let (next, rest, e) = is_strictly_under-IsBelow base path under in
    (next, rest, ap (λ p. p ∷ path) (sym ((text_eq_iff b part).0 same)) ∙ ap (λ r. b ∷ r) e)

normalize_remote_path-member :
    (text : Text) (path : List Text)
    → normalize_remote_path text ≡ some path
    → member (codes "..") path ≡ false
unfolding normalize_remote_path
normalize_remote_path-member text path h = ground arith

contained-IsBelow :
    (target base : Option (List Text)) (path : List Text)
    → contained target base ≡ some path
    → (target ≡ some path)
      × ((root : List Text) × (base ≡ some root) × (is_strictly_under root path ≡ true))
contained-IsBelow none base path h = ground arith
contained-IsBelow (some target) none path h = ground arith
contained-IsBelow (some target) (some root) path h =
    elim (Bool-cases (is_strictly_under root target)) [
      | inr e ↦ ground arith
      | inl e ↦
          let same : target ≡ path = ground arith in
          (ap some same, (root, refl, subst (λ p. is_strictly_under root p ≡ true) same e))
    ]

on_path_inv :
    (f : Text → Option Text) (o : Option (List Text)) (line : Text)
    → on_path f o ≡ some line
    → (path : List Text) × (o ≡ some path) × (f (path_text path) ≡ some line)
on_path_inv f none line h = ground arith
on_path_inv f (some path) line h = (path, refl, h)

-- A cleanup command that is built is read as the removal of exactly one path, by `shlex.split` and
-- by a POSIX shell, which finds one simple command in it and nothing to expand. The path is what the
-- workspace normalises to, has no `..` component, and lies strictly below what the root normalises
-- to.
pub build_remote_cleanup_command-IsBelow :
    (workspace root line : Text)
    → build_remote_cleanup_command workspace root ≡ some line
    → (path : List Text) × (base : List Text) × (normalize_remote_path workspace ≡ some path)
      × (normalize_remote_path root ≡ some base)
      × IsBelow base path
      × (member (codes "..") path ≡ false)
      × (lex Lexer.blank line ≡ some (codes "rm" ∷ codes "-rf" ∷ codes "--" ∷ path_text path ∷ []))
      × (shell_words Shell.between line
          ≡ some (codes "rm" ∷ codes "-rf" ∷ codes "--" ∷ path_text path ∷ []))
unfolding build_remote_cleanup_command assert_remote_within_root
build_remote_cleanup_command-IsBelow workspace root line h =
    let (path, found, built) =
      on_path_inv (λ p. build_remote_command (cleanup_tokens p))
        (assert_remote_within_root workspace root) line h in
    let (target, (base, at_root, under)) =
      contained-IsBelow (normalize_remote_path workspace) (normalize_remote_path root) path found in
    (
      path,
      base,
      target,
      at_root,
      is_strictly_under-IsBelow base path under,
      normalize_remote_path-member workspace path target,
      build_remote_command-lex (cleanup_tokens (path_text path)) line built,
      build_remote_command-shell_words (codes "rm") (codes "-rf" ∷ codes "--" ∷ path_text path ∷ [])
          line built,
    )
