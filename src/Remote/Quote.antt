-- ===== src/Remote/Quote.antt =====
-- The quoting of commands in ssh/worker.py, with `shlex.quote` and `shlex.split` as it calls them.
use symphony_python.Prelude.{
  ℕ, Bool, true, false, ◌&&◌, ◌||◌, Option, none, some, List, [], ◌∷◌, ◌++◌, map, any, all, leb,
  ◌==◌, if◌then◌else◌,
}
use symphony_python.Text.{Text, text_eq, truthy}

-- The characters that `shlex.quote` leaves alone: `[A-Za-z0-9_@%+=:,./-]`
unfoldable pub is_safe : ℕ → Bool
is_safe c =
    (leb b'A' c && leb c b'Z')
    || (leb b'a' c && leb c b'z')
    || (leb b'+' c && leb c b':')
    || (c == b'_')
    || (c == b'@')
    || (c == b'%')
    || (c == b'=')

-- `s.replace("'", "'\"'\"'")`
unfoldable pub escape_quotes : Text → Text
escape_quotes [] = []
escape_quotes (c ∷ s) =
    let rest = escape_quotes s in if c == 39 then 39 ∷ 34 ∷ 39 ∷ 34 ∷ 39 ∷ rest else c ∷ rest

-- `shlex.quote`
unfoldable pub quote : Text → Text
quote [] = 39 ∷ 39 ∷ []
quote (c ∷ s) = if all is_safe (c ∷ s) then c ∷ s else 39 ∷ escape_quotes (c ∷ s) ++ 39 ∷ []

-- `_UNQUOTABLE`
unfoldable pub is_unquotable : ℕ → Bool
is_unquotable c = (c == 0) || (c == 10) || (c == 13)

-- `quote_remote`: `none` is the `RemoteQuotingError`.
unfoldable pub quote_remote : Text → Option Text
quote_remote value = if any is_unquotable value then none else some (quote value)

-- A token of a command: a string, or the operator `&&`, which is emitted as it is
pub data Token : Type 0 where
  word : Text → Token
  and_operator : Token

abbrev pub text_of : Token → Text
text_of (Token.word s) = s
text_of Token.and_operator = b'&' ∷ b'&' ∷ []

unfoldable pub render_token : Token → Option Text
render_token (Token.word s) = quote_remote s
render_token Token.and_operator = some (b'&' ∷ b'&' ∷ [])

abbrev pub joined_by : Option Text → Option Text → Option Text
joined_by (some a) (some b) = some (a ++ 32 ∷ b)
joined_by _ _ = none

-- `" ".join(...)` of the rendered tokens
unfoldable pub render : Token → List Token → Option Text
render t [] = render_token t
render t (next ∷ rest) = joined_by (render_token t) (render next rest)

-- The state of the POSIX lexer of `shlex` between two characters, with the token so far and
-- whether a part of it was quoted
pub data Lexer : Type 0 where
  blank : Lexer
  in_word : Text → Bool → Lexer
  in_quote : ℕ → Text → Lexer
  escape_in_word : Text → Bool → Lexer
  escape_in_quote : Text → Lexer

unfoldable pub is_blank : ℕ → Bool
is_blank c = (c == 32) || (c == 9) || (c == 13) || (c == 10)

unfoldable pub is_quote : ℕ → Bool
is_quote c = (c == 39) || (c == 34)

abbrev emitted_word : Text → Bool → Option Text
emitted_word token quoted = if truthy token || quoted then some token else none

-- `shlex.read_token` at one character: the next state, and the token that ends here
unfoldable pub lex_step : Lexer → ℕ → Lexer × Option Text
lex_step Lexer.blank c =
    if is_blank c
    then (Lexer.blank, none)
    else if c == 92
    then (Lexer.escape_in_word [] false, none)
    else if is_quote c
    then (Lexer.in_quote c [], none)
    else (Lexer.in_word (c ∷ []) false, none)
lex_step (Lexer.in_word token quoted) c =
    if is_blank c
    then (Lexer.blank, emitted_word token quoted)
    else if is_quote c
    then (Lexer.in_quote c token, none)
    else if c == 92
    then (Lexer.escape_in_word token quoted, none)
    else (Lexer.in_word (token ++ c ∷ []) quoted, none)
lex_step (Lexer.in_quote mark token) c =
    if c == mark
    then (Lexer.in_word token true, none)
    else if (c == 92) && (mark == 34)
    then (Lexer.escape_in_quote token, none)
    else (Lexer.in_quote mark (token ++ c ∷ []), none)
lex_step (Lexer.escape_in_word token quoted) c = (Lexer.in_word (token ++ c ∷ []) quoted, none)
lex_step (Lexer.escape_in_quote token) c =
    if (c == 92) || (c == 34)
    then (Lexer.in_quote 34 (token ++ c ∷ []), none)
    else (Lexer.in_quote 34 (token ++ 92 ∷ c ∷ []), none)

abbrev one_or_none : Option Text → List Text
one_or_none none = []
one_or_none (some token) = token ∷ []

-- The end of the text: `none` is the `ValueError` of an open quotation or escape.
unfoldable pub lex_end : Lexer → Option (List Text)
lex_end Lexer.blank = some []
lex_end (Lexer.in_word token quoted) = some (one_or_none (emitted_word token quoted))
lex_end (Lexer.in_quote mark token) = none
lex_end (Lexer.escape_in_word token quoted) = none
lex_end (Lexer.escape_in_quote token) = none

abbrev pub with_token : Option Text → Option (List Text) → Option (List Text)
with_token none tokens = tokens
with_token (some token) none = none
with_token (some token) (some tokens) = some (token ∷ tokens)

-- `shlex.split` from a state on
unfoldable pub lex : Lexer → Text → Option (List Text)
lex state [] = lex_end state
lex state (c ∷ s) = let (next, token) = lex_step state c in with_token token (lex next s)

unfoldable pub same_texts : List Text → List Text → Bool
same_texts [] [] = true
same_texts (a ∷ first) (b ∷ second) = text_eq a b && same_texts first second
same_texts _ _ = false

abbrev pub verified : List Text → Text → Option (List Text) → Option Text
verified tokens rendered none = none
verified tokens rendered (some parsed) = if same_texts parsed tokens then some rendered else none

abbrev pub reparsed : List Text → Option Text → Option Text
reparsed tokens none = none
reparsed tokens (some rendered) = verified tokens rendered (lex Lexer.blank rendered)

-- `build_remote_command`: `none` is a `RemoteQuotingError`.
unfoldable pub build_remote_command : List Token → Option Text
build_remote_command [] = none
build_remote_command (t ∷ tokens) = reparsed (map text_of (t ∷ tokens)) (render t tokens)
