-- ===== src/Remote/Reparse.antt =====
-- A command that ssh/worker.py quotes is read back as the tokens that it was made from.
use symphony_python.Prelude.{
  ℕ, ◌≡◌, refl, ap, ◌∙◌, Bool, true, false, not, ◌&&◌, ◌||◌, some, List, [], ◌∷◌, ◌++◌,
  append_assoc, append-nil, map, any, all, All, inl, inr, Bool-cases, arith, ◌==◌, ==_iff,
}
use symphony_python.Text.{Text, truthy, text_eq_refl}
use symphony_python.Remote.Quote.{
  is_safe, escape_quotes, quote, is_unquotable, quote_remote, Token, text_of, render_token, render,
  Lexer, is_blank, is_quote, lex_step, lex_end, with_token, lex, same_texts, build_remote_command,
}

-- A character that the lexer adds to a word
unfoldable pub is_ordinary : ℕ → Bool
is_ordinary c = not (is_blank c) && not (is_quote c) && not (c == 92)

safe-ordinary : (c : ℕ) → is_safe c ≡ true → is_ordinary c ≡ true
unfolding is_safe is_ordinary is_blank is_quote
safe-ordinary c h = ground arith

lex-in_word_step :
    (token : Text) (quoted : Bool) (c : ℕ) (rest : Text)
    → is_ordinary c ≡ true
    → lex (Lexer.in_word token quoted) (c ∷ rest)
      ≡ lex (Lexer.in_word (token ++ c ∷ []) quoted) rest
unfolding lex lex_step is_ordinary
lex-in_word_step token quoted c rest h = ground arith

all-head : (c : ℕ) (s : Text) → all is_ordinary (c ∷ s) ≡ true → is_ordinary c ≡ true
unfolding all
all-head c s h = ground arith

all-tail : (c : ℕ) (s : Text) → all is_ordinary (c ∷ s) ≡ true → all is_ordinary s ≡ true
unfolding all
all-tail c s h = ground arith

lex-ordinary :
    (token : Text) (quoted : Bool) (s rest : Text)
    → all is_ordinary s ≡ true
    → lex (Lexer.in_word token quoted) (s ++ rest) ≡ lex (Lexer.in_word (token ++ s) quoted) rest
lex-ordinary token quoted [] rest h = rw (append-nil token) refl
lex-ordinary token quoted (c ∷ s) rest h =
    lex-in_word_step token quoted c (s ++ rest) (all-head c s h)
    ∙ lex-ordinary (token ++ c ∷ []) quoted s rest (all-tail c s h)
    ∙ rw (append_assoc token (c ∷ []) s) refl

lex-close :
    (token rest : Text)
    → lex (Lexer.in_quote 39 token) (39 ∷ rest) ≡ lex (Lexer.in_word token true) rest
unfolding lex lex_step
lex-close token rest = refl

lex-quote_step :
    (token rest : Text) (c : ℕ)
    → (c == 39) ≡ false
    → lex (Lexer.in_quote 39 token) (c ∷ rest) ≡ lex (Lexer.in_quote 39 (token ++ c ∷ [])) rest
unfolding lex lex_step
lex-quote_step token rest c h = ground arith

-- The four characters that stand for a quote between two single-quoted parts
lex-escaped :
    (token rest : Text)
    → lex (Lexer.in_quote 39 token) (39 ∷ 34 ∷ 39 ∷ 34 ∷ 39 ∷ rest)
      ≡ lex (Lexer.in_quote 39 (token ++ 39 ∷ [])) rest
unfolding lex lex_step is_blank is_quote
lex-escaped token rest = refl

lex-quoted :
    (token s rest : Text)
    → lex (Lexer.in_quote 39 token) (escape_quotes s ++ 39 ∷ rest)
      ≡ lex (Lexer.in_word (token ++ s) true) rest
unfolding escape_quotes
lex-quoted token [] rest = rw (append-nil token) (lex-close token rest)
lex-quoted token (c ∷ s) rest = elim (Bool-cases (c == 39)) [
  | inr e ↦ rw e (
      lex-quote_step token (escape_quotes s ++ 39 ∷ rest) c e
      ∙ lex-quoted (token ++ c ∷ []) s rest
      ∙ rw (append_assoc token (c ∷ []) s) refl)
  | inl e ↦
      rw (e, (==_iff c 39).0 e)
        (lex-escaped token (escape_quotes s ++ 39 ∷ rest)
          ∙ lex-quoted (token ++ 39 ∷ []) s rest
          ∙ rw (append_assoc token (39 ∷ []) s) refl)
]

-- From between two words, the lexer reads the rendering of a token as one whole word.
abbrev ReadsAs : Text → Text → Type 0
ReadsAs rendered token =
    (quoted : Bool) × ((truthy token || quoted) ≡ true)
    × ((rest : Text) → lex Lexer.blank (rendered ++ rest) ≡ lex (Lexer.in_word token quoted) rest)

lex-blank_step :
    (c : ℕ) (rest : Text)
    → is_ordinary c ≡ true
    → lex Lexer.blank (c ∷ rest) ≡ lex (Lexer.in_word (c ∷ []) false) rest
unfolding lex lex_step is_ordinary
lex-blank_step c rest h = ground arith

lex-open : (rest : Text) → lex Lexer.blank (39 ∷ rest) ≡ lex (Lexer.in_quote 39 []) rest
unfolding lex lex_step is_blank is_quote
lex-open rest = refl

ordinary-ReadsAs : (c : ℕ) (s : Text) → all is_ordinary (c ∷ s) ≡ true → ReadsAs (c ∷ s) (c ∷ s)
ordinary-ReadsAs c s h = (
  false,
  refl,
  λ rest.
      lex-blank_step c (s ++ rest) (all-head c s h)
      ∙ lex-ordinary (c ∷ []) false s rest (all-tail c s h),
)

or_true : (b : Bool) → (b || true) ≡ true
or_true true = refl
or_true false = refl

quoted-ReadsAs : (s : Text) → ReadsAs (39 ∷ escape_quotes s ++ 39 ∷ []) s
quoted-ReadsAs s = (
  true,
  or_true (truthy s),
  λ rest.
      lex-open ((escape_quotes s ++ 39 ∷ []) ++ rest)
      ∙ ap (lex (Lexer.in_quote 39 [])) (append_assoc (escape_quotes s) (39 ∷ []) rest)
      ∙ lex-quoted [] s rest,
)

all-ordinary : (s : Text) → all is_safe s ≡ true → all is_ordinary s ≡ true
unfolding all
all-ordinary [] h = refl
all-ordinary (c ∷ s) h = ground (arith, safe-ordinary c, all-ordinary s)

quote-ReadsAs : (s : Text) → ReadsAs (quote s) s
unfolding quote
quote-ReadsAs [] = (true, refl, λ rest. lex-open (39 ∷ rest) ∙ lex-close [] rest)
quote-ReadsAs (c ∷ s) = elim (Bool-cases (all is_safe (c ∷ s))) [
  | inl e ↦ rw e (ordinary-ReadsAs c s (all-ordinary (c ∷ s) e))
  | inr e ↦ rw e (quoted-ReadsAs (c ∷ s))
]

ordinary_and : all is_ordinary (b'&' ∷ b'&' ∷ []) ≡ true
unfolding all is_ordinary is_blank is_quote
ordinary_and = refl

operator-ReadsAs : ReadsAs (text_of Token.and_operator) (text_of Token.and_operator)
operator-ReadsAs = ordinary-ReadsAs b'&' (b'&' ∷ []) ordinary_and

-- No character of a string is one that cannot be quoted.
abbrev pub IsQuotable : Token → Type 0
IsQuotable (Token.word s) = any is_unquotable s ≡ false
IsQuotable Token.and_operator = Unit

render_token-ReadsAs :
    (t : Token)
    → IsQuotable t
    → (rendered : Text) × (render_token t ≡ some rendered) × ReadsAs rendered (text_of t)
unfolding render_token quote_remote
render_token-ReadsAs (Token.word s) h = (quote s, rw h refl, quote-ReadsAs s)
render_token-ReadsAs Token.and_operator h = (text_of Token.and_operator, refl, operator-ReadsAs)

lex-end :
    (token : Text) (quoted : Bool)
    → (truthy token || quoted) ≡ true
    → lex (Lexer.in_word token quoted) [] ≡ some (token ∷ [])
unfolding lex lex_end
lex-end token quoted h = rw h refl

lex-space :
    (token rest : Text) (quoted : Bool)
    → (truthy token || quoted) ≡ true
    → lex (Lexer.in_word token quoted) (32 ∷ rest) ≡ with_token (some token) (lex Lexer.blank rest)
unfolding lex lex_step is_blank
lex-space token rest quoted h = rw h refl

-- A rendered command, and what it is read back as
lex-render :
    (t : Token) (tokens : List Token)
    → IsQuotable t
    → All IsQuotable tokens
    → (line : Text) × (render t tokens ≡ some line)
      × (lex Lexer.blank line ≡ some (map text_of (t ∷ tokens)))
unfolding render
lex-render t [] h hs =
    let (rendered, same, (quoted, whole, reads)) = render_token-ReadsAs t h in
    (rendered, same, rw⁻¹ (append-nil rendered) (reads [] ∙ lex-end (text_of t) quoted whole))
lex-render t (next ∷ tokens) h (h', hs) =
    let (rendered, same, (quoted, whole, reads)) = render_token-ReadsAs t h in
    let (line, later, parsed) = lex-render next tokens h' hs in
    (
      rendered ++ 32 ∷ line,
      rw (same, later) refl,
      reads (32 ∷ line)
          ∙ lex-space (text_of t) line quoted whole
          ∙ ap (with_token (some (text_of t))) parsed,
    )

same_texts_refl : (texts : List Text) → same_texts texts texts ≡ true
unfolding same_texts
same_texts_refl [] = refl
same_texts_refl (a ∷ texts) = rw (text_eq_refl a) (same_texts_refl texts)

-- The re-parse of a command that is not empty never rejects it, if no string of it holds a
-- character that cannot be quoted: there is a command line, and `shlex.split` reads it as exactly
-- the tokens of the command, whatever quotes, blanks or operators the strings hold.
pub lex-build_remote_command :
    (t : Token) (tokens : List Token)
    → IsQuotable t
    → All IsQuotable tokens
    → (line : Text) × (build_remote_command (t ∷ tokens) ≡ some line)
      × (lex Lexer.blank line ≡ some (map text_of (t ∷ tokens)))
unfolding build_remote_command
lex-build_remote_command t tokens h hs =
    let (line, rendered, parsed) = lex-render t tokens h hs in
    (line, rw (rendered, parsed, same_texts_refl (map text_of (t ∷ tokens))) refl, parsed)
