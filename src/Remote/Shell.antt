-- ===== src/Remote/Shell.antt =====
-- How a POSIX shell reads a command line of plain words. This is the shell that ssh/worker.py sends
-- its commands to, described apart from the lexer that the code re-parses them with.
use symphony_python.Prelude.{
  ℕ, Bool, ◌||◌, Option, none, some, List, [], ◌∷◌, ◌++◌, ◌==◌, if◌then◌else◌,
}
use symphony_python.Text.{Text}
use symphony_python.Remote.Quote.{with_token}

-- A character that means something to a shell where it is not quoted: an operator, an expansion,
-- a pattern, a comment, an escape, a brace, a negation, or the end of a line
unfoldable pub is_special : ℕ → Bool
is_special c =
    (c == b'|')
    || (c == b'&')
    || (c == b';')
    || (c == b'<')
    || (c == b'>')
    || (c == b'(')
    || (c == b')')
    || (c == b'$')
    || (c == 96)
    || (c == 92)
    || (c == b'*')
    || (c == b'?')
    || (c == b'[')
    || (c == b'#')
    || (c == b'~')
    || (c == b'{')
    || (c == b'}')
    || (c == b'!')
    || (c == 10)

-- Where the shell is: between two words, or inside of a word with its text so far
pub data Shell : Type 0 where
  between : Shell
  in_word in_single in_double : Text → Shell

-- What the shell does at a character that is not quoted, in the word so far
abbrev unquoted : Text → ℕ → Option Shell
unquoted word c =
    if c == 39
    then some (Shell.in_single word)
    else if c == 34
    then some (Shell.in_double word)
    else if is_special c
    then none
    else some (Shell.in_word (word ++ c ∷ []))

unfoldable pub is_space : ℕ → Bool
is_space c = (c == 32) || (c == 9)

-- One character: where the shell is then, and the word that ends here. `none`: the text is more
-- than one command of plain words.
unfoldable pub shell_step : Shell → ℕ → Option Shell
shell_step Shell.between c = if is_space c then some Shell.between else unquoted [] c
shell_step (Shell.in_word word) c = if is_space c then some Shell.between else unquoted word c
shell_step (Shell.in_single word) c =
    if c == 39 then some (Shell.in_word word) else some (Shell.in_single (word ++ c ∷ []))
shell_step (Shell.in_double word) c =
    if c == 34
    then some (Shell.in_word word)
    else if (c == b'$') || (c == 96) || (c == 92)
    then none
    else some (Shell.in_double (word ++ c ∷ []))

-- The word that ends where the shell goes from one place to another
unfoldable pub ended_word : Shell → Shell → Option Text
ended_word (Shell.in_word word) Shell.between = some word
ended_word _ _ = none

abbrev pub shell_end : Shell → Option (List Text)
shell_end Shell.between = some []
shell_end (Shell.in_word word) = some (word ∷ [])
shell_end _ = none

abbrev pub shell_on : Shell → Option Shell → (Shell → Option (List Text)) → Option (List Text)
shell_on place none later = none
shell_on place (some next) later = with_token (ended_word place next) (later next)

-- The words of one simple command, if the text is one in which nothing is expanded
unfoldable pub shell_words : Shell → Text → Option (List Text)
shell_words place [] = shell_end place
shell_words place (c ∷ s) = shell_on place (shell_step place c) (λ next. shell_words next s)
