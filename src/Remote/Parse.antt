-- ===== src/Remote/Parse.antt =====
-- `SSHHost.parse` of ssh/worker.py; `isdigit` and `int` are exact on ASCII.
use symphony_python.Prelude.{
  ℕ, ◌+◌, Bool, not, ◌&&◌, ◌||◌, Option, none, some, [], ◌∷◌, ◌++◌, any, all, leb, ◌-◌, ◌*◌, ◌==◌,
  if◌then◌else◌,
}
use symphony_python.Text.{Text, codes, truthy, strip, starts_with}
use symphony_python.Agent.Usage.{is_digit}
use symphony_python.Remote.Quote.{is_unquotable}

-- `SSHHost`
pub record SshHost : Type 0 where
  pub spec : Text
  pub hostname : Text
  pub user : Option Text
  pub port : Option ℕ

-- `text.partition(c)`, where `c` occurs: what is before the first, and what is behind it
unfoldable pub partition : ℕ → Text → Option (Text × Text)
partition c [] = none
partition c (d ∷ s) =
    if d == c
    then some ([], s)
    else elim (partition c s) [ none ↦ none | some (before, behind) ↦ some (d ∷ before, behind) ]

-- `text.rsplit(c, 1)`, where `c` occurs: the same for the last
unfoldable pub partition_last : ℕ → Text → Option (Text × Text)
partition_last c [] = none
partition_last c (d ∷ s) = elim (partition_last c s) [
  | some (before, behind) ↦ some (d ∷ before, behind)
  | none ↦ if d == c then some ([], s) else none
]

unfoldable pub number_from : ℕ → Text → ℕ
number_from n [] = n
number_from n (c ∷ s) = number_from (n * 10 + (c - b'0')) s

-- `_parse_port`: `none` is the `RemotePreflightFailed`.
unfoldable pub parse_port : Text → Option ℕ
parse_port text =
    if not (truthy text && all is_digit text)
    then none
    else let port = number_from 0 text in if leb 1 port && leb port 65535 then some port else none

abbrev with_port : Text → Option ℕ → Option (Text × Option ℕ)
with_port hostname none = none
with_port hostname (some port) = some (hostname, some port)

abbrev pub behind_bracket : Text → Text → Option (Text × Option ℕ)
behind_bracket hostname [] = some (hostname, none)
behind_bracket hostname (c ∷ tail) =
    if c == b':' then with_port hostname (parse_port tail) else none

abbrev pub bracketed : Option (Text × Text) → Option (Text × Option ℕ)
bracketed none = none
bracketed (some (hostname, tail)) = behind_bracket hostname tail

abbrev unbracketed : Text → Option (Text × Text) → Option (Text × Option ℕ)
unbracketed remainder none = some (remainder, none)
unbracketed remainder (some (hostname, tail)) =
    if any (λ c. c == b':') tail
    then some (remainder, none)
    else with_port hostname (parse_port tail)

-- The host name and the port of what follows the user
unfoldable pub parse_address : Text → Option (Text × Option ℕ)
parse_address [] = some ([], none)
parse_address (c ∷ s) =
    if c == b'[' then bracketed (partition b']' s) else unbracketed (c ∷ s) (partition b':' (c ∷ s))

abbrev pub named_host : Text → Option Text → Option (Text × Option ℕ) → Option SshHost
named_host spec user none = none
named_host spec user (some (hostname, port)) =
    if truthy hostname
    then some (record { spec = spec; hostname = hostname; user = user; port = port })
    else none

abbrev pub with_user : Text → Option (Text × Text) → Option SshHost
with_user text none = named_host text none (parse_address text)
with_user text (some (user, remainder)) =
    if truthy user && truthy remainder
    then named_host text (some user) (parse_address remainder)
    else none

-- `_UNQUOTABLE`, the blank and the tab
unfoldable pub is_refused : ℕ → Bool
is_refused c = is_unquotable c || (c == 32) || (c == 9)

-- `SSHHost.parse`: `none` is the `RemotePreflightFailed`.
unfoldable pub parse_host : Text → Option SshHost
parse_host entry =
    let text = strip entry in
    if not (truthy text)
    then none
    else if starts_with (codes "-") text
    then none
    else if any is_refused text
    then none
    else with_user text (partition_last b'@' text)

-- `SSHHost.destination`
unfoldable pub destination : SshHost → Text
destination host = elim host.user [
  | none ↦ host.hostname
  | some user ↦ if truthy user then user ++ b'@' ∷ host.hostname else host.hostname
]
