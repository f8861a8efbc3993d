-- ===== src/Remote/Brackets.antt =====
-- What the brackets of a host entry let through in ssh/worker.py.
use symphony_python.Prelude.{
  ℕ, ◌≡◌, refl, ap, Bool, true, false, not, ◌&&◌, none, some, [], ◌∷◌, ◌++◌, any, all, arith, ◌==◌,
  if◌then◌else◌,
}
use symphony_python.Text.{Text, codes, truthy, strip, starts_with, is_space, drop_while, rstrip_by}
use symphony_python.Remote.Quote.{is_unquotable}
use symphony_python.Remote.Parse.{
  SshHost, partition, partition_last, parse_address, is_refused, parse_host, destination,
}

-- A character that neither ends the brackets nor the user, and is not refused
unfoldable pub is_inner : ℕ → Bool
is_inner c = not (is_refused c) && not (c == b'@') && not (c == b']')

abbrev pub in_brackets : Text → Text
in_brackets s = b'[' ∷ s ++ b']' ∷ []

rstrip_by_same :
    (c d : ℕ) (s : Text)
    → rstrip_by is_space (d ∷ s) ≡ d ∷ s
    → rstrip_by is_space (c ∷ d ∷ s) ≡ c ∷ d ∷ s
unfolding rstrip_by
rstrip_by_same c d s h =
    ap (λ t. elim t as (λ x. Text) [ [] ↦ (if is_space c then [] else c ∷ []) | e ∷ u ↦ c ∷ e ∷ u ])
      h

rstrip_by-closed : (s : Text) → rstrip_by is_space (s ++ b']' ∷ []) ≡ s ++ b']' ∷ []
unfolding rstrip_by is_space
rstrip_by-closed [] = refl
rstrip_by-closed (c ∷ []) = refl
rstrip_by-closed (c ∷ d ∷ s) = rstrip_by_same c d (s ++ b']' ∷ []) (rstrip_by-closed (d ∷ s))

strip-in_brackets : (s : Text) → strip (in_brackets s) ≡ in_brackets s
unfolding strip drop_while is_space
strip-in_brackets s = rstrip_by-closed (b'[' ∷ s)

refused-closed : (s : Text) → all is_inner s ≡ true → any is_refused (s ++ b']' ∷ []) ≡ false
unfolding any all is_inner
refused-closed [] h = unfold is_refused is_unquotable in refl
refused-closed (c ∷ s) h = ground (arith, refused-closed s)

no_user : (s : Text) → all is_inner s ≡ true → partition_last b'@' (s ++ b']' ∷ []) ≡ none
unfolding all partition_last is_inner
no_user [] h = refl
no_user (c ∷ s) h = ground (arith, no_user s)

partition-closed :
    (s : Text) → all is_inner s ≡ true → partition b']' (s ++ b']' ∷ []) ≡ some (s, [])
unfolding all partition is_inner
partition-closed [] h = refl
partition-closed (c ∷ s) h = ground (arith, partition-closed s)

refused_brackets : (s : Text) → all is_inner s ≡ true → any is_refused (in_brackets s) ≡ false
unfolding any is_refused is_unquotable
refused_brackets s h = refused-closed s h

no_user_brackets : (s : Text) → all is_inner s ≡ true → partition_last b'@' (in_brackets s) ≡ none
unfolding partition_last
no_user_brackets s h = rw (no_user s h) refl

not_option : (s : Text) → starts_with (codes "-") (in_brackets s) ≡ false
unfolding starts_with
not_option s = refl

address : (s : Text) → all is_inner s ≡ true → parse_address (in_brackets s) ≡ some (s, none)
unfolding parse_address
address s h = rw (partition-closed s h) refl

abbrev pub bracketed_host : Text → SshHost
bracketed_host s = record { spec = in_brackets s; hostname = s; user = none; port = none }

-- A host entry in brackets is accepted, whatever stands between the brackets, if that is not
-- empty and holds no `@`, no `]` and no character that is refused; and it is the destination that
-- `ssh` gets, as it is, even where it begins with a dash.
pub parse_host-in_brackets :
    (s : Text)
    → truthy s ≡ true
    → all is_inner s ≡ true
    → (parse_host (in_brackets s) ≡ some (bracketed_host s)) × (destination (bracketed_host s) ≡ s)
unfolding parse_host destination
parse_host-in_brackets s present inner = (
  rw
      (
        strip-in_brackets s,
        not_option s,
        refused_brackets s inner,
        no_user_brackets s inner,
        address s inner,
        present,
      )
      refl,
  refl,
)
