-- ===== src/Workflow/Fuel.antt =====
-- The fuel of the substitution of variables in workflow/config.py.
use symphony_python.Prelude.{
  ℕ, zero, suc, ◌≤◌, ◌≡◌, refl, ap, Option, none, some, [], ◌∷◌, length, inl, inr, Bool-cases,
  arith, ◌==◌, if◌then◌else◌,
}
use symphony_python.Text.{Text, truthy}
use symphony_python.Workflow.Coerce.{Checked, invalid}
use symphony_python.Workflow.Expand.{
  Host, starts_name, in_name, name_run, match_name, closed, match_variable, prefixed, substituted,
  substitute,
}

-- What a match leaves is no longer than what it was tried on.
abbrev IsShort : ℕ → Option (Text × Text) → Type 0
IsShort n none = Unit
IsShort n (some (name, rest)) = length rest ≤ n

length-name_run-le : (s : Text) → length (name_run s).1 ≤ length s
unfolding name_run
length-name_run-le [] = omega arith
length-name_run-le (c ∷ s) = elim (Bool-cases (in_name c)) [
  | inl e ↦ rw e (omega (arith, length-name_run-le s))
  | inr e ↦ rw e (omega arith)
]

match_name-IsShort : (s : Text) → IsShort (length s) (match_name s)
unfolding match_name
match_name-IsShort [] = tt
match_name-IsShort (c ∷ s) = elim (Bool-cases (starts_name c)) [
  | inl e ↦ rw e (omega (arith, length-name_run-le s))
  | inr e ↦ rw e tt
]

closed-IsShort : (n : ℕ) (o : Option (Text × Text)) → IsShort n o → IsShort n (closed o)
closed-IsShort n none h = tt
closed-IsShort n (some (name, [])) h = tt
closed-IsShort n (some (name, c ∷ rest)) h = elim (Bool-cases (c == b'}')) [
  | inl e ↦ rw e (omega (arith, h))
  | inr e ↦ rw e tt
]

IsShort-suc : (n : ℕ) (o : Option (Text × Text)) → IsShort n o → IsShort (suc n) o
IsShort-suc n none h = tt
IsShort-suc n (some (name, rest)) h = omega (arith, h)

match_variable-IsShort : (s : Text) → IsShort (length s) (match_variable s)
unfolding match_variable
match_variable-IsShort [] = tt
match_variable-IsShort (c ∷ s) = elim (Bool-cases (c == b'{')) [
  | inl e ↦ rw e (
      IsShort-suc (length s) (closed (match_name s))
        (closed-IsShort (length s) (match_name s) (match_name-IsShort s)))
  | inr e ↦ rw e (match_name-IsShort (c ∷ s))
]

found-IsShort :
    (c : ℕ) (s : Text) → IsShort (length s) (if c == b'$' then match_variable s else none)
found-IsShort c s = elim (Bool-cases (c == b'$')) [
  | inl e ↦ rw e (match_variable-IsShort s)
  | inr e ↦ rw e tt
]

module _ (host : Host) where
  -- A step depends on its continuation only where what is left is no longer.
  substituted_same :
      (o : Option (Text × Text)) (c : ℕ) (s : Text) (f g : Text → Checked Text)
      → IsShort (length s) o
      → ((t : Text) → length t ≤ length s → f t ≡ g t)
      → substituted host o c s f ≡ substituted host o c s g
  substituted_same none c s f g short same = ap (prefixed (c ∷ [])) (same s (omega arith))
  substituted_same (some (name, rest)) c s f g short same =
      ap (λ t. if truthy (host.getenv name) then prefixed (host.getenv name) t else invalid name)
        (same rest short)

  same_fuel :
      (f g : ℕ) (s : Text) → length s ≤ f → length s ≤ g → substitute host f s ≡ substitute host g s
  unfolding substitute
  same_fuel zero zero s hf hg = refl
  same_fuel zero (suc g) [] hf hg = refl
  same_fuel zero (suc g) (c ∷ s) hf hg = ground arith
  same_fuel (suc f) zero [] hf hg = refl
  same_fuel (suc f) zero (c ∷ s) hf hg = ground arith
  same_fuel (suc f) (suc g) [] hf hg = refl
  same_fuel (suc f) (suc g) (c ∷ s) hf hg =
      substituted_same (if c == b'$' then match_variable s else none) c s (substitute host f)
        (substitute host g) (found-IsShort c s)
        (λ t h. same_fuel f g t (omega (arith, h, hf)) (omega (arith, h, hg)))

  -- The substitution of variables ends within one unit of fuel for each character: more of it
  -- changes nothing.
  pub substitute-enough :
      (fuel : ℕ) (s : Text)
      → length s ≤ fuel
      → substitute host fuel s ≡ substitute host (length s) s
  substitute-enough fuel s h = same_fuel fuel (length s) s h (omega arith)
