-- ===== src/Trackers/Unique.antt =====
-- The records of trackers/memory.py stay unique, and a record that is removed is hidden.
use symphony_python.Prelude.{
  ◌≡◌, refl, sym, subst, ◌∙◌, Bool, true, false, ◌&&◌, ◌||◌, Option, none, some, List, [], ◌∷◌,
  ◌++◌, any, All, inl, inr, Bool-cases, arith,
}
use symphony_python.Text.{Text, codes, text_eq_refl, text_eq_iff}
use symphony_python.Json.{Fields}
use symphony_python.Trackers.Distinct.{opt_eq-eq}
use symphony_python.Trackers.Memory.{
  Memory, clashes, add_record, remove, dispatch_id, in_scope, opt_eq, text_at, find_in, is_target,
  remove_in, both_there,
}

-- There is no text that both are.
abbrev ShareNone : Option Text → Option Text → Type 0
ShareNone a b = (v : Text) → a ≡ some v → b ≡ some v → ⊥

-- Two records of one scope (which may be missing in both) share neither a dispatch id nor an
-- identifier.
abbrev pub AreApart : Fields → Fields → Type 0
AreApart later r =
    text_at (codes "scope") later ≡ text_at (codes "scope") r
    → ShareNone (dispatch_id later) (dispatch_id r)
      × ShareNone (text_at (codes "identifier") later) (text_at (codes "identifier") r)

-- Any two of the records are apart.
abbrev pub AreUnique : List Fields → Type 0
AreUnique [] = Unit
AreUnique (r ∷ records) = All (λ later. AreApart later r) records × AreUnique records

opt_eq_refl : (a b : Option Text) → a ≡ b → opt_eq b a ≡ true
opt_eq_refl none none h = refl
opt_eq_refl none (some t) h = ground arith
opt_eq_refl (some s) none h = ground arith
opt_eq_refl (some s) (some t) h = ground (arith, text_eq_iff t s)

both_there-shared : (a b : Option Text) (v : Text) → a ≡ some v → b ≡ some v → both_there a b ≡ true
both_there-shared a b v h k = rw (h, k, text_eq_refl v) refl

or_left : (a b : Bool) → a ≡ true → (a || b) ≡ true
or_left a b h = ground arith

or_right : (a b : Bool) → b ≡ true → (a || b) ≡ true
or_right a b h = ground arith

clashes-AreApart : (fresh r : Fields) → clashes fresh r ≡ false → AreApart fresh r
unfolding clashes
clashes-AreApart fresh r h same =
    let scoped = opt_eq_refl (text_at (codes "scope") fresh) (text_at (codes "scope") r) same in
    let id = both_there (dispatch_id fresh) (dispatch_id r) in
    let named = both_there (text_at (codes "identifier") fresh) (text_at (codes "identifier") r) in
    (
      λ v a b.
          let shared =
            or_left id named (both_there-shared (dispatch_id fresh) (dispatch_id r) v a b) in
          ground arith,
      λ v a b.
          let shared = or_right id named (
            both_there-shared (text_at (codes "identifier") fresh) (text_at (codes "identifier") r)
              v a b) in
          ground arith,
    )

any-first :
    (fresh r : Fields) (records : List Fields)
    → any (clashes fresh) (r ∷ records) ≡ false
    → clashes fresh r ≡ false
unfolding any
any-first fresh r records h = ground arith

any-later :
    (fresh r : Fields) (records : List Fields)
    → any (clashes fresh) (r ∷ records) ≡ false
    → any (clashes fresh) records ≡ false
unfolding any
any-later fresh r records h = ground arith

All-snoc :
    (r fresh : Fields) (records : List Fields)
    → All (λ later. AreApart later r) records
    → AreApart fresh r
    → All (λ later. AreApart later r) (records ++ fresh ∷ [])
All-snoc r fresh [] h free = (free, tt)
All-snoc r fresh (x ∷ records) (h, hs) free = (h, All-snoc r fresh records hs free)

AreUnique-append :
    (fresh : Fields) (records : List Fields)
    → AreUnique records
    → any (clashes fresh) records ≡ false
    → AreUnique (records ++ fresh ∷ [])
unfolding any
AreUnique-append fresh [] h free = (tt, tt)
AreUnique-append fresh (r ∷ records) (h, hs) free = (
  All-snoc r fresh records h (clashes-AreApart fresh r (any-first fresh r records free)),
  AreUnique-append fresh records hs (any-later fresh r records free),
)

and_both : (a b : Bool) → (a && b) ≡ true → (a ≡ true) × (b ≡ true)
and_both a b h = ground arith

-- A record that the two share the scope and the id with
IsUnder : Text → Text → Fields → Type 0
unfolding in_scope
IsUnder scope id r = (text_at (codes "scope") r ≡ some scope) × (dispatch_id r ≡ some id)

IsUnder-match :
    (scope id : Text) (r : Fields) → is_target (some scope) id r ≡ true → IsUnder scope id r
unfolding in_scope IsUnder is_target
IsUnder-match scope id r h =
    let (here, named) = and_both (in_scope (some scope) r) (opt_eq (dispatch_id r) (some id)) h in
    (opt_eq-eq (text_at (codes "scope") r) scope here, opt_eq-eq (dispatch_id r) id named)

IsUnder-AreApart :
    (scope id : Text) (r x : Fields) → IsUnder scope id r → IsUnder scope id x → AreApart x r → ⊥
unfolding IsUnder
IsUnder-AreApart scope id r x (r_scope, r_id) (x_scope, x_id) apart =
    (apart (x_scope ∙ sym r_scope)).0 id x_id r_id

find_in-hidden :
    (scope id : Text) (r : Fields) (records : List Fields)
    → IsUnder scope id r
    → All (λ later. AreApart later r) records
    → find_in (some scope) id records ≡ none
unfolding find_in
find_in-hidden scope id r [] under free = refl
find_in-hidden scope id r (x ∷ records) under (h, hs) =
    elim (Bool-cases (is_target (some scope) id x)) [
      | inr e ↦ rw e (find_in-hidden scope id r records under hs)
      | inl e ↦ elim (IsUnder-AreApart scope id r x under (IsUnder-match scope id x e) h) [ ]
    ]

find_in-remove_in :
    (scope : Text) (id : Text) (records : List Fields)
    → AreUnique records
    → find_in (some scope) id (remove_in (some scope) id records) ≡ none
unfolding find_in remove_in
find_in-remove_in scope id [] h = refl
find_in-remove_in scope id (r ∷ records) (h, hs) = elim (Bool-cases (is_target (some scope) id r)) [
  | inl e ↦ rw e (find_in-hidden scope id r records (IsUnder-match scope id r e) h)
  | inr e ↦ rw (e, e) (find_in-remove_in scope id records hs)
]

added :
    (fresh : Fields) (memory after : Memory)
    → any (clashes fresh) memory.records ≡ false
    → add_record fresh memory ≡ some after
    → record memory { records = memory.records ++ fresh ∷ [] } ≡ after
unfolding add_record
added fresh memory after free h = ground arith

-- Adding a record keeps the records unique: if no two of one scope share a dispatch id or an
-- identifier, then neither do they with the new record among them.
pub add_record-AreUnique :
    (fresh : Fields) (memory after : Memory)
    → AreUnique memory.records
    → add_record fresh memory ≡ some after
    → AreUnique after.records
unfolding add_record
add_record-AreUnique fresh memory after unique h =
    elim (Bool-cases (any (clashes fresh) memory.records)) [
      | inl e ↦ ground arith
      | inr e ↦
          subst (λ m. AreUnique m.records) (added fresh memory after e h)
            (AreUnique-append fresh memory.records unique e)
    ]

-- A record that is removed from a configured scope is hidden from then on, if the records are
-- unique.
pub remove-hidden :
    (scope id : Text) (memory : Memory)
    → memory.scope ≡ some scope
    → AreUnique memory.records
    → find_in (some scope) id (remove id memory).records ≡ none
unfolding remove
remove-hidden scope id memory scoped unique =
    rw scoped (find_in-remove_in scope id memory.records unique)
