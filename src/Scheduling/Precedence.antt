-- ===== src/Scheduling/Precedence.antt =====
-- What the sort keys of scheduling.py order the issues by.
use symphony_python.Prelude.{
  ℕ, zero, suc, ◌<◌, ◌≤◌, ◌≡◌, ◌⊎◌, ◌↔◌, refl, ap, ◌∙◌, ℤ, Bool, true, ◌&&◌, ◌||◌, Option, none,
  some, arith, ltb, ◌==◌, inl, inr, Bool-cases, if◌then◌else◌,
}
use symphony_python.Models.{Issue, Priority, DateTime, aware, naive}
use symphony_python.Scheduling.{
  ranked, unranked, priority_rank, created_rank, dispatch_sort_key, text_lt, key_lt, issue_lt,
}

-- A priority is a rank if it is an integer from 1 to 4; anything else stands behind all of them.
abbrev pub place : Priority → ℕ
place Priority.absent = 5
place (Priority.flag b) = 5
place (Priority.level (ℤ.negsuc n)) = 5
place (Priority.level (ℤ.pos zero)) = 5
place (Priority.level (ℤ.pos (suc zero))) = 1
place (Priority.level (ℤ.pos (suc (suc zero)))) = 2
place (Priority.level (ℤ.pos (suc (suc (suc zero))))) = 3
place (Priority.level (ℤ.pos (suc (suc (suc (suc zero)))))) = 4
place (Priority.level (ℤ.pos (suc (suc (suc (suc (suc n))))))) = 5

abbrev pub instant : DateTime → ℕ
instant (aware t) = t
instant (naive t) = t

-- An issue was created before another one; no time of creation is later than any.
abbrev pub IsOlder : Option DateTime → Option DateTime → Type 0
IsOlder none b = ⊥
IsOlder (some s) none = Unit
IsOlder (some s) (some t) = instant s < instant t

abbrev pub IsCoeval : Option DateTime → Option DateTime → Type 0
IsCoeval none none = Unit
IsCoeval (some s) (some t) = instant s ≡ instant t
IsCoeval _ _ = ⊥

-- What comes first: the lower place, then the older issue, then the lesser identifier
abbrev pub Precedes : Issue → Issue → Type 0
Precedes a b =
    (place a.priority < place b.priority)
    ⊎ ((place a.priority ≡ place b.priority)
        × (IsOlder a.created_at b.created_at
            ⊎ (IsCoeval a.created_at b.created_at × (text_lt a.identifier b.identifier ≡ true))))

-- A rank is the pair of its bucket and its value; the first component of a pair decides.
abbrev pair_lt : ℕ × ℕ → ℕ × ℕ → Bool
pair_lt (a, x) (b, y) = ltb a b || ((a == b) && ltb x y)

abbrev pair_eq : ℕ × ℕ → ℕ × ℕ → Bool
pair_eq (a, x) (b, y) = (a == b) && (x == y)

-- The rank of a priority, by its place
abbrev rank_of : ℕ → ℕ × ℕ
rank_of n = if ltb n 5 then (ranked, n) else (unranked, 0)

priority_rank-place : (p : Priority) → priority_rank p ≡ rank_of (place p)
unfolding priority_rank
priority_rank-place Priority.absent = refl
priority_rank-place (Priority.flag b) = refl
priority_rank-place (Priority.level (ℤ.negsuc n)) = ground arith
priority_rank-place (Priority.level (ℤ.pos zero)) = refl
priority_rank-place (Priority.level (ℤ.pos (suc zero))) = refl
priority_rank-place (Priority.level (ℤ.pos (suc (suc zero)))) = refl
priority_rank-place (Priority.level (ℤ.pos (suc (suc (suc zero))))) = refl
priority_rank-place (Priority.level (ℤ.pos (suc (suc (suc (suc zero)))))) = refl
priority_rank-place (Priority.level (ℤ.pos (suc (suc (suc (suc (suc n))))))) = ground arith

place-max : (p : Priority) → (0 < place p) × (place p ≤ 5)
place-max Priority.absent = (omega arith, omega arith)
place-max (Priority.flag b) = (omega arith, omega arith)
place-max (Priority.level (ℤ.negsuc n)) = (omega arith, omega arith)
place-max (Priority.level (ℤ.pos zero)) = (omega arith, omega arith)
place-max (Priority.level (ℤ.pos (suc zero))) = (omega arith, omega arith)
place-max (Priority.level (ℤ.pos (suc (suc zero)))) = (omega arith, omega arith)
place-max (Priority.level (ℤ.pos (suc (suc (suc zero))))) = (omega arith, omega arith)
place-max (Priority.level (ℤ.pos (suc (suc (suc (suc zero)))))) = (omega arith, omega arith)
place-max (Priority.level (ℤ.pos (suc (suc (suc (suc (suc n))))))) = (omega arith, omega arith)

rank_of-lt : (m n : ℕ) → m ≤ 5 → n ≤ 5 → pair_lt (rank_of m) (rank_of n) ≡ ltb m n
rank_of-lt m n h k = ground arith

rank_of-eq : (m n : ℕ) → m ≤ 5 → n ≤ 5 → pair_eq (rank_of m) (rank_of n) ≡ (m == n)
rank_of-eq m n h k = ground arith

priority_lt :
    (p q : Priority) → pair_lt (priority_rank p) (priority_rank q) ≡ ltb (place p) (place q)
priority_lt p q =
    rw (priority_rank-place p, priority_rank-place q)
      (rank_of-lt (place p) (place q) (place-max p).1 (place-max q).1)

priority_eq : (p q : Priority) → pair_eq (priority_rank p) (priority_rank q) ≡ (place p == place q)
priority_eq p q =
    rw (priority_rank-place p, priority_rank-place q)
      (rank_of-eq (place p) (place q) (place-max p).1 (place-max q).1)

created_lt :
    (a b : Option DateTime) → (pair_lt (created_rank a) (created_rank b) ≡ true) ↔ IsOlder a b
unfolding created_rank
created_lt none none = (λ h. ground arith, λ h. elim h [ ])
created_lt none (some (aware t)) = (λ h. ground arith, λ h. elim h [ ])
created_lt none (some (naive t)) = (λ h. ground arith, λ h. elim h [ ])
created_lt (some (aware s)) none = (λ h. tt, λ h. refl)
created_lt (some (naive s)) none = (λ h. tt, λ h. refl)
created_lt (some (aware s)) (some (aware t)) = (λ h. ground arith, λ h. ground arith)
created_lt (some (aware s)) (some (naive t)) = (λ h. ground arith, λ h. ground arith)
created_lt (some (naive s)) (some (aware t)) = (λ h. ground arith, λ h. ground arith)
created_lt (some (naive s)) (some (naive t)) = (λ h. ground arith, λ h. ground arith)

created_eq :
    (a b : Option DateTime) → (pair_eq (created_rank a) (created_rank b) ≡ true) ↔ IsCoeval a b
unfolding created_rank
created_eq none none = (λ h. tt, λ h. refl)
created_eq none (some (aware t)) = (λ h. ground arith, λ h. elim h [ ])
created_eq none (some (naive t)) = (λ h. ground arith, λ h. elim h [ ])
created_eq (some (aware s)) none = (λ h. ground arith, λ h. elim h [ ])
created_eq (some (naive s)) none = (λ h. ground arith, λ h. elim h [ ])
created_eq (some (aware s)) (some (aware t)) = (λ h. ground arith, λ h. ground arith)
created_eq (some (aware s)) (some (naive t)) = (λ h. ground arith, λ h. ground arith)
created_eq (some (naive s)) (some (aware t)) = (λ h. ground arith, λ h. ground arith)
created_eq (some (naive s)) (some (naive t)) = (λ h. ground arith, λ h. ground arith)

regroup :
    (l e l' e' x : Bool) → (l || (e && (l' || (e' && x)))) ≡ ((l || (e && l')) || ((e && e') && x))
regroup l e l' e' x = ground arith

issue_lt-pairs :
    (a b : Issue)
    → issue_lt a b ≡ (
        ltb (place a.priority) (place b.priority)
        || ((place a.priority == place b.priority)
            && (pair_lt (created_rank a.created_at) (created_rank b.created_at)
                || (pair_eq (created_rank a.created_at) (created_rank b.created_at)
                    && text_lt a.identifier b.identifier))))
unfolding key_lt dispatch_sort_key
issue_lt-pairs a b =
    let (p, x) = priority_rank a.priority in
    let (q, y) = priority_rank b.priority in
    let (c, v) = created_rank a.created_at in
    let (d, w) = created_rank b.created_at in
    regroup (ltb p q) (p == q) (ltb x y) (x == y)
      (ltb c d || ((c == d) && (ltb v w || ((v == w) && text_lt a.identifier b.identifier))))
    ∙ rw (priority_lt a.priority b.priority, priority_eq a.priority b.priority)
        (ap
          (λ t.
            ltb (place a.priority) (place b.priority)
            || ((place a.priority == place b.priority) && t))
          (regroup (ltb c d) (c == d) (ltb v w) (v == w) (text_lt a.identifier b.identifier)))

-- The order of the sort keys is that of `Precedes`.
pub issue_lt_iff : (a b : Issue) → (issue_lt a b ≡ true) ↔ Precedes a b
issue_lt_iff a b =
    let older = created_lt a.created_at b.created_at in
    let coeval = created_eq a.created_at b.created_at in
    rw (issue_lt-pairs a b) (
      λ h. elim (Bool-cases (ltb (place a.priority) (place b.priority))) [
        | inl e ↦ inl (ground arith)
        | inr e ↦
            elim (Bool-cases (pair_lt (created_rank a.created_at) (created_rank b.created_at))) [
              | inl d ↦ inr (ground arith, inl (older.0 d))
              | inr d ↦ inr (ground arith, inr (coeval.0 (ground arith), ground arith))
            ]
      ],
      λ h. elim h [
        | inl less ↦ ground arith
        | inr (level, inl before) ↦ let d = older.1 before in ground arith
        | inr (level, inr (at_once, named)) ↦ let d = coeval.1 at_once in ground arith
      ],
    )
