-- ===== src/Agent/Deltas.antt =====
-- What stands under a delta key has no influence on the absolute totals.
use symphony_python.Prelude.{
  ℕ, zero, suc, ◌+◌, ◌≡◌, refl, Bool, true, false, not, Option, none, some, List, [], ◌∷◌, ◌++◌,
  map, arith, leb, all, or_else, first_some, if◌then◌else◌,
}
use symphony_python.Text.{Text, text_eq, text_eq_iff}
use symphony_python.Dict.{TextSet, member}
use symphony_python.Json.{Float, Value, Fields}
use symphony_python.Agent.Payload.{
  norm, delta_usage_keys, absolute_total_keys, type_keys, envelope_keys, as_mapping, maybe_cons,
  children, at_depth, walk, iter_nodes, max_walk_depth, max_walk_nodes,
}
use symphony_python.Agent.Usage.{
  absolute_in, is_token_usage_event, has_count_fields, envelopes, folded_get, mapping_of, count_in,
  coerce_count,
}

-- Two payloads that differ only in what stands under delta keys, at any depth
pub data DiffersInDeltas : Fields → Fields → Type 0 where
  ended : DiffersInDeltas Fields.end Fields.end
  same :
      (k : Text) (v : Value) {fs gs : Fields}
      → DiffersInDeltas fs gs
      → DiffersInDeltas (Fields.field k v fs) (Fields.field k v gs)
  delta :
      (k : Text) (v w : Value) {fs gs : Fields}
      → member (norm k) delta_usage_keys ≡ true
      → DiffersInDeltas fs gs
      → DiffersInDeltas (Fields.field k v fs) (Fields.field k w gs)
  nested :
      (k : Text) {xs ys fs gs : Fields}
      → DiffersInDeltas xs ys
      → DiffersInDeltas fs gs
      → DiffersInDeltas (Fields.field k (Value.obj xs) fs) (Fields.field k (Value.obj ys) gs)

pub DiffersInDeltas-self : (fs : Fields) → DiffersInDeltas fs fs
DiffersInDeltas-self Fields.end = ended
DiffersInDeltas-self (Fields.field k v fs) = same k v (DiffersInDeltas-self fs)

-- Both answers are missing, or they are related.
abbrev pub Both {ℓ} : {A : Type ℓ} → (A → A → Type 0) → Option A → Option A → Type 0
Both R none none = Unit
Both R (some a) (some b) = R a b
Both R _ _ = ⊥

abbrev pub AllBoth {ℓ} : {A : Type ℓ} → (A → A → Type 0) → List A → List A → Type 0
AllBoth R [] [] = Unit
AllBoth R (x ∷ xs) (y ∷ ys) = R x y × AllBoth R xs ys
AllBoth R _ _ = ⊥

abbrev pub Nodes : List Fields → List Fields → Type 0
Nodes = AllBoth DiffersInDeltas

module _ {ℓ} {A : Type ℓ} (R : A → A → Type 0) where
  pub Both-or_else :
      (a b c d : Option A) → Both R a b → Both R c d → Both R (or_else a c) (or_else b d)
  Both-or_else none none c d p q = q
  Both-or_else none (some b) c d p q = elim p [ ]
  Both-or_else (some a) none c d p q = elim p [ ]
  Both-or_else (some a) (some b) c d p q = p

  pub Both-if :
      (t : Bool) (a b : Option A)
      → Both R a b
      → Both R (if t then a else none) (if t then b else none)
  Both-if true a b p = p
  Both-if false a b p = tt

  Both-unless :
      (t : Bool) (a b : Option A)
      → Both R a b
      → Both R (if t then none else a) (if t then none else b)
  Both-unless true a b p = tt
  Both-unless false a b p = p

  AllBoth-append :
      (xs xs' ys ys' : List A)
      → AllBoth R xs xs'
      → AllBoth R ys ys'
      → AllBoth R (xs ++ ys) (xs' ++ ys')
  AllBoth-append [] [] ys ys' p q = q
  AllBoth-append [] (x ∷ xs') ys ys' p q = elim p [ ]
  AllBoth-append (x ∷ xs) [] ys ys' p q = elim p [ ]
  AllBoth-append (x ∷ xs) (x' ∷ xs') ys ys' p q = (p.0, AllBoth-append xs xs' ys ys' p.1 q)

pub Both-first_some :
    (f : Fields → Option Fields)
    → ((x y : Fields) → DiffersInDeltas x y → Both DiffersInDeltas (f x) (f y))
    → (xs ys : List Fields) → Nodes xs ys
    → Both DiffersInDeltas (first_some f xs) (first_some f ys)
unfolding first_some
Both-first_some f h [] [] p = tt
Both-first_some f h [] (y ∷ ys) p = elim p [ ]
Both-first_some f h (x ∷ xs) [] p = elim p [ ]
Both-first_some f h (x ∷ xs) (y ∷ ys) p =
    Both-or_else DiffersInDeltas (f x) (f y) _ _ (h x y p.0) (Both-first_some f h xs ys p.1)

Nodes-maybe_cons :
    (a b : Option Fields) (xs ys : List Fields)
    → Both DiffersInDeltas a b
    → Nodes xs ys
    → Nodes (maybe_cons a xs) (maybe_cons b ys)
Nodes-maybe_cons none none xs ys p q = q
Nodes-maybe_cons none (some b) xs ys p q = elim p [ ]
Nodes-maybe_cons (some a) none xs ys p q = elim p [ ]
Nodes-maybe_cons (some a) (some b) xs ys p q = (p, q)

as_mapping_self : (v : Value) → Both DiffersInDeltas (as_mapping v) (as_mapping v)
as_mapping_self (Value.obj fs) = DiffersInDeltas-self fs
as_mapping_self Value.null = tt
as_mapping_self (Value.bool b) = tt
as_mapping_self (Value.int i) = tt
as_mapping_self (Value.float x) = tt
as_mapping_self (Value.str s) = tt
as_mapping_self (Value.arr xs) = tt

-- A delta key is none of the other keys.
apart :
    (t : Text) (known deltas : TextSet)
    → all (λ d. not (member d known)) deltas ≡ true
    → member t deltas ≡ true
    → member t known ≡ false
unfolding all member
apart t known [] h m = cc
apart t known (d ∷ ds) h m = ground (arith, apart t known ds, text_eq_iff d t)

children-DiffersInDeltas :
    {fs gs : Fields} → DiffersInDeltas fs gs → Nodes (children fs) (children gs)
unfolding children
children-DiffersInDeltas ended = tt
children-DiffersInDeltas (same k v d) =
    Nodes-maybe_cons _ _ _ _
      (Both-unless DiffersInDeltas (member (norm k) delta_usage_keys) _ _ (as_mapping_self v))
      (children-DiffersInDeltas d)
children-DiffersInDeltas (delta k v w m d) = rw m (children-DiffersInDeltas d)
children-DiffersInDeltas (nested k x d) =
    Nodes-maybe_cons _ _ _ _
      (Both-unless DiffersInDeltas (member (norm k) delta_usage_keys) (some _) (some _) x)
      (children-DiffersInDeltas d)

abbrev SameDepth : Fields × ℕ → Fields × ℕ → Type 0
SameDepth p q = DiffersInDeltas p.0 q.0 × (p.1 ≡ q.1)

tagged :
    (n : ℕ) (xs ys : List Fields)
    → Nodes xs ys
    → AllBoth SameDepth (map (at_depth n) xs) (map (at_depth n) ys)
tagged n [] [] p = tt
tagged n [] (y ∷ ys) p = elim p [ ]
tagged n (x ∷ xs) [] p = elim p [ ]
tagged n (x ∷ xs) (y ∷ ys) p = ((p.0, refl), tagged n xs ys p.1)

Nodes-unless :
    (b : Bool) (xs ys : List Fields)
    → Nodes xs ys
    → Nodes (if b then [] else xs) (if b then [] else ys)
Nodes-unless true xs ys p = tt
Nodes-unless false xs ys p = p

Nodes-walk :
    (left : ℕ) (qs rs : List (Fields × ℕ))
    → AllBoth SameDepth qs rs
    → Nodes (walk left qs) (walk left rs)
unfolding walk
Nodes-walk zero qs rs p = tt
Nodes-walk (suc left) [] [] p = tt
Nodes-walk (suc left) [] (r ∷ rs) p = elim p [ ]
Nodes-walk (suc left) (q ∷ qs) [] p = elim p [ ]
Nodes-walk (suc left) ((x, n) ∷ qs) ((y, m) ∷ rs) ((d, e), p) =
    let next : AllBoth SameDepth
        (map (at_depth (n + 1)) (if leb max_walk_depth n then [] else children x))
        (map (at_depth (m + 1)) (if leb max_walk_depth m then [] else children y)) =
      rw e (
        tagged (m + 1) _ _
          (Nodes-unless (leb max_walk_depth m) _ _ (children-DiffersInDeltas d))) in
    (d, Nodes-walk left _ _ (AllBoth-append SameDepth qs rs _ _ p next))

pub Nodes-iter_nodes :
    {fs gs : Fields} → DiffersInDeltas fs gs → Nodes (iter_nodes fs) (iter_nodes gs)
unfolding iter_nodes
Nodes-iter_nodes d = Nodes-walk max_walk_nodes _ _ ((d, refl), tt)

absolute_apart :
    (t : Text) → member t delta_usage_keys ≡ true → member t absolute_total_keys ≡ false
unfolding all member text_eq
absolute_apart t = apart t absolute_total_keys delta_usage_keys refl

type_apart : (t : Text) → member t delta_usage_keys ≡ true → member t type_keys ≡ false
unfolding all member text_eq
type_apart t = apart t type_keys delta_usage_keys refl

envelope_apart : (t : Text) → member t delta_usage_keys ≡ true → member t envelope_keys ≡ false
unfolding all member text_eq
envelope_apart t = apart t envelope_keys delta_usage_keys refl

pub absolute_in-DiffersInDeltas :
    {fs gs : Fields}
    → DiffersInDeltas fs gs
    → Both DiffersInDeltas (absolute_in fs) (absolute_in gs)
unfolding absolute_in
absolute_in-DiffersInDeltas ended = tt
absolute_in-DiffersInDeltas (same k v d) =
    Both-or_else DiffersInDeltas _ _ _ _
      (Both-if DiffersInDeltas (member (norm k) absolute_total_keys) _ _ (as_mapping_self v))
      (absolute_in-DiffersInDeltas d)
absolute_in-DiffersInDeltas (delta k v w m d) =
    rw (absolute_apart (norm k) m) (absolute_in-DiffersInDeltas d)
absolute_in-DiffersInDeltas (nested k x d) =
    Both-or_else DiffersInDeltas _ _ _ _
      (Both-if DiffersInDeltas (member (norm k) absolute_total_keys) (some _) (some _) x)
      (absolute_in-DiffersInDeltas d)

pub envelopes-DiffersInDeltas :
    {fs gs : Fields} → DiffersInDeltas fs gs → Nodes (envelopes fs) (envelopes gs)
unfolding envelopes
envelopes-DiffersInDeltas ended = tt
envelopes-DiffersInDeltas (same k v d) =
    Nodes-maybe_cons _ _ _ _
      (Both-if DiffersInDeltas (member (norm k) envelope_keys) _ _ (as_mapping_self v))
      (envelopes-DiffersInDeltas d)
envelopes-DiffersInDeltas (delta k v w m d) =
    rw (envelope_apart (norm k) m) (envelopes-DiffersInDeltas d)
envelopes-DiffersInDeltas (nested k x d) =
    Nodes-maybe_cons _ _ _ _
      (Both-if DiffersInDeltas (member (norm k) envelope_keys) (some _) (some _) x)
      (envelopes-DiffersInDeltas d)

pub usage_event-DiffersInDeltas :
    {fs gs : Fields} → DiffersInDeltas fs gs → is_token_usage_event fs ≡ is_token_usage_event gs
unfolding is_token_usage_event
usage_event-DiffersInDeltas ended = refl
usage_event-DiffersInDeltas (same k v d) = rw (usage_event-DiffersInDeltas d) refl
usage_event-DiffersInDeltas (delta k v w m d) =
    rw (type_apart (norm k) m) (usage_event-DiffersInDeltas d)
usage_event-DiffersInDeltas (nested k x d) = rw (usage_event-DiffersInDeltas d) refl

pub has_count_fields-DiffersInDeltas :
    {fs gs : Fields} → DiffersInDeltas fs gs → has_count_fields fs ≡ has_count_fields gs
unfolding has_count_fields
has_count_fields-DiffersInDeltas ended = refl
has_count_fields-DiffersInDeltas (same k v d) = rw (has_count_fields-DiffersInDeltas d) refl
has_count_fields-DiffersInDeltas (delta k v w m d) = rw (has_count_fields-DiffersInDeltas d) refl
has_count_fields-DiffersInDeltas (nested k x d) = rw (has_count_fields-DiffersInDeltas d) refl

-- Two values that read alike
abbrev pub ReadsAlike : Value → Value → Type 0
ReadsAlike v w =
    Both DiffersInDeltas (as_mapping v) (as_mapping w)
    × ((parse_float : Text → Option Float)
        → coerce_count parse_float v ≡ coerce_count parse_float w)

pub mapping_alike :
    (a b : Option Value) → Both ReadsAlike a b → Both DiffersInDeltas (mapping_of a) (mapping_of b)
mapping_alike none none p = tt
mapping_alike none (some w) p = elim p [ ]
mapping_alike (some v) none p = elim p [ ]
mapping_alike (some v) (some w) p = p.0

pub count_alike :
    (parse_float : Text → Option Float) (a b : Option Value)
    → Both ReadsAlike a b
    → count_in parse_float a ≡ count_in parse_float b
count_alike parse_float none none p = refl
count_alike parse_float none (some w) p = elim p [ ]
count_alike parse_float (some v) none p = elim p [ ]
count_alike parse_float (some v) (some w) p = p.1 parse_float

not_delta :
    (k name : Text)
    → member (norm k) delta_usage_keys ≡ true
    → member name delta_usage_keys ≡ false
    → text_eq (norm k) name ≡ false
not_delta k name m n = ground (arith, text_eq_iff (norm k) name)

pub folded_get-DiffersInDeltas :
    {fs gs : Fields} (name : Text)
    → member name delta_usage_keys ≡ false
    → DiffersInDeltas fs gs
    → Both ReadsAlike (folded_get name fs) (folded_get name gs)
unfolding folded_get coerce_count
folded_get-DiffersInDeltas name n ended = tt
folded_get-DiffersInDeltas name n (same k v d) =
    Both-or_else ReadsAlike _ _ _ _ (folded_get-DiffersInDeltas name n d)
      (Both-if ReadsAlike (text_eq (norm k) name) (some v) (some v) (as_mapping_self v, λ p. refl))
folded_get-DiffersInDeltas name n (delta k v w m d) =
    Both-or_else ReadsAlike _ _ _ _ (folded_get-DiffersInDeltas name n d)
      (rw (not_delta k name m n) tt)
folded_get-DiffersInDeltas name n (nested k x d) =
    Both-or_else ReadsAlike _ _ _ _ (folded_get-DiffersInDeltas name n d)
      (Both-if ReadsAlike (text_eq (norm k) name) (some _) (some _) (x, λ p. refl))
