-- ===== src/Dict.antt =====
-- Python's `dict` with string keys, in insertion order, and its `set` of strings.
use symphony_python.Prelude.{
  suc, ◌≤◌, ◌≡◌, refl, Bool, true, false, not, ◌&&◌, ◌||◌, Option, none, some, List, [], ◌∷◌, arith,
  length, if◌then◌else◌,
}
use symphony_python.Text.{Text, text_eq, text_eq_iff}

abbrev pub Dict {ℓ} : Type ℓ → Type ℓ
Dict V = List (Text × V)

module _ {ℓ} {V : Type ℓ} where
  -- `d.get(k)`
  unfoldable pub get : Text → Dict V → Option V
  get k [] = none
  get k ((j, v) ∷ d) = if text_eq j k then some v else get k d

  -- `k in d`
  unfoldable pub has : Text → Dict V → Bool
  has k [] = false
  has k ((j, v) ∷ d) = text_eq j k || has k d

  -- `d[k] = v`: a known key keeps its place, a new one goes to the end
  unfoldable pub put : Text → V → Dict V → Dict V
  put k v [] = (k, v) ∷ []
  put k v ((j, w) ∷ d) = if text_eq j k then (k, v) ∷ d else (j, w) ∷ put k v d

  -- `d.pop(k, None)`
  unfoldable pub remove : Text → Dict V → Dict V
  remove k [] = []
  remove k ((j, v) ∷ d) = let rest = remove k d in if text_eq j k then rest else (j, v) ∷ rest

  -- `list(d)`
  unfoldable pub keys : Dict V → List Text
  keys [] = []
  keys ((j, v) ∷ d) = j ∷ keys d

  -- `d.values()`
  unfoldable pub values : Dict V → List V
  values [] = []
  values ((j, v) ∷ d) = v ∷ values d

  pub get-put :
      (k j : Text) (v : V) (d : Dict V)
      → get j (put k v d) ≡ (if text_eq k j then some v else get j d)
  unfolding get put
  get-put k j v [] = refl
  get-put k j v ((i, w) ∷ d) =
      ground (arith, text_eq_iff k j, text_eq_iff i k, text_eq_iff i j, get-put k j v d)

  pub get-remove :
      (k j : Text) (d : Dict V) → get j (remove k d) ≡ (if text_eq k j then none else get j d)
  unfolding get remove
  get-remove k j [] = ground arith
  get-remove k j ((i, w) ∷ d) =
      ground (arith, text_eq_iff k j, text_eq_iff i k, text_eq_iff i j, get-remove k j d)

  pub has-put : (k j : Text) (v : V) (d : Dict V) → has j (put k v d) ≡ (text_eq k j || has j d)
  unfolding has put
  has-put k j v [] = refl
  has-put k j v ((i, w) ∷ d) =
      ground (arith, text_eq_iff k j, text_eq_iff i k, text_eq_iff i j, has-put k j v d)

  pub has-remove : (k j : Text) (d : Dict V) → has j (remove k d) ≡ (not (text_eq k j) && has j d)
  unfolding has remove
  has-remove k j [] = ground arith
  has-remove k j ((i, w) ∷ d) =
      ground (arith, text_eq_iff k j, text_eq_iff i k, text_eq_iff i j, has-remove k j d)

  -- `get` finds exactly the keys that `has` reports.
  pub has-get : (k : Text) (d : Dict V) → has k d ≡ elim (get k d) [ none ↦ false | some _ ↦ true ]
  unfolding get has
  has-get k [] = refl
  has-get k ((i, w) ∷ d) = ground (arith, has-get k d)

  pub length-put_new :
      (k : Text) (v : V) (d : Dict V) → has k d ≡ false → length (put k v d) ≡ suc (length d)
  unfolding has put
  length-put_new k v [] h = refl
  length-put_new k v ((i, w) ∷ d) h = ground (arith, length-put_new k v d)

  pub length-put_old :
      (k : Text) (v : V) (d : Dict V) → has k d ≡ true → length (put k v d) ≡ length d
  unfolding has put
  length-put_old k v [] h = ground arith
  length-put_old k v ((i, w) ∷ d) h = ground (arith, length-put_old k v d)

  pub remove-absent : (k : Text) (d : Dict V) → has k d ≡ false → remove k d ≡ d
  unfolding has remove
  remove-absent k [] h = refl
  remove-absent k ((i, w) ∷ d) h = ground (arith, remove-absent k d)

  pub length-remove-le : (k : Text) (d : Dict V) → length (remove k d) ≤ length d
  unfolding remove
  length-remove-le k [] = omega arith
  length-remove-le k ((i, w) ∷ d) = ground (arith, length-remove-le k d)

-- A `set` of strings, of which the program asks membership and size only.
abbrev pub TextSet : Type 0
TextSet = List Text

-- `k in s`
unfoldable pub member : Text → TextSet → Bool
member k [] = false
member k (j ∷ s) = text_eq j k || member k s

-- `s.add(k)`
unfoldable pub add : Text → TextSet → TextSet
add k s = if member k s then s else k ∷ s

-- `s.discard(k)`
unfoldable pub discard : Text → TextSet → TextSet
discard k [] = []
discard k (j ∷ s) = let rest = discard k s in if text_eq j k then rest else j ∷ rest

pub member-add : (k j : Text) (s : TextSet) → member j (add k s) ≡ (text_eq k j || member j s)
unfolding add member
member-add k j s = ground (arith, text_eq_iff k j)

pub member-discard :
    (k j : Text) (s : TextSet) → member j (discard k s) ≡ (not (text_eq k j) && member j s)
unfolding discard member
member-discard k j [] = ground arith
member-discard k j (i ∷ s) =
    ground (arith, text_eq_iff k j, text_eq_iff i k, text_eq_iff i j, member-discard k j s)

-- A key among the keys of a dictionary is one that it has.
pub member-keys {ℓ} : {V : Type ℓ} (k : Text) (d : Dict V) → member k (keys d) ≡ has k d
unfolding member keys has
member-keys k [] = refl
member-keys k ((j, v) ∷ d) = ground (arith, member-keys k d)

pub ruleset dict_laws = (get-put, get-remove, has-put, has-remove, member-add, member-discard)
