-- ===== src/Scheduling/Order.antt =====
-- The dispatch order of scheduling.py.
use mathlib.Core.List.{Perm}
use symphony_python.Prelude.{◌≡◌, ◌↔◌, refl, true, false, List, [], ◌∷◌, All, arith, keep}
use symphony_python.Text.{Text}
use symphony_python.Sorting.{
  StrictOrder, IsSorted, same, sorted-perm, sorted-IsSorted, sorted-stable,
}
use symphony_python.Models.{Issue}
use symphony_python.Scheduling.{
  SortKey, dispatch_sort_key, text_lt, key_lt, issue_lt, sort_for_dispatch,
}
use symphony_python.Scheduling.Precedence.{Precedes, issue_lt_iff}

text_lt_asym : (a b : Text) → text_lt a b ≡ true → text_lt b a ≡ false
unfolding text_lt
text_lt_asym [] [] h = ground arith
text_lt_asym [] (y ∷ ys) h = refl
text_lt_asym (x ∷ xs) [] h = ground arith
text_lt_asym (x ∷ xs) (y ∷ ys) h = ground (arith, text_lt_asym xs ys)

text_le_trans : (a b c : Text) → text_lt b a ≡ false → text_lt c b ≡ false → text_lt c a ≡ false
unfolding text_lt
text_le_trans [] [] [] h k = refl
text_le_trans [] [] (z ∷ zs) h k = refl
text_le_trans [] (y ∷ ys) [] h k = ground arith
text_le_trans [] (y ∷ ys) (z ∷ zs) h k = refl
text_le_trans (x ∷ xs) [] [] h k = ground arith
text_le_trans (x ∷ xs) [] (z ∷ zs) h k = ground arith
text_le_trans (x ∷ xs) (y ∷ ys) [] h k = ground arith
text_le_trans (x ∷ xs) (y ∷ ys) (z ∷ zs) h k = ground (arith, text_le_trans xs ys zs)

-- A key tuple compares as the list of its four numbers and the code points behind them.
abbrev flat : SortKey → Text
flat k = k.priority_bucket ∷ k.priority_value ∷ k.created_bucket ∷ k.created_epoch ∷ k.identifier

key_lt-flat : (a b : SortKey) → key_lt a b ≡ text_lt (flat a) (flat b)
unfolding key_lt text_lt
key_lt-flat a b = refl

issue_order : StrictOrder issue_lt
issue_order = record {
  asym = λ a b.
      rw
        (
          key_lt-flat (dispatch_sort_key a) (dispatch_sort_key b),
          key_lt-flat (dispatch_sort_key b) (dispatch_sort_key a),
        )
        (text_lt_asym (flat (dispatch_sort_key a)) (flat (dispatch_sort_key b)));
  le_trans = λ a b c.
      rw
        (
          key_lt-flat (dispatch_sort_key b) (dispatch_sort_key a),
          key_lt-flat (dispatch_sort_key c) (dispatch_sort_key b),
          key_lt-flat (dispatch_sort_key c) (dispatch_sort_key a),
        )
        (text_le_trans (flat (dispatch_sort_key a)) (flat (dispatch_sort_key b))
          (flat (dispatch_sort_key c)));
}

-- No issue precedes one that stands before it.
abbrev pub IsOrdered : List Issue → Type 0
IsOrdered [] = Unit
IsOrdered (x ∷ xs) = All (λ y. ¬ Precedes y x) xs × IsOrdered xs

All-not_before :
    (x : Issue) (xs : List Issue)
    → All (λ y. issue_lt y x ≡ false) xs
    → All (λ y. ¬ Precedes y x) xs
All-not_before x [] h = tt
All-not_before x (y ∷ ys) (h, hs) =
    ((λ p. let e = (issue_lt_iff y x).1 p in cc), All-not_before x ys hs)

IsSorted-IsOrdered : (issues : List Issue) → IsSorted issue_lt issues → IsOrdered issues
IsSorted-IsOrdered [] h = tt
IsSorted-IsOrdered (x ∷ xs) (h, hs) = (All-not_before x xs h, IsSorted-IsOrdered xs hs)

-- Sorting for dispatch rearranges the candidates so that none comes before one that precedes it: an
-- integer priority from 1 to 4 stands before a greater one and before anything else, at level
-- priorities the older issue stands first and one without a time of creation last, and then the
-- identifiers decide. The key test is exactly this order, and candidates that it does not tell
-- apart keep their input order.
pub sort_for_dispatch-IsOrdered :
    (issues : List Issue)
    → IsOrdered (sort_for_dispatch issues)
      × Perm (sort_for_dispatch issues) issues
      × ((k : Issue)
          → keep (same issue_lt k) (sort_for_dispatch issues) ≡ keep (same issue_lt k) issues)
      × ((a b : Issue) → (issue_lt a b ≡ true) ↔ Precedes a b)
unfolding sort_for_dispatch
sort_for_dispatch-IsOrdered issues = (
  IsSorted-IsOrdered _ (sorted-IsSorted issue_lt issue_order issues),
  sorted-perm issue_lt issues,
  λ k. sorted-stable issue_lt issue_order k issues,
  issue_lt_iff,
)
