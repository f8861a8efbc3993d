-- ===== src/Retry/Timers.antt =====
-- Which timer callbacks of the retry queue have an effect.
use symphony_python.Prelude.{
  ℕ, suc, ◌+◌, ◌≤◌, ◌≡◌, refl, inl, inr, ℤ, Bool, true, false, Option, none, some, arith,
  Option-cases, ap, ◌∙◌,
}
use symphony_python.Text.{Text, text_eq_refl, text_eq_iff}
use symphony_python.Dict.{has-get, get, has, dict_laws}
use symphony_python.Models.{RetryEntry}
use symphony_python.Retry.Queue.{
  RetryQueue, init, TimerFactory, DueHandler, is_some, is_current, deliver, delay_for,
  count_cancelled, replace, store, finish, drop_entry, cancel, arm, schedule, fire,
}

-- An issue has a generation exactly if it has an entry, and no generation is ahead of the counter.
pub record IsConsistent (q : RetryQueue) : Type 0 where
  pub paired : (k : Text) → has k q.generations ≡ has k q.entries
  pub bounded : (k : Text) (g : ℕ) → get k q.generations ≡ some g → g ≤ q.sequence

pub init-IsConsistent : (m : ℤ) → IsConsistent (init m)
unfolding init has get
init-IsConsistent m = record { paired = λ k. refl; bounded = λ k g h. cc }

drop_entry-IsConsistent :
    (k : Text) (q : RetryQueue) → IsConsistent q → IsConsistent (drop_entry k q).0
unfolding drop_entry
drop_entry-IsConsistent k q c = record {
  paired = λ j. simp dict_laws (ground (arith, c.paired j));
  bounded = λ j g. simp dict_laws (ground (arith, c.bounded j g));
}

count_cancelled-IsConsistent :
    (r : RetryQueue × Bool) → IsConsistent r.0 → IsConsistent (count_cancelled r).0
unfolding count_cancelled
count_cancelled-IsConsistent (q, true) c = record { paired = c.paired; bounded = c.bounded }
count_cancelled-IsConsistent (q, false) c = c

replace-IsConsistent : (r : RetryQueue × Bool) → IsConsistent r.0 → IsConsistent (replace r)
unfolding replace
replace-IsConsistent (q, true) c = record { paired = c.paired; bounded = c.bounded }
replace-IsConsistent (q, false) c = c

store-IsConsistent : (e : RetryEntry) (q : RetryQueue) → IsConsistent q → IsConsistent (store e q)
unfolding store
store-IsConsistent e q c = record {
  paired = λ j. simp dict_laws (ground (arith, c.paired j));
  bounded = λ j g. simp dict_laws (ground (arith, c.bounded j g));
}

has-store : (e : RetryEntry) (q : RetryQueue) → has e.issue_id (store e q).entries ≡ true
unfolding store
has-store e q = simp dict_laws (ground (arith, text_eq_refl e.issue_id))

finish-IsConsistent :
    (e : RetryEntry) (q : RetryQueue) (o : Option ℕ)
    → IsConsistent q
    → has e.issue_id q.entries ≡ true
    → IsConsistent (finish e q o).0
unfolding finish
finish-IsConsistent e q none c h = record {
  paired = λ j. simp dict_laws (ground (arith, c.paired j));
  bounded = λ j g. simp dict_laws (ground (arith, c.bounded j g));
}
finish-IsConsistent e q (some handle) c h = record {
  paired = λ j. simp dict_laws (ground (arith, c.paired j, text_eq_iff e.issue_id j));
  bounded = c.bounded;
}

module _ (factory : TimerFactory) where
  arm-IsConsistent :
      (d : ℕ) (e : RetryEntry) (q : RetryQueue)
      → IsConsistent q
      → IsConsistent (arm factory d e q).0
  unfolding arm
  arm-IsConsistent d e q c =
      finish-IsConsistent e (store e (replace (drop_entry e.issue_id q))) _
        (store-IsConsistent e _ (replace-IsConsistent _ (drop_entry-IsConsistent e.issue_id q c)))
        (has-store e _)

  -- Scheduling, whether it succeeds, is refused or loses its timer, keeps the queue consistent: an
  -- issue has a generation exactly if it has an entry, and no generation is ahead of the sequence.
  pub schedule-IsConsistent :
      (q : RetryQueue) (k : Text) (attempt : ℕ) (identifier error : Option Text) (delay_type : Text)
      (clock : ℕ)
      → IsConsistent q
      → IsConsistent (schedule factory q k attempt identifier error delay_type clock).0
  unfolding schedule
  schedule-IsConsistent q k attempt identifier error delay_type clock c =
      elim (Option-cases (delay_for q attempt delay_type)) [
        | inl e ↦ rw (e, schedule) c
        | inr (d, e) ↦ rw (e, schedule) (arm-IsConsistent d _ q c)
      ]

pub cancel-IsConsistent : (k : Text) (q : RetryQueue) → IsConsistent q → IsConsistent (cancel k q).0
unfolding cancel
cancel-IsConsistent k q c = count_cancelled-IsConsistent _ (drop_entry-IsConsistent k q c)

sequence-replace : (r : RetryQueue × Bool) → (replace r).sequence ≡ r.0.sequence
unfolding replace
sequence-replace (q, true) = refl
sequence-replace (q, false) = refl

sequence-drop_entry : (k : Text) (q : RetryQueue) → (drop_entry k q).0.sequence ≡ q.sequence
unfolding drop_entry
sequence-drop_entry k q = refl

generation-store :
    (e : RetryEntry) (q : RetryQueue)
    → get e.issue_id (store e q).generations ≡ some (suc q.sequence)
unfolding store
generation-store e q = simp dict_laws (ground (arith, text_eq_refl e.issue_id))

generations-count_cancelled :
    (r : RetryQueue × Bool) → (count_cancelled r).0.generations ≡ r.0.generations
unfolding count_cancelled
generations-count_cancelled (q, true) = refl
generations-count_cancelled (q, false) = refl

generations-cancel : (k : Text) (q : RetryQueue) → get k (cancel k q).0.generations ≡ none
unfolding cancel drop_entry
generations-cancel k q =
    rw (generations-count_cancelled (drop_entry k q))
      (simp dict_laws (ground (arith, text_eq_refl k)))

-- A timer with this count is armed for the entry, which is pending under it.
abbrev Armed : RetryEntry → ℕ → RetryQueue → Type 0
Armed e n q = (get e.issue_id q.generations ≡ some n) × (has e.issue_id q.entries ≡ true)

finish-Armed :
    (e : RetryEntry) (q : RetryQueue) (handle n : ℕ)
    → get e.issue_id q.generations ≡ some n
    → Armed e n (finish e q (some handle)).0
unfolding finish
finish-Armed e q handle n h = (h, simp dict_laws (ground (arith, text_eq_refl e.issue_id)))

module _ (factory : TimerFactory) where
  arm-Armed :
      (d : ℕ) (e : RetryEntry) (q : RetryQueue) (handle : ℕ)
      → factory d e.issue_id (suc q.sequence) ≡ some handle
      → Armed e (suc q.sequence) (arm factory d e q).0
  unfolding arm
  arm-Armed d e q handle h =
      let r = replace (drop_entry e.issue_id q) in
      let same : r.sequence ≡ q.sequence =
        sequence-replace (drop_entry e.issue_id q) ∙ sequence-drop_entry e.issue_id q in
      let stored : (store e r).sequence ≡ suc q.sequence = unfold store in ap suc same in
      rw (ap (factory d e.issue_id) stored ∙ h) (
        finish-Armed e (store e r) handle (suc q.sequence)
          (generation-store e r ∙ ap (λ n. some (suc n)) same))

is_some-has :
    (k : Text) (q : RetryQueue) → has k q.entries ≡ true → is_some (get k q.entries) ≡ true
is_some-has k q h = ground (arith, has-get k q.entries)

module _ (on_due : Option DueHandler) where
  fire_stale :
      (k : Text) (g : ℕ) (q : RetryQueue)
      → is_current (get k q.generations) g ≡ false
      → fire on_due k g q ≡ record q { dropped_stale_count = suc q.dropped_stale_count }
  unfolding fire
  fire_stale k g q h = rw h

  fire_live :
      (k : Text) (g : ℕ) (q : RetryQueue)
      → get k q.generations ≡ some g
      → has k q.entries ≡ true
      → fire on_due k g q ≡ deliver on_due k (record q { fired_count = suc q.fired_count })
  unfolding fire
  fire_live k g q h e = rw (h, is_some-has k q e) (ground arith)

  -- After a cancellation every timer that was ever armed for the issue is inert.
  pub fire-cancel :
      (k : Text) (g : ℕ) (q : RetryQueue)
      → let q' = (cancel k q).0 in
        fire on_due k g q' ≡ record q' { dropped_stale_count = suc q'.dropped_stale_count }
  fire-cancel k g q = fire_stale k g (cancel k q).0 (rw (generations-cancel k q) (ground arith))

  -- After a successful `schedule` for an issue, the callback of every timer that was armed for this
  -- issue before changes nothing but the stale count, and the callback of the new timer is
  -- delivered to the handler.
  pub fire-schedule :
      (factory : TimerFactory) (q : RetryQueue) (k : Text) (attempt : ℕ)
      (identifier error : Option Text) (delay_type : Text) (clock d handle : ℕ)
      → delay_for q attempt delay_type ≡ some d
      → factory d k (suc q.sequence) ≡ some handle
      → let q' = (schedule factory q k attempt identifier error delay_type clock).0 in
        ((g : ℕ)
          → g ≤ q.sequence
          → fire on_due k g q' ≡ record q' { dropped_stale_count = suc q'.dropped_stale_count })
        × (fire on_due k (suc q.sequence) q'
            ≡ deliver on_due k (record q' { fired_count = suc q'.fired_count }))
  unfolding schedule
  fire-schedule factory q k attempt identifier error delay_type clock d handle e f =
      let a =
        arm-Armed factory d
          (record {
            issue_id = k;
            identifier = identifier;
            attempt = attempt;
            due_at_ms = clock + d;
            timer_handle = none;
            error = error;
          })
          q handle f in
      rw (e, schedule)
        (
          (λ g h. fire_stale k g _ (rw (a.0) (ground arith))),
          fire_live k (suc q.sequence) _ a.0 a.1,
        )
