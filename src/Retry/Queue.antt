-- ===== src/Retry/Queue.antt =====
-- `RetryQueue` of retry.py. The clock's reading, the timer factory and the due handler are
-- arguments; a log of the handles on which `cancel()` was called stands for that effect.
use symphony_python.Prelude.{
  ℕ, suc, ◌+◌, ℤ, Bool, true, false, not, Option, none, some, List, [], ◌∷◌, ◌==◌, if◌then◌else◌,
}
use symphony_python.Text.{Text, text_eq, codes}
use symphony_python.Dict.{Dict, get, put, remove, keys}
use symphony_python.Models.{RetryEntry}
use symphony_python.Retry.{continuation_delay_ms, backoff_delay_ms}

abbrev pub delay_type_continuation : Text
delay_type_continuation = codes "continuation"

abbrev pub delay_type_failure : Text
delay_type_failure = codes "failure"

pub record RetryQueue : Type 0 where
  pub entries : Dict RetryEntry
  pub max_backoff_ms : ℤ
  pub sequence : ℕ
  pub generations : Dict ℕ
  pub pending : List ℕ
  pub scheduled_count : ℕ
  pub replaced_count : ℕ
  pub cancelled_count : ℕ
  pub fired_count : ℕ
  pub dropped_stale_count : ℕ
  pub handler_error_count : ℕ
  pub cancelled_handles : List ℕ

unfoldable pub init : ℤ → RetryQueue
init max_backoff_ms = record {
  entries = [];
  max_backoff_ms = max_backoff_ms;
  sequence = 0;
  generations = [];
  pending = [];
  scheduled_count = 0;
  replaced_count = 0;
  cancelled_count = 0;
  fired_count = 0;
  dropped_stale_count = 0;
  handler_error_count = 0;
  cancelled_handles = [];
}

-- `none` is the `ValueError`.
unfoldable pub delay_for : RetryQueue → ℕ → Text → Option ℕ
delay_for q attempt delay_type =
    if text_eq delay_type delay_type_continuation
    then some continuation_delay_ms
    else if text_eq delay_type delay_type_failure
    then some (backoff_delay_ms (ℤ.pos attempt) q.max_backoff_ms)
    else none

-- `_cancel_handle`
abbrev pub cancel_handle : Option ℕ → List ℕ → List ℕ
cancel_handle none log = log
cancel_handle (some h) log = h ∷ log

abbrev handle_of : Option RetryEntry → Option ℕ
handle_of none = none
handle_of (some e) = e.timer_handle

abbrev pub is_some {ℓ} : {A : Type ℓ} → Option A → Bool
is_some none = false
is_some (some a) = true

-- `_cancel`, which reports whether an entry was there; `pop` has the same effect.
unfoldable pub drop_entry : Text → RetryQueue → RetryQueue × Bool
drop_entry issue_id q =
    let entry = get issue_id q.entries in
    (
      record q {
        entries = remove issue_id q.entries;
        generations = remove issue_id q.generations;
        cancelled_handles = cancel_handle (handle_of entry) q.cancelled_handles;
      },
      is_some entry,
    )

-- `pop`
unfoldable pub pop : Text → RetryQueue → RetryQueue × Option RetryEntry
unfolding drop_entry
pop issue_id q = ((drop_entry issue_id q).0, get issue_id q.entries)

-- A dropped entry is counted as cancelled.
unfoldable pub count_cancelled : RetryQueue × Bool → RetryQueue × Bool
count_cancelled (q, true) = (record q { cancelled_count = suc q.cancelled_count }, true)
count_cancelled (q, false) = (q, false)

-- `cancel`
unfoldable pub cancel : Text → RetryQueue → RetryQueue × Bool
cancel issue_id q = count_cancelled (drop_entry issue_id q)

-- `cancel_all`, over the keys at the start
unfoldable pub cancel_each : List Text → RetryQueue → RetryQueue × ℕ
cancel_each [] q = (q, 0)
cancel_each (issue_id ∷ rest) q =
    let (q', existed) = cancel issue_id q in
    let (q'', count) = cancel_each rest q' in (q'', if existed then suc count else count)

unfoldable pub cancel_all : RetryQueue → RetryQueue × ℕ
cancel_all q = cancel_each (keys q.entries) q

-- How `schedule` ends: with the entry, with the `ValueError`, or with what the factory raised.
pub data Scheduled : Type 0 where
  scheduled : RetryEntry → Scheduled
  unknown_delay_type : Scheduled
  timer_failed : Scheduled

abbrev pub TimerFactory : Type 0
TimerFactory = ℕ → Text → ℕ → Option ℕ

-- The entry and its generation are stored before the timer is armed.
unfoldable pub store : RetryEntry → RetryQueue → RetryQueue
store entry q = record q {
  sequence = suc q.sequence;
  entries = put entry.issue_id entry q.entries;
  generations = put entry.issue_id (suc q.sequence) q.generations;
}

-- A replaced entry is counted.
unfoldable pub replace : RetryQueue × Bool → RetryQueue
replace (q, true) = record q { replaced_count = suc q.replaced_count }
replace (q, false) = q

-- The result of the timer factory decides between the entry and the roll-back.
unfoldable pub finish : RetryEntry → RetryQueue → Option ℕ → RetryQueue × Scheduled
finish entry q none = (
  record q {
    entries = remove entry.issue_id q.entries;
    generations = remove entry.issue_id q.generations;
  },
  timer_failed,
)
finish entry q (some handle) =
    let armed = record entry { timer_handle = some handle } in
    (
      record q {
        entries = put entry.issue_id armed q.entries;
        scheduled_count = suc q.scheduled_count;
      },
      scheduled armed,
    )

module _ (timer_factory : TimerFactory) where
  unfoldable pub arm : ℕ → RetryEntry → RetryQueue → RetryQueue × Scheduled
  arm delay_ms entry q =
      let q' = store entry (replace (drop_entry entry.issue_id q)) in
      finish entry q' (timer_factory delay_ms entry.issue_id q'.sequence)

  unfoldable pub schedule :
      RetryQueue → Text → ℕ → Option Text → Option Text → Text → ℕ → RetryQueue × Scheduled
  schedule q issue_id attempt identifier error delay_type clock =
      elim (delay_for q attempt delay_type) [
        | none ↦ (q, unknown_delay_type)
        | some delay_ms ↦
            arm delay_ms
              (record {
                issue_id = issue_id;
                identifier = identifier;
                attempt = attempt;
                due_at_ms = clock + delay_ms;
                timer_handle = none;
                error = error;
              })
              q
      ]

  unfoldable pub schedule_continuation :
      RetryQueue → Text → Option Text → ℕ → RetryQueue × Scheduled
  schedule_continuation q issue_id identifier clock =
      schedule q issue_id 1 identifier none delay_type_continuation clock

  unfoldable pub schedule_failure :
      RetryQueue → Text → ℕ → Option Text → Option Text → ℕ → RetryQueue × Scheduled
  schedule_failure q issue_id attempt identifier error clock =
      schedule q issue_id attempt identifier error delay_type_failure clock

-- What a due handler does: it may change the queue, and returns, raises, or starts a task.
pub data Handled : Type 0 where
  returned raised : Handled
  awaitable : ℕ → Handled

abbrev pub DueHandler : Type 0
DueHandler = Text → RetryQueue → RetryQueue × Handled

abbrev note_handled : RetryQueue × Handled → RetryQueue
note_handled (q, Handled.returned) = q
note_handled (q, Handled.raised) = record q { handler_error_count = suc q.handler_error_count }
note_handled (q, Handled.awaitable task) = record q { pending = task ∷ q.pending }

abbrev pub deliver : Option DueHandler → Text → RetryQueue → RetryQueue
deliver none issue_id q = q
deliver (some on_due) issue_id q = note_handled (on_due issue_id q)

-- `generations.get(issue_id) != generation`
abbrev pub is_current : Option ℕ → ℕ → Bool
is_current none generation = false
is_current (some g) generation = g == generation

-- `_fire`: the callback that a timer was armed with
unfoldable pub fire : Option DueHandler → Text → ℕ → RetryQueue → RetryQueue
fire on_due issue_id generation q =
    if not (is_current (get issue_id q.generations) generation)
    then record q { dropped_stale_count = suc q.dropped_stale_count }
    else if not (is_some (get issue_id q.entries))
    then record q { dropped_stale_count = suc q.dropped_stale_count }
    else deliver on_due issue_id (record q { fired_count = suc q.fired_count })
