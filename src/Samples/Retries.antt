-- ===== src/Samples/Retries.antt =====
-- Tests of the delays and of the retry queue.
use symphony_python.Prelude.{ℕ, suc, ◌*◌, ◌-◌, ◌^◌, ◌≤◌, min, max, ℤ, ◌≡◌, refl, Option, none, some}
use symphony_python.Text.{codes, text_eq}
use symphony_python.Retry.{base_retry_delay_ms, backoff_delay_ms, bit_length}
use symphony_python.Retry.Backoff.{backoff_delay_ms_lem}
use symphony_python.Retry.Queue.{
  RetryQueue, init, TimerFactory, DueHandler, delay_type_continuation, delay_for, schedule, cancel,
  fire, deliver, Handled,
}
use symphony_python.Retry.Timers.{
  IsConsistent, init-IsConsistent, schedule-IsConsistent, fire-cancel, fire-schedule,
}

third_failure : backoff_delay_ms (ℤ.pos 3) (ℤ.pos 300000) ≡ 40000
unfolding backoff_delay_ms bit_length
third_failure = refl

backoff_delay_ms_lem_example :
    backoff_delay_ms (ℤ.pos 7) (ℤ.pos 300000) ≡ min (base_retry_delay_ms * 2 ^ (max 7 1 - 1)) 300000
backoff_delay_ms_lem_example = backoff_delay_ms_lem (ℤ.pos 7) (ℤ.pos 300000)

abbrev queue : RetryQueue
queue = init (ℤ.pos 300000)

abbrev factory : TimerFactory
factory delay_ms issue_id generation = some generation

abbrev quiet_handler : Option DueHandler
quiet_handler = some (λ k q. (q, Handled.returned))

abbrev after_schedule : RetryQueue
after_schedule = (schedule factory queue (codes "a") 1 none none delay_type_continuation 50).0

delay_for_continuation : delay_for queue 1 delay_type_continuation ≡ some 1000
unfolding delay_for text_eq
delay_for_continuation = refl

schedule-IsConsistent_example : IsConsistent after_schedule
schedule-IsConsistent_example =
    schedule-IsConsistent factory queue (codes "a") 1 none none delay_type_continuation 50
      (init-IsConsistent (ℤ.pos 300000))

fire-cancel_example :
    fire quiet_handler (codes "a") 1 (cancel (codes "a") after_schedule).0
    ≡ record (cancel (codes "a") after_schedule).0 {
      dropped_stale_count = suc (cancel (codes "a") after_schedule).0.dropped_stale_count;
    }
fire-cancel_example = fire-cancel quiet_handler (codes "a") 1 after_schedule

fire-schedule_example :
    ((g : ℕ)
      → g ≤ queue.sequence
      → fire quiet_handler (codes "a") g after_schedule
        ≡ record after_schedule { dropped_stale_count = suc after_schedule.dropped_stale_count })
    × (fire quiet_handler (codes "a") (suc queue.sequence) after_schedule
        ≡ deliver quiet_handler
            (codes "a")
            (record after_schedule { fired_count = suc after_schedule.fired_count }))
unfolding init
fire-schedule_example =
    fire-schedule quiet_handler factory queue (codes "a") 1 none none delay_type_continuation 50
      1000 1 delay_for_continuation refl
