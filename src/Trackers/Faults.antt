-- ===== src/Trackers/Faults.antt =====
-- The fault injection of trackers/memory.py. The use counts of a fault are natural numbers.
use symphony_python.Prelude.{ℕ, ◌-◌, Bool, true, false, Option, none, some, leb, if◌then◌else◌}
use symphony_python.Text.{Text}

-- The errors of trackers that the adapter raises, with the details that a caller can act on
pub data TrackerError : Type 0 where
  closed_error : TrackerError
  request_error : Text → TrackerError
  status_error : ℕ → TrackerError
  rate_limited_error : Option ℕ → TrackerError
  pagination_error : ℕ → TrackerError
  response_error : Text → TrackerError

-- `exc.retryable`, which a response error leaves open
unfoldable pub retryable : TrackerError → Option Bool
retryable TrackerError.closed_error = some false
retryable (TrackerError.request_error message) = some true
retryable (TrackerError.status_error status) = some (leb 500 status)
retryable (TrackerError.rate_limited_error after) = some true
retryable (TrackerError.pagination_error page) = some true
retryable (TrackerError.response_error field_name) = none

pub record FaultInjector : Type 0 where
  pub request_fault : Option Text
  pub status_code : Option ℕ
  pub rate_limited : Bool
  pub retry_after_ms : Option ℕ
  pub pagination_after_pages : Option ℕ
  pub remaining : Option ℕ

-- `FaultInjector()`, and what `clear` leaves
abbrev pub no_faults : FaultInjector
no_faults = record {
  request_fault = none;
  status_code = none;
  rate_limited = false;
  retry_after_ms = none;
  pagination_after_pages = none;
  remaining = none;
}

abbrev burned : FaultInjector → Option ℕ → FaultInjector
burned faults none = faults
burned faults (some n) =
    if leb (n - 1) 0 then no_faults else record faults { remaining = some (n - 1) }

-- `consume`
unfoldable pub consume : FaultInjector → FaultInjector
consume faults = burned faults faults.remaining

abbrev raised_by : Option Text → Option ℕ → Bool → Option ℕ → Option TrackerError
raised_by (some message) status limited after = some (TrackerError.request_error message)
raised_by none (some status) limited after = some (TrackerError.status_error status)
raised_by none none true after = some (TrackerError.rate_limited_error after)
raised_by none none false after = none

-- The error that `check` raises, if any
unfoldable pub fault_of : FaultInjector → Option TrackerError
fault_of faults =
    raised_by faults.request_fault faults.status_code faults.rate_limited faults.retry_after_ms

abbrev pub checked : FaultInjector → Option TrackerError → FaultInjector × Option TrackerError
checked faults none = (faults, none)
checked faults (some e) = (consume faults, some e)

-- `check`
unfoldable pub check : FaultInjector → FaultInjector × Option TrackerError
check faults = checked faults (fault_of faults)

-- `fail_requests`, `fail_status`, `rate_limit` and `fail_pagination`
unfoldable pub fail_requests : Text → Option ℕ → FaultInjector
fail_requests message times = record no_faults { request_fault = some message; remaining = times }

unfoldable pub fail_status : ℕ → Option ℕ → FaultInjector
fail_status status times = record no_faults { status_code = some status; remaining = times }

unfoldable pub rate_limit : Option ℕ → Option ℕ → FaultInjector
rate_limit after times = record no_faults {
  rate_limited = true;
  retry_after_ms = after;
  remaining = times;
}

unfoldable pub fail_pagination : ℕ → Option ℕ → FaultInjector
fail_pagination after_pages times = record no_faults {
  pagination_after_pages = some after_pages;
  remaining = times;
}
