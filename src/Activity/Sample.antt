-- ===== src/Activity/Sample.antt =====
-- pylib/omniroute_activity.py, the sanitized observer state: a sample, its class, and the order in
-- which structural failures are reported. Clock readings are whole milliseconds.
use llm_env.Prelude.{
  ℕ, ◌+◌, Bool, true, false, not, ◌&&◌, ◌||◌, Option, none, some, String, ltb, leb, if◌then◌else◌,
}
use llm_env.Deferral.{Reason, is_busy}

-- `detail` explains an unknown sample to the operator; it is never logic, and is left out.
pub record Sample : Type 0 where
  pub container_id : String
  pub started_at : String
  pub boot_id : String
  pub sequence : ℕ
  pub sample_monotonic : ℕ
  pub arrival_generation : ℕ
  pub row_generation : ℕ
  pub active : ℕ
  pub pending : ℕ
  pub admission : ℕ
  pub health_timestamp_ms : Option ℕ
  pub health_age_ms : Option ℕ
  pub feed_ready : Bool
  pub barrier_seen : Bool
  pub continuous : Bool
  pub overflow : Bool
  pub unknown : Bool
  pub reason : Reason

pub data Class : Type 0 where
  idle busy unknown : Class

unfoldable pub classify : Sample → Class
classify s =
    if ltb 0 s.active || ltb 0 s.pending || ltb 0 s.admission || (is_busy s.reason && not s.unknown)
    then Class.busy
    else if s.unknown || s.overflow || not (s.feed_ready && s.barrier_seen && s.continuous)
    then Class.unknown
    else Class.idle

-- `_first_failure`: structural journal and row failures, in priority order.
unfoldable pub first_failure : Bool → Bool → Bool → Bool → Option Reason
first_failure overflow discontinuous feed_missing coverage_gap =
    if overflow
    then some Reason.overflow
    else if discontinuous
    then some Reason.continuity
    else if feed_missing
    then some Reason.feed
    else if coverage_gap
    then some Reason.coverage
    else none

-- `age = wall_ms - timestamp_ms` may be negative; the test `0 <= age <= bound` is written on sums.
unfoldable pub check_freshness : ℕ → ℕ → ℕ → ℕ → ℕ → Option Reason
check_freshness timestamp_ms wall_ms cache_ms refresh_ms tolerance_ms =
    if leb timestamp_ms wall_ms
      && leb wall_ms (timestamp_ms + (cache_ms + refresh_ms + tolerance_ms))
    then none
    else some Reason.age

unfoldable pub failed_sample : String → String → ℕ → Reason → ℕ → Sample
failed_sample container_id started_at sequence reason now = record {
  container_id = container_id;
  started_at = started_at;
  boot_id = "";
  sequence = sequence;
  sample_monotonic = now;
  arrival_generation = 0;
  row_generation = 0;
  active = 0;
  pending = 0;
  admission = 0;
  health_timestamp_ms = none;
  health_age_ms = none;
  feed_ready = false;
  barrier_seen = false;
  continuous = false;
  overflow = false;
  unknown = true;
  reason = reason;
}
