-- ===== src/Activity/Collector.antt =====
-- pylib/omniroute_activity.py, `Collector.sample`. What one call meets (the answers of the recheck, the reader and the API, and
-- the clock readings) is a `Round`. Clock readings are whole milliseconds; a comparison of differences is written on sums.
pub mod Idle
pub mod Vouched
mod Tests
use llm_env.Prelude.{
  ℕ, ◌+◌, ◌-◌, ◌*◌, Bool, true, false, not, ◌&&◌, ◌||◌, min, Option, none, some, String, List, [],
  ◌∷◌, map, ltb, leb, ◌==◌, is_some, if◌then◌else◌,
}
use llm_env.Deferral.{Reason, is_transient}
use llm_env.Json.{Value}
use llm_env.Activity.Sample.{Sample, first_failure, check_freshness}
use llm_env.Activity.Profile.{Route, classify_route, is_inference, is_unclassified}
use llm_env.Activity.Logs.{Reply, answered, refused, malformed, Row, Scan, Query, call_logs}
use llm_env.Activity.Documents.{ptr, sum_counts, inflight_count, epoch_ms, require_values}

pub record Record : Type 0 where
  pub method : String
  pub path : String

pub record Batch : Type 0 where
  pub records : List Record
  pub boot_id : String
  pub ready : Bool
  pub barrier_seen : Bool
  pub continuous : Bool
  pub overflow : Bool

-- The collector's constants: of the deployment, the profile, and the constructor's arguments.
pub record Setup : Type 0 where
  pub container_id : String
  pub started_at : String
  pub routes : List Route
  pub admission : List String
  pub active : String
  pub pending_by_model : String
  pub health_timestamp : String
  pub rows_page_limit : ℕ
  pub health_cache_ms : ℕ
  pub health_refresh_bound_ms : ℕ
  pub tolerance_ms : ℕ
  pub min_wait_ms : ℕ
  pub utc : String → Option ℕ

-- `last`: the monotonic clock, the wall clock, the health timestamp.
pub record Collector : Type 0 where
  pub sequence : ℕ
  pub arrival_gen : ℕ
  pub row_gen : ℕ
  pub newest : Option ℕ
  pub last : Option (ℕ × ℕ × ℕ)

pub record Round : Type 0 where
  pub recheck : Reply Unit
  pub batch : Reply Batch
  pub prime : Reply Unit
  pub health : Reply Value
  pub history : Reply Value
  pub pages : ℕ → Reply (List Row)
  pub deadline : ℕ
  pub started : ℕ  -- the clock at the start
  pub primed : ℕ  -- the clock after the prime
  pub t0 : ℕ
  pub w0 : ℕ
  pub t1 : ℕ
  pub w1 : ℕ

-- The local variables of `sample` that its handlers read; `gap` is a route without a profile, if any.
pub record Draft : Type 0 where
  pub collector : Collector
  pub sample : Sample
  pub evidence : Bool
  pub structural : Option Reason
  pub gap : Bool

pub data Stop : Type 0 where
  deferral : Reason → Stop
  malformed_document : Stop

-- `Collector.__init__`
unfoldable pub new_collector : Collector
new_collector = record { sequence = 0; arrival_gen = 0; row_gen = 0; newest = none; last = none }

-- The state of `sample` when it enters its `try`.
unfoldable pub new_draft : Setup → Collector → Round → Draft
new_draft u c r = record {
  collector = record c { sequence = c.sequence + 1 };
  sample = record {
    container_id = u.container_id;
    started_at = u.started_at;
    boot_id = "";
    sequence = c.sequence + 1;
    sample_monotonic = r.started;
    arrival_generation = c.arrival_gen;
    row_generation = c.row_gen;
    active = 0;
    pending = 0;
    admission = 0;
    health_timestamp_ms = none;
    health_age_ms = none;
    feed_ready = false;
    barrier_seen = false;
    continuous = false;
    overflow = false;
    unknown = true;
    reason = Reason.io;
  };
  evidence = false;
  structural = none;
  gap = false;
}

-- The handlers: activity turns a transient refusal into `busy`.
unfoldable pub handle : Stop → Draft → Collector × Sample
handle (deferral why) d =
    if is_transient why && d.evidence && not (is_some d.structural)
    then (d.collector, record (d.sample) { unknown = false; reason = Reason.busy })
    else (d.collector, record (d.sample) { unknown = true; reason = why })
handle malformed_document d =
    (d.collector, record (d.sample) { unknown = true; reason = Reason.schema })

-- A call's answer, and what follows it.
unfoldable pub and_then :
    {A : Type 0} → Reply A → Draft → (A → Collector × Sample) → Collector × Sample
unfolding handle
and_then (answered a) d next = next a
and_then (refused why) d next = handle (deferral why) d
and_then malformed d next = handle malformed_document d

-- A value that a malformed document does not have.
unfoldable pub or_malformed :
    {A : Type 0} → Option A → Draft → (A → Collector × Sample) → Collector × Sample
unfolding handle
or_malformed (some a) d next = next a
or_malformed none d next = handle malformed_document d

-- One record of the journal.
unfoldable pub note_record : List Route → Draft → Record → Draft
note_record routes d rec =
    let kind = classify_route routes rec.method rec.path in
    if is_inference kind
    then record d {
      collector = record (d.collector) { arrival_gen = d.collector.arrival_gen + 1 };
      evidence = true;
    }
    else record d { gap = d.gap || is_unclassified kind }

unfoldable pub note_records : List Route → Draft → List Record → Draft
unfolding note_record
note_records routes d [] = d
note_records routes d (rec ∷ recs) = note_records routes (note_record routes d rec) recs

abbrev pub structural_failure : Batch → Bool → Option Reason
structural_failure b gap =
    first_failure b.overflow (not b.continuous) (not (b.ready && b.barrier_seen)) gap

-- The batch of the journal.
unfoldable pub note_batch : Setup → Draft → Batch → Draft
unfolding note_records first_failure
note_batch u d b =
    let d' =
      note_records u.routes
        (record d {
          sample = record (d.sample) {
            boot_id = b.boot_id;
            feed_ready = b.ready;
            barrier_seen = b.barrier_seen;
            continuous = b.continuous;
            overflow = b.overflow;
          };
        })
        b.records in
    record d' {
      sample = record (d'.sample) { arrival_generation = d'.collector.arrival_gen };
      structural = structural_failure b d'.gap;
    }

-- The clock, the gap after the prime, and the deadline; twice, as `health_cache_ms / 2000` seconds halve.
abbrev pub is_too_late : Setup → Round → Bool
is_too_late u r = leb (2 * r.deadline) (2 * r.primed + min 400 u.health_cache_ms)

abbrev pub query_of : Setup → Round → Query
query_of u r = record {
  routes = u.routes;
  limit = u.rows_page_limit;
  wall_ms = r.w1;
  min_wait_ms = u.min_wait_ms;
  tolerance_ms = u.tolerance_ms;
}

-- The counters and the health timestamp, in the order in which they are read: one that is malformed leaves those before it.
unfoldable pub note_counts :
    Setup → Value → Value → Draft → (Draft → ℕ → Collector × Sample) → Collector × Sample
unfolding or_malformed sum_counts inflight_count require_values epoch_ms ptr
note_counts u health history d next =
    or_malformed (sum_counts (map (ptr health) u.admission)) d (λ admission.
      let d1 = record d { sample = record (d.sample) { admission = admission } } in
      or_malformed (inflight_count (ptr history u.active)) d1 (λ active.
        let d2 = record d1 { sample = record (d1.sample) { active = active } } in
        or_malformed (require_values history u.pending_by_model) d2 (λ values.
          or_malformed (sum_counts values) d2 (λ pending.
            let d3 = record d2 { sample = record (d2.sample) { pending = pending } } in
            or_malformed (epoch_ms u.utc (ptr health u.health_timestamp)) d3 (next d3)))))

abbrev pub same_time : Option ℕ → Option ℕ → Bool
same_time none none = true
same_time (some a) (some b) = a == b
same_time _ _ = false

-- `newest is not None and wall_ms - newest < min_wait_ms`
abbrev pub is_recent : Setup → Round → Scan → Bool
is_recent u r scan = elim scan.newest [ none ↦ false | some t ↦ ltb r.w1 (t + u.min_wait_ms) ]

abbrev pub is_busy_reading : Setup → Round → Scan → Sample → Bool
is_busy_reading u r scan s =
    ltb 0 s.active || ltb 0 s.pending || ltb 0 s.admission || scan.inflight || is_recent u r scan

-- What the readings change in the collector and in the sample.
unfoldable pub note_readings : Setup → Round → Batch → Scan → Draft → ℕ → Draft
unfolding first_failure
note_readings u r b scan d ts =
    let moved = is_some d.collector.last && not (same_time scan.newest d.collector.newest) in
    let row_gen = if moved then d.collector.row_gen + 1 else d.collector.row_gen in
    record d {
      collector = record (d.collector) {
        row_gen = row_gen;
        newest = scan.newest;
        last = some (r.t1, r.w1, ts);
      };
      sample = record (d.sample) {
        row_generation = row_gen;
        health_timestamp_ms = some ts;
        health_age_ms = some (r.w1 - ts);
      };
      evidence = d.evidence || is_busy_reading u r scan d.sample;
      structural = structural_failure b (d.gap || scan.gap);
    }

-- `abs((b - a) - (d - c))`, by the sums of what it adds.
abbrev pub drift : ℕ → ℕ → ℕ → ℕ → ℕ
drift a b c d = (b + c - (a + d)) + (a + d - (b + c))

-- The wall clock and the monotonic one disagree on how long the health read took, or it took too long.
abbrev pub is_mismatch : Setup → Round → Bool
is_mismatch u r = ltb u.tolerance_ms (drift r.w0 r.w1 r.t0 r.t1) || ltb (r.t0 + 5000) r.t1

-- They disagree since the sample before, by the tolerance and 1%, or the health timestamp went backward.
abbrev pub is_jump : Setup → Round → ℕ → Option (ℕ × ℕ × ℕ) → Bool
is_jump u r ts none = false
is_jump u r ts (some (t, w, before)) =
    ltb (100 * u.tolerance_ms + (r.t1 - t)) (100 * drift w r.w1 t r.t1) || ltb ts before

-- The tests on the complete readings, in their order.
unfoldable pub late_failure : Setup → Round → Scan → Draft → ℕ → Option (ℕ × ℕ × ℕ) → Option Reason
unfolding check_freshness
late_failure u r scan d ts previous = elim d.structural [
  | some why ↦ some why
  | none ↦ elim scan.failure [
    | some why ↦ some why
    | none ↦
        if is_mismatch u r || is_jump u r ts previous
        then some Reason.clock
        else check_freshness ts r.w1 u.health_cache_ms u.health_refresh_bound_ms u.tolerance_ms
  ]
]

unfoldable pub finish : Setup → Round → Scan → Draft → ℕ → Option (ℕ × ℕ × ℕ) → Collector × Sample
unfolding late_failure handle
finish u r scan d ts previous = elim (late_failure u r scan d ts previous) [
  | some why ↦ handle (deferral why) d
  | none ↦ (
    d.collector,
    record (d.sample) {
      unknown = false;
      reason = if is_busy_reading u r scan d.sample then Reason.busy else Reason.ready;
    },
  )
]

-- The documents of the API.
unfoldable pub read_documents : Setup → Round → Batch → Draft → Collector × Sample
unfolding and_then note_counts note_readings finish call_logs
read_documents u r b d = and_then r.health d (λ health. and_then r.history d (λ history.
    and_then (call_logs (query_of u r) r.pages) d (λ scan.
      note_counts u health history d
        (λ d' ts. finish u r scan (note_readings u r b scan d' ts) ts d.collector.last))))

-- What follows the batch: the prime, the deadline, the documents.
unfoldable pub read_api : Setup → Round → Batch → Draft → Collector × Sample
unfolding read_documents handle
read_api u r b d = elim r.prime [
  | refused why ↦ handle (deferral Reason.io) d
  | malformed ↦ handle malformed_document d
  | answered _ ↦ if is_too_late u r then handle (deferral Reason.io) d else read_documents u r b d
]

-- `Collector.sample`
unfoldable pub sample : Setup → Collector → Round → Collector × Sample
unfolding and_then note_batch read_api new_draft
sample u c r = and_then r.recheck (new_draft u c r) (λ _.
    and_then r.batch (new_draft u c r) (λ b. read_api u r b (note_batch u (new_draft u c r) b)))
