-- ===== src/Activity/Collector/Idle.antt =====
-- What an idle sample vouches for.
use llm_env.Prelude.{
  ℕ, ◌≡◌, refl, Bool, true, false, not, Option, none, some, List, [], ◌∷◌, map, all, arith,
  if◌then◌else◌,
}
use llm_env.Deferral.{Reason}
use llm_env.Json.{Value}
use llm_env.Activity.Sample.{Class, Sample, classify, first_failure, check_freshness}
use llm_env.Activity.Profile.{Route, classify_route, is_unclassified}
use llm_env.Activity.Logs.{Reply, answered, refused, malformed, Scan}
use llm_env.Activity.Documents.{ptr, sum_counts, inflight_count, epoch_ms, require_values}
use llm_env.Activity.Collector.{
  Record, Batch, Setup, Collector, Round, Draft, Stop, deferral, malformed_document, handle,
  and_then, or_malformed, note_record, note_records, note_counts, late_failure, finish,
  is_busy_reading, structural_failure,
}

unfoldable pub IsIdle : Collector × Sample → Type 0
IsIdle outcome = classify (outcome.1) ≡ Class.idle

pub handle_not-IsIdle : (stop : Stop) (d : Draft) → ¬ IsIdle (handle stop d)
unfolding IsIdle handle classify
handle_not-IsIdle (deferral why) d h = ground arith
handle_not-IsIdle malformed_document d h = ground arith

pub and_then-IsIdle :
    {A : Type 0} (reply : Reply A) (d : Draft) (next : A → Collector × Sample)
    → IsIdle (and_then reply d next)
    → (a : A) × (reply ≡ answered a) × IsIdle (next a)
unfolding and_then
and_then-IsIdle (answered a) d next h = (a, refl, h)
and_then-IsIdle (refused why) d next h = absurd (handle_not-IsIdle (deferral why) d h)
and_then-IsIdle malformed d next h = absurd (handle_not-IsIdle malformed_document d h)

pub or_malformed-IsIdle :
    {A : Type 0} (o : Option A) (d : Draft) (next : A → Collector × Sample)
    → IsIdle (or_malformed o d next)
    → (a : A) × (o ≡ some a) × IsIdle (next a)
unfolding or_malformed
or_malformed-IsIdle (some a) d next h = (a, refl, h)
or_malformed-IsIdle none d next h = absurd (handle_not-IsIdle malformed_document d h)

pub idle_ready :
    (s : Sample) (b : Bool)
    → classify (record s { unknown = false; reason = if b then Reason.busy else Reason.ready })
      ≡ Class.idle
    → b ≡ false
unfolding classify
idle_ready s true h = ground arith
idle_ready s false h = refl

pub finish-IsIdle :
    (u : Setup) (r : Round) (scan : Scan) (d : Draft) (ts : ℕ) (previous : Option (ℕ × ℕ × ℕ))
    → IsIdle (finish u r scan d ts previous)
    → (late_failure u r scan d ts previous ≡ none) × (is_busy_reading u r scan d.sample ≡ false)
unfolding IsIdle finish
finish-IsIdle u r scan d ts previous h = go (late_failure u r scan d ts previous) refl h
  where
    go :
        (o : Option Reason)
        → late_failure u r scan d ts previous ≡ o
        → IsIdle (finish u r scan d ts previous)
        → (late_failure u r scan d ts previous ≡ none) × (is_busy_reading u r scan d.sample ≡ false)
    go none e h = (e, idle_ready d.sample (is_busy_reading u r scan d.sample) (rw (e, finish) at h))
    go (some why) e h = absurd (handle_not-IsIdle (deferral why) d (rw (e, finish) at h))

-- No structural failure, no failure of the rows, and fresh health.
pub late_failure-none :
    (u : Setup) (r : Round) (scan : Scan) (d : Draft) (ts : ℕ) (previous : Option (ℕ × ℕ × ℕ))
    → late_failure u r scan d ts previous ≡ none
    → (d.structural ≡ none)
      × (scan.failure ≡ none)
      × (check_freshness ts r.w1 u.health_cache_ms u.health_refresh_bound_ms u.tolerance_ms ≡ none)
unfolding late_failure
late_failure-none u r scan d ts previous h = ground arith

pub structural_none :
    (b : Batch) (gap : Bool)
    → structural_failure b gap ≡ none
    → (b.overflow ≡ false)
      × (b.continuous ≡ true)
      × (b.ready ≡ true)
      × (b.barrier_seen ≡ true)
      × (gap ≡ false)
unfolding first_failure
structural_none b gap h = ground arith

-- The records of a batch that has no gap.
abbrev pub is_classified : List Route → Record → Bool
is_classified routes rec = not (is_unclassified (classify_route routes rec.method rec.path))

pub note_records-gap :
    (routes : List Route) (d : Draft) (recs : List Record)
    → (note_records routes d recs).gap ≡ false
    → (d.gap ≡ false) × (all (is_classified routes) recs ≡ true)
unfolding note_records note_record
note_records-gap routes d [] h = (h, refl)
note_records-gap routes d (rec ∷ recs) h =
    let (before, rest) = note_records-gap routes (note_record routes d rec) recs h in ground arith

-- The values that the documents gave for the counters and for the health timestamp, in a draft that holds them.
pub record Counted (u : Setup) (health history : Value) (d d' : Draft) (ts : ℕ) : Type 0 where
  pub admission : ℕ
  pub active : ℕ
  pub pending : ℕ
  pub values : List (Option Value)
  pub is_admission : sum_counts (map (ptr health) u.admission) ≡ some admission
  pub is_active : inflight_count (ptr history u.active) ≡ some active
  pub is_values : require_values history u.pending_by_model ≡ some values
  pub is_pending : sum_counts values ≡ some pending
  pub is_ts : epoch_ms u.utc (ptr health u.health_timestamp) ≡ some ts
  pub is_draft : d' ≡ record d {
    sample = record (d.sample) { admission = admission; active = active; pending = pending };
  }

pub note_counts-IsIdle :
    (u : Setup) (health history : Value) (d : Draft) (next : Draft → ℕ → Collector × Sample)
    → IsIdle (note_counts u health history d next)
    → (d' : Draft) × (ts : ℕ) × Counted u health history d d' ts × IsIdle (next d' ts)
unfolding note_counts
note_counts-IsIdle u health history d next h =
    let (admission, e1, h1) = or_malformed-IsIdle _ _ _ h in
    let (active, e2, h2) = or_malformed-IsIdle _ _ _ h1 in
    let (values, e3, h3) = or_malformed-IsIdle _ _ _ h2 in
    let (pending, e4, h4) = or_malformed-IsIdle _ _ _ h3 in
    let (ts, e5, h5) = or_malformed-IsIdle _ _ _ h4 in
    (
      _,
      ts,
      record {
        admission = admission;
        active = active;
        pending = pending;
        values = values;
        is_admission = e1;
        is_active = e2;
        is_values = e3;
        is_pending = e4;
        is_ts = e5;
        is_draft = refl;
      },
      h5,
    )
