-- ===== src/Activity/Collector/Vouched.antt =====
-- What the parts of a round said, for an idle sample.
use llm_env.Prelude.{
  ℕ, ◌<◌, ◌≡◌, sym, ap, ◌∙◌, inl, inr, Bool, true, false, ◌||◌, Option, none, some, List, ◌++◌, map,
  all, arith, Option-cases, if◌then◌else◌,
}
use llm_env.Deferral.{Reason}
use llm_env.Json.{Value}
use llm_env.Activity.Sample.{Sample, check_freshness}
use llm_env.Activity.Logs.{Reply, answered, refused, malformed, Row, Scan, call_logs, is_late}
use llm_env.Activity.Logs.Paging.{page, is_descending, is_quiet_row, call_logs_complete}
use llm_env.Activity.Documents.{ptr, sum_counts, inflight_count, epoch_ms, require_values}
use llm_env.Activity.Collector.{
  Batch, Setup, Collector, Round, Draft, deferral, malformed_document, new_draft, handle, and_then,
  note_batch, note_readings, finish, read_api, read_documents, sample, query_of, is_busy_reading,
  is_too_late,
}
use llm_env.Activity.Collector.Idle.{
  IsIdle, handle_not-IsIdle, and_then-IsIdle, finish-IsIdle, late_failure-none, structural_none,
  is_classified, note_records-gap, Counted, note_counts-IsIdle,
}

-- Everything that an idle sample vouches for.
pub record Vouched (u : Setup) (r : Round) : Type 0 where
  pub batch : Batch
  pub health : Value
  pub history : Value
  pub scan : Scan
  pub values : List (Option Value)
  pub ts : ℕ
  pub is_batch : r.batch ≡ answered batch
  pub is_health : r.health ≡ answered health
  pub is_history : r.history ≡ answered history
  pub is_scan : call_logs (query_of u r) r.pages ≡ answered scan
  pub is_continuous : batch.continuous ≡ true
  pub is_complete : batch.overflow ≡ false
  pub is_ready : batch.ready ≡ true
  pub has_barrier : batch.barrier_seen ≡ true
  pub are_classified : all (is_classified u.routes) batch.records ≡ true
  pub no_admission : sum_counts (map (ptr health) u.admission) ≡ some 0
  pub no_active : inflight_count (ptr history u.active) ≡ some 0
  pub is_values : require_values history u.pending_by_model ≡ some values
  pub no_pending : sum_counts values ≡ some 0
  pub is_ts : epoch_ms u.utc (ptr health u.health_timestamp) ≡ some ts
  pub is_fresh :
      check_freshness ts r.w1 u.health_cache_ms u.health_refresh_bound_ms u.tolerance_ms ≡ none
  pub no_failure : scan.failure ≡ none
  pub no_inflight : scan.inflight ≡ false
  pub no_row_gap : scan.gap ≡ false
  pub not_late : is_late (query_of u r) scan.newest ≡ false

not_busy :
    (u : Setup) (r : Round) (scan : Scan) (s : Sample)
    → is_busy_reading u r scan s ≡ false
    → (s.active ≡ 0)
      × (s.pending ≡ 0)
      × (s.admission ≡ 0)
      × (scan.inflight ≡ false)
      × (is_late (query_of u r) scan.newest ≡ false)
not_busy u r scan s h = elim (Option-cases scan.newest) [
  | inl e ↦ ground (arith, e)
  | inr (t, e) ↦ ground (arith, e)
]

finish-Vouched :
    (u : Setup) (r : Round) (b : Batch) (health history : Value) (scan : Scan) (d d' : Draft)
    (ts : ℕ) (previous : Option (ℕ × ℕ × ℕ))
    → r.batch ≡ answered b
    → r.health ≡ answered health
    → r.history ≡ answered history
    → call_logs (query_of u r) r.pages ≡ answered scan
    → (d.gap ≡ false → all (is_classified u.routes) b.records ≡ true)
    → Counted u health history d d' ts
    → IsIdle (finish u r scan (note_readings u r b scan d' ts) ts previous)
    → Vouched u r
unfolding note_readings
finish-Vouched u r b health history scan d d' ts previous e1 e2 e3 e4 classified c h =
    let (passed, quiet) = finish-IsIdle u r scan (note_readings u r b scan d' ts) ts previous h in
    let (structural, failure, fresh) =
      late_failure-none u r scan (note_readings u r b scan d' ts) ts previous passed in
    let (overflow, continuous, ready, barrier, gap) =
      structural_none b (d'.gap || scan.gap) structural in
    let (active, pending, admission, inflight, late) = not_busy u r scan d'.sample quiet in
    let same_gap = ap (λ (x : Draft). x.gap) c.is_draft in
    record {
      batch = b;
      health = health;
      history = history;
      scan = scan;
      values = c.values;
      ts = ts;
      is_batch = e1;
      is_health = e2;
      is_history = e3;
      is_scan = e4;
      is_continuous = continuous;
      is_complete = overflow;
      is_ready = ready;
      has_barrier = barrier;
      are_classified = classified (ground arith);
      no_admission =
          c.is_admission
          ∙ ap some (sym (ap (λ (x : Draft). x.sample.admission) c.is_draft) ∙ admission);
      no_active =
          c.is_active ∙ ap some (sym (ap (λ (x : Draft). x.sample.active) c.is_draft) ∙ active);
      is_values = c.is_values;
      no_pending =
          c.is_pending ∙ ap some (sym (ap (λ (x : Draft). x.sample.pending) c.is_draft) ∙ pending);
      is_ts = c.is_ts;
      is_fresh = fresh;
      no_failure = failure;
      no_inflight = inflight;
      no_row_gap = ground arith;
      not_late = late;
    }

read_documents-Vouched :
    (u : Setup) (r : Round) (b : Batch) (d : Draft)
    → r.batch ≡ answered b
    → (d.gap ≡ false → all (is_classified u.routes) b.records ≡ true)
    → IsIdle (read_documents u r b d)
    → Vouched u r
unfolding read_documents
read_documents-Vouched u r b d e classified h =
    let (health, e1, h1) = and_then-IsIdle _ _ _ h in
    let (history, e2, h2) = and_then-IsIdle _ _ _ h1 in
    let (scan, e3, h3) = and_then-IsIdle _ _ _ h2 in
    let next : Draft → ℕ → Collector × Sample =
      λ d' ts. finish u r scan (note_readings u r b scan d' ts) ts d.collector.last in
    let (d', ts, counted, h4) = note_counts-IsIdle u health history d next h3 in
    finish-Vouched u r b health history scan d d' ts d.collector.last e e1 e2 e3 classified counted
      h4

read_api-IsIdle :
    (u : Setup) (r : Round) (b : Batch) (d : Draft)
    → IsIdle (read_api u r b d)
    → IsIdle (read_documents u r b d)
unfolding read_api
read_api-IsIdle u r b d h = by_prime r.prime h
  where
    by_time :
        (late : Bool)
        → IsIdle (if late then handle (deferral Reason.io) d else read_documents u r b d)
        → IsIdle (read_documents u r b d)
    by_time true h = absurd (handle_not-IsIdle (deferral Reason.io) d h)
    by_time false h = h

    by_prime :
        (prime : Reply Unit)
        → IsIdle (read_api u (record r { prime = prime }) b d)
        → IsIdle (read_documents u r b d)
    by_prime (refused why) h = absurd (handle_not-IsIdle (deferral Reason.io) d h)
    by_prime malformed h = absurd (handle_not-IsIdle malformed_document d h)
    by_prime (answered x) h = by_time (is_too_late u r) h

-- When a sample is classified as idle, then in that very round the journal's batch was complete (no overflow, no gap, with its
-- barrier) and each of its records has a class in the profile; the health and history documents were read and gave zero for
-- admission, active and pending; the health timestamp is fresh; and the call log was read with no failure, no row without a class,
-- none in flight and no client trace younger than the idle threshold.
pub sample-Vouched : (u : Setup) (c : Collector) (r : Round) → IsIdle (sample u c r) → Vouched u r
unfolding sample note_batch
sample-Vouched u c r h =
    let d0 = new_draft u c r in
    let poll : Batch → Collector × Sample = λ b. read_api u r b (note_batch u d0 b) in
    let (x, e1, h1) = and_then-IsIdle r.recheck d0 (λ x. and_then r.batch d0 poll) h in
    let (b, e2, h2) = and_then-IsIdle r.batch d0 poll h1 in
    let d = note_batch u (new_draft u c r) b in
    read_documents-Vouched u r b d e2 (λ g. (note_records-gap u.routes _ b.records g).1)
      (read_api-IsIdle u r b d h2)

-- When the pages that a sample reads are those of a server that lists its rows in memory and then the persisted ones, latest
-- first (the page limit is positive), and the sample is idle, then no client row of the whole log, read or not, is in flight or
-- younger than the idle threshold.
pub idle-log_quiet :
    (u : Setup) (c : Collector) (r : Round) (memory persisted : List Row)
    → 0 < u.rows_page_limit
    → is_descending persisted ≡ true
    → IsIdle (sample u c (record r { pages = page u.rows_page_limit memory persisted }))
    → all (is_quiet_row (query_of u r)) (memory ++ persisted) ≡ true
idle-log_quiet u c r memory persisted l d h =
    let v = sample-Vouched u c (record r { pages = page u.rows_page_limit memory persisted }) h in
    call_logs_complete (query_of u r) memory persisted v.scan l d v.is_scan v.no_failure
      v.no_inflight v.not_late
