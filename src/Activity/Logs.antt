-- ===== src/Activity/Logs.antt =====
-- pylib/omniroute_activity.py, `Collector._call_logs`: the newest trace of a client in the call log,
-- which is read in pages. Times are milliseconds.
pub mod Paging
mod Tests
use llm_env.Prelude.{
  ℕ, zero, suc, ◌+◌, Bool, true, false, not, ◌&&◌, ◌||◌, max, Option, none, some, String, List, [],
  ◌∷◌, length, ltb, leb, if◌then◌else◌,
}
use llm_env.Deferral.{Reason}
use llm_env.Activity.Profile.{Route, classify_path, is_inference, is_unclassified}

-- A request is answered with a value, is refused by a deferral, or is answered with something of
-- another shape, which raises ValueError, KeyError or TypeError.
pub data Reply (A : Type 0) : Type 0 where
  answered : A → Reply A
  refused : Reason → Reply A
  malformed : Reply A

-- A row: its path, its time (`none` where `epoch_ms` raises ValueError) and its in-flight flag.
pub record Row : Type 0 where
  pub path : String
  pub timestamp : Option ℕ
  pub in_memory : Bool

-- What `_call_logs` keeps while it reads, and returns.
pub record Scan : Type 0 where
  pub newest : Option ℕ
  pub inflight : Bool
  pub gap : Bool
  pub failure : Option Reason

-- What a call of `_call_logs` reads from the profile, the wall clock and the collector.
pub record Query : Type 0 where
  pub routes : List Route
  pub limit : ℕ
  pub wall_ms : ℕ
  pub min_wait_ms : ℕ
  pub tolerance_ms : ℕ

abbrev pub row_pages : ℕ
row_pages = 5

abbrev pub start : Scan
start = record { newest = none; inflight = false; gap = false; failure = none }

-- `failure or r`
abbrev pub first_of : Option Reason → Reason → Option Reason
first_of none r = some r
first_of (some old) r = some old

abbrev pub max_of : Option ℕ → ℕ → Option ℕ
max_of none t = some t
max_of (some n) t = some (max n t)

-- `stamp > wall_ms + tolerance_ms`
abbrev pub is_future : Query → ℕ → Bool
is_future q t = ltb (q.wall_ms + q.tolerance_ms) t

-- The time of a row that counts: readable, and not in the future.
abbrev pub stamp_of : Query → Row → Option ℕ
stamp_of q row = elim row.timestamp [
  | none ↦ none
  | some t ↦ if is_future q t then none else some t
]

abbrev pub failure_of : Query → Row → Option Reason → Option Reason
failure_of q row old = elim row.timestamp [
  | none ↦ first_of old Reason.age
  | some t ↦ if is_future q t then first_of old Reason.clock else old
]

abbrev pub newest_of : Option ℕ → Option ℕ → Option ℕ
newest_of old none = old
newest_of old (some t) = max_of old t

-- One row.
unfoldable pub scan_row : Query → Scan → Row → Scan
scan_row q s row =
    let kind = classify_path q.routes row.path in
    record {
      newest = if is_inference kind then newest_of s.newest (stamp_of q row) else s.newest;
      inflight = if is_inference kind then s.inflight || row.in_memory else s.inflight;
      gap = s.gap || is_unclassified kind;
      failure = failure_of q row s.failure;
    }

unfoldable pub scan_rows : Query → Scan → List Row → Scan
scan_rows q s [] = s
scan_rows q s (row ∷ rows) = scan_rows q (scan_row q s row) rows

-- `stamp` after the rows of a page: that of the last row.
unfoldable pub last_stamp : Query → List Row → Option ℕ
last_stamp q [] = none
last_stamp q (row ∷ []) = stamp_of q row
last_stamp q (row ∷ (r ∷ rows)) = last_stamp q (r ∷ rows)

-- `newest is not None and newest > horizon`, where the horizon is `wall_ms - min_wait_ms`
abbrev pub is_late : Query → Option ℕ → Bool
is_late q none = false
is_late q (some t) = ltb q.wall_ms (t + q.min_wait_ms)

-- `stamp is not None and stamp <= horizon`
abbrev pub is_past : Query → Option ℕ → Bool
is_past q none = false
is_past q (some t) = leb (t + q.min_wait_ms) q.wall_ms

-- The two tests after a page.
unfoldable pub is_enough : Query → Scan → List Row → Bool
unfolding last_stamp
is_enough q s rows =
    (s.inflight || is_late q s.newest || ltb (length rows) q.limit) || is_past q (last_stamp q rows)

-- The loop over the pages, `n` of which are left. `fetch k` is the answer for the page at `k * limit`.
unfoldable pub read_pages : Query → (ℕ → Reply (List Row)) → ℕ → ℕ → Scan → Reply Scan
unfolding scan_rows is_enough
read_pages q fetch zero k s = answered (record s { failure = first_of s.failure Reason.age })
read_pages q fetch (suc n) k s = elim (fetch k) [
  | refused r ↦ refused r
  | malformed ↦ malformed
  | answered rows ↦ elim (is_enough q (scan_rows q s rows) rows) [
    | true ↦ answered (scan_rows q s rows)
    | false ↦ read_pages q fetch n (suc k) (scan_rows q s rows)
  ]
]

-- `_call_logs`
unfoldable pub call_logs : Query → (ℕ → Reply (List Row)) → Reply Scan
unfolding read_pages
call_logs q fetch = read_pages q fetch row_pages 0 start
