-- ===== src/Activity/Collector/Tests.antt =====
-- Rounds of the collector.
use llm_env.Prelude.{String, true, false, none, some, ℕ, [], ◌∷◌, List, ◌≡◌, refl, ◌++◌, all, arith}
use llm_env.Prelude.Int.{pos}
use llm_env.Json.{Value, integer, array, object, nil, item, end, field}
use llm_env.Activity.Sample.{classify}
use llm_env.Activity.Profile.{Route, classify_route, classify_path}
use llm_env.Activity.Logs.{Row, answered, scan_row}
use llm_env.Activity.Logs.Paging.{page, is_quiet_row}
use llm_env.Activity.Collector.{Batch, Setup, Round, new_collector, sample, query_of}
use llm_env.Activity.Collector.Idle.{IsIdle}
use llm_env.Activity.Collector.Vouched.{Vouched, sample-Vouched, idle-log_quiet}

abbrev chat : Route
chat = record { method = "POST"; path_pattern = "/v1/chat/completions"; kind = some "inference" }

abbrev models : Route
models = record { method = "GET"; path_pattern = "/v1/models"; kind = some "probe" }

abbrev setup : Setup
setup = record {
  container_id = "c";
  started_at = "t";
  routes = chat ∷ models ∷ [];
  admission = "/admission/running" ∷ "/admission/waiting/0" ∷ [];
  active = "/activeRequests";
  pending_by_model = "/pending";
  health_timestamp = "/timestamp";
  rows_page_limit = 2;
  health_cache_ms = 1000;
  health_refresh_bound_ms = 2000;
  tolerance_ms = 5;
  min_wait_ms = 300000;
  utc = λ s. none;
}

abbrev quiet_batch : Batch
quiet_batch = record {
  records = record { method = "GET"; path = "/v1/models | 200" } ∷ [];
  boot_id = "b";
  ready = true;
  barrier_seen = true;
  continuous = true;
  overflow = false;
}

abbrev health : Value
health = object (
    field "admission"
      (object (
        field "running" (integer (pos 0))
          (field "waiting" (array (item (integer (pos 0)) nil)) end)))
      (field "timestamp" (integer (pos 999500)) end))

abbrev history : Value
history = object (
    field "activeRequests" (array nil)
      (field "pending" (object (field "m" (integer (pos 0)) end)) end))

abbrev row : String → ℕ → Row
row path t = record { path = path; timestamp = some t; in_memory = false }

abbrev old_rows : List Row
old_rows =
    row "/v1/models" 999990 ∷ row "/v1/models" 999980 ∷ row "/v1/chat/completions?x=1" 600000 ∷ []

abbrev quiet_round : Round
quiet_round = record {
  recheck = answered tt;
  batch = answered quiet_batch;
  prime = answered tt;
  health = answered health;
  history = answered history;
  pages = page 2 [] old_rows;
  deadline = 9000;
  started = 1000;
  primed = 1100;
  t0 = 1300;
  w0 = 999900;
  t1 = 1400;
  w1 = 1000000;
}

quiet-IsIdle : IsIdle (sample setup new_collector quiet_round)
unfolding IsIdle classify sample new_collector classify_route classify_path scan_row
quiet-IsIdle = refl

sample-Vouched_example : Vouched setup quiet_round
sample-Vouched_example = sample-Vouched setup new_collector quiet_round quiet-IsIdle

idle-log_quiet_example : all (is_quiet_row (query_of setup quiet_round)) ([] ++ old_rows) ≡ true
idle-log_quiet_example =
    idle-log_quiet setup new_collector quiet_round [] old_rows (omega arith) refl quiet-IsIdle
