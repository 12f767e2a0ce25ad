-- ===== src/Activity/Logs/Tests.antt =====
-- Runs of `_call_logs` on a small log.
use llm_env.Prelude.{String, true, false, none, some, ℕ, [], ◌∷◌, List, ◌≡◌, refl, ◌++◌, all, arith}
use llm_env.Activity.Profile.{Route, classify_path}
use llm_env.Activity.Logs.{Query, Row, Scan, Reply, answered, call_logs}
use llm_env.Activity.Logs.Paging.{page, is_quiet_row, call_logs_complete}

abbrev chat : Route
chat = record { method = "POST"; path_pattern = "/v1/chat/completions"; kind = some "inference" }

abbrev models : Route
models = record { method = "GET"; path_pattern = "/v1/models"; kind = some "probe" }

abbrev query : Query
query = record {
  routes = chat ∷ models ∷ [];
  limit = 2;
  wall_ms = 1000000;
  min_wait_ms = 300000;
  tolerance_ms = 5;
}

abbrev row : String → ℕ → Row
row path t = record { path = path; timestamp = some t; in_memory = false }

abbrev young_probes : List Row
young_probes =
    row "/v1/models" 999990 ∷ row "/v1/models" 999980 ∷ row "/v1/chat/completions?x=1" 600000 ∷ []

abbrev old_chat : Scan
old_chat = record { newest = some 600000; inflight = false; gap = false; failure = none }

-- Two young probes make a second page necessary.
young_probes_scan : call_logs query (page 2 [] young_probes) ≡ answered old_chat
unfolding call_logs llm_env.Activity.Logs.scan_row classify_path
young_probes_scan = refl

call_logs_complete_example : all (is_quiet_row query) ([] ++ young_probes) ≡ true
call_logs_complete_example =
    call_logs_complete query [] young_probes old_chat (omega arith) refl young_probes_scan refl refl
      refl
