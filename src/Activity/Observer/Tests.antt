-- ===== src/Activity/Observer/Tests.antt =====
-- An observer of a quiet gateway: three turns, ten seconds apart.
use llm_env.Prelude.{
  true, false, none, ℕ, ◌+◌, [], ◌∷◌, List, ◌≡◌, refl, map, take, length, all, ◌++◌,
}
use llm_env.Prelude.Int.{pos}
use llm_env.Json.{Value, integer, array, object, nil, end, field}
use llm_env.Activity.Sample.{classify}
use llm_env.Activity.Logs.{answered}
use llm_env.Activity.Logs.Paging.{page}
use llm_env.Activity.Collector.{Batch, Setup, Round, new_collector, sample}
use llm_env.Activity.Gate.{Answer, init, step, continues}
use llm_env.Activity.Observer.{Turn, Entry, entry_of, turn, observe_loop, new_observer}
use llm_env.Activity.Observer.Trusted.{Confirmed, replay, observe_loop-Confirmed}

abbrev setup : Setup
setup = record {
  container_id = "c";
  started_at = "t";
  routes = [];
  admission = "/running" ∷ [];
  active = "/active";
  pending_by_model = "/pending";
  health_timestamp = "/timestamp";
  rows_page_limit = 2;
  health_cache_ms = 1000;
  health_refresh_bound_ms = 2000;
  tolerance_ms = 5;
  min_wait_ms = 5000;
  utc = λ s. none;
}

abbrev batch : Batch
batch = record {
  records = [];
  boot_id = "b";
  ready = true;
  barrier_seen = true;
  continuous = true;
  overflow = false;
}

abbrev health : ℕ → Value
health ms =
    object (field "running" (integer (pos 0)) (field "timestamp" (integer (pos (999500 + ms))) end))

abbrev history : Value
history =
    object
      (field "active" (array nil) (field "pending" (object (field "m" (integer (pos 0)) end)) end))

abbrev round_at : ℕ → Round
round_at ms = record {
  recheck = answered tt;
  batch = answered batch;
  prime = answered tt;
  health = answered (health ms);
  history = answered history;
  pages = page 2 [] [];
  deadline = 0;
  started = 1000 + ms;
  primed = 1100 + ms;
  t0 = 1300 + ms;
  w0 = 999900 + ms;
  t1 = 1400 + ms;
  w1 = 1000000 + ms;
}

abbrev turn_at : ℕ → Turn
turn_at ms = record {
  start = 1000 + ms;
  first = round_at ms;
  again = 2000 + ms;
  second = round_at (1000 + ms);
  is_written = true;
}

abbrev turns : List Turn
turns = turn_at 0 ∷ turn_at 10000 ∷ turn_at 20000 ∷ []

abbrev verdict_of : Entry → Answer
verdict_of e = e.verdict

ready_third :
    map verdict_of (observe_loop setup 90000 (new_observer 5 60000) turns).0
    ≡ Answer.wait ∷ Answer.wait ∷ Answer.ready ∷ []
unfolding observe_loop new_observer new_collector init step sample classify
ready_third = refl

abbrev first_two : List Turn
first_two = turn_at 0 ∷ turn_at 10000 ∷ []

abbrev entries : List Entry
entries = (observe_loop setup 90000 (new_observer 5 60000) turns).0

abbrev waits : List Entry
waits = take 2 entries

abbrev third : Entry
third =
    entry_of
      (turn setup 90000 (replay setup 90000 (new_observer 5 60000) [] first_two).0 (turn_at 20000))

log_of_three : entries ≡ waits ++ third ∷ []
unfolding observe_loop new_observer replay
log_of_three = refl

two_waits : length waits ≡ 2
unfolding observe_loop new_observer
two_waits = refl

both_wait : all (λ x. continues x.verdict) waits ≡ true
unfolding observe_loop new_observer new_collector init step sample classify
both_wait = refl

third_ready : third.verdict ≡ Answer.ready
unfolding observe_loop new_observer replay new_collector init step sample classify
third_ready = refl

observe_loop-Confirmed_example :
    let (o, given) = replay setup 90000 (new_observer 5 60000) [] first_two in
    Confirmed setup 90000 5 60000 o given (turn_at 20000) third
observe_loop-Confirmed_example =
    observe_loop-Confirmed setup 90000 5 60000 first_two (turn_at 20000) [] waits third []
      log_of_three two_waits both_wait third_ready
