-- ===== src/Update/Commit/Tests.antt =====
-- A replacement that is seen in the second turn.
use llm_env.Prelude.{
  ℕ, zero, suc, ◌+◌, ◌*◌, ◌≤◌, ◌≡◌, ◌≢◌, refl, true, false, some, String, List, [], ◌∷◌, get_elem?,
  arith,
}
use llm_env.Prelude.Chars.{append_text}
use llm_env.Update.Documents.{done}
use llm_env.Update.Snapshot.{Doc, Snapshot}
use llm_env.Update.Commit.{Call, Baseline, Look, committed, waiting, verify_commit, wanted_image}
use llm_env.Update.Commit.Candidate.{Replaced, wanted_of}
use llm_env.Update.Commit.Replaced.{verify_commit-Replaced, verify_commit-ends}

abbrev hex : String
hex = "0123456789abcdef0123456789abcdef0123456789abcdef0123456789abcdef"

abbrev doc : String → Doc
doc service = record {
  project = some "llm-env";
  service = some service;
  network_ids = "n" ∷ [];
  volumes = "v" ∷ [];
  image = hex;
  has_dependencies = false;
  running = true;
  health = some "healthy";
}

abbrev inventory : String → List (String × Doc) → Snapshot
inventory target docs = record {
  backend = record { graph_root = "/g"; run_root = "/r" };
  containers = (target, "h1") ∷ ("sibling", "h2") ∷ [];
  deps = [];
  docs = docs;
  names = [];
  started = [];
  others = [];
}

abbrev baseline : Baseline
baseline = record {
  snapshot = inventory "old" [];
  target = some (doc "omniroute");
  deployed_project = "llm-env";
}

abbrev call : Call
call = record {
  service = "omniroute";
  old_id = "old";
  deadline = 3000;
  expect_no_deps = true;
  has_api = false;
}

abbrev look : ℕ → Snapshot → Look
look head snap = record {
  head = head;
  taken = done snap;
  api = false;
  ready = head + 10;
  last = head + 20;
}

abbrev empty : Look
empty = look 0 (inventory "old" (("old", doc "omniroute") ∷ []))

abbrev replaced : Look
replaced = look 1020 (inventory "new" (("sibling", doc "redis") ∷ ("new", doc "omniroute") ∷ []))

seen :
    verify_commit call baseline (append_text "sha256:" hex) (empty ∷ replaced ∷ [])
    ≡ committed "new"
unfolding verify_commit
seen = refl

verify_commit-Replaced_example :
    (image : String) × (i : ℕ) × (l : Look) × (wanted_image
        (append_text "sha256:" hex)
        baseline.target
      ≡ some image)
    × (get_elem? (empty ∷ replaced ∷ []) i ≡ some l)
    × Replaced call (baseline) (wanted_of baseline image) l "new"
    × ("new" ≢ call.old_id)
verify_commit-Replaced_example =
    verify_commit-Replaced call baseline (append_text "sha256:" hex) (empty ∷ replaced ∷ []) "new"
      seen

-- A wait in which nothing is replaced.
abbrev idle : List Look
idle =
    empty
    ∷ look 1020 (inventory "old" [])
    ∷ look 2040 (inventory "old" [])
    ∷ look 3060 (inventory "old" [])
    ∷ []

ticks : (i : ℕ) (l : Look) → get_elem? idle i ≡ some l → 0 + 1000 * i ≤ l.head
ticks zero l e = ground arith
ticks (suc zero) l e = ground arith
ticks (suc (suc zero)) l e = ground arith
ticks (suc (suc (suc zero))) l e = ground arith
ticks (suc (suc (suc (suc i)))) l e = ground arith

verify_commit-ends_example : verify_commit call baseline "" idle ≢ waiting
verify_commit-ends_example =
    verify_commit-ends call baseline "" idle 0 3 ticks (omega arith)
      (look 3060 (inventory "old" [])) refl
