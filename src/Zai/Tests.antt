-- ===== src/Zai/Tests.antt =====
-- Three visits in one window, and the theorem applied to them.
use llm_env.Prelude.{eq_iff, ◌≤◌, ◌≡◌, refl, true, false, some, List, [], ◌∷◌}
use llm_env.Zai.{Visit, Weekly, Card, answered, raised, redeemed, already_redeemed, error, check}
use llm_env.Zai.Once.{redeems, check-redeems_le}

abbrev spent : Weekly
spent = record { used = 995; total = 1000; window = "2026-11-01" }

abbrev card : Card
card = record { reset_type = "WEEK"; selection_token = "c1"; expires_at = "2026-12-01" }

abbrev failing : Visit
failing = record {
  connection = "z1";
  usage = answered (some spent);
  cards = answered (card ∷ []);
  redeem = raised;
  dry_run = false;
}

abbrev good : Visit
good = record failing { redeem = answered tt }

abbrev visits : List Visit
visits = failing ∷ good ∷ good ∷ []

visited : check [] visits ≡ (("z1", "2026-11-01") ∷ [], error ∷ redeemed ∷ already_redeemed ∷ [])
unfolding check
visited = refl

check-redeems_le_example : redeems "z1" visits (check [] visits).1 ≤ 1
check-redeems_le_example =
    check-redeems_le "z1" "2026-11-01" [] visits
      (λ e. let f : false ≡ true = (eq_iff "2026-11-01" "").1 e in cc)
      ((λ w j u. cc), ((λ w j u. cc), ((λ w j u. cc), tt)))
