-- ===== src/Budget/Tests.antt =====
-- A budget for two models on a 16 GiB card.
use llm_env.Prelude.{◌≤◌, ◌≡◌, refl, true, some, [], ◌∷◌, map, sum, arith}
use llm_env.Prelude.Int.{pos}
use llm_env.Budget.{
  Cost, Request, Report, Geometry, ok, required_mib, kv_cache_components_mib, compute_budget,
}
use llm_env.Budget.Resident.{required_covers, done, pick, skip}
use llm_env.Budget.Cache.{kv_cache_mono, IsSmaller}

abbrev small : Cost
small = record { alias = "small"; weights_mib = 3000; kv_mib = 500 }

abbrev large : Cost
large = record { alias = "large"; weights_mib = 9000; kv_mib = 2000 }

abbrev request : Request
request = record {
  vram_total_mib = 16304;
  compositor_used_mib = 300;
  reserve_floor_mib = 1024;
  models_max = 1;
  cache_type_k = "q8_0";
  cache_type_v = "q8_0";
  vram_budget_ceiling_mib = some 15488;
  extra_reserved_mib = 0;
}

abbrev report : Report
report = record {
  reserve_mib = 1024;
  available_mib = pos 13440;
  required_mib = 11512;
  shortfall_mib = 0;
  feasible = true;
  resident_models = large ∷ [];
  remedies = [];
}

computed : compute_budget request (small ∷ large ∷ []) ≡ ok report
unfolding compute_budget required_mib
computed = refl

required_covers_example : sum (map required_mib (small ∷ [])) ≤ 11512
required_covers_example =
    required_covers request report computed (pick small (skip large done)) (omega arith)

abbrev geometry : Geometry
geometry = record {
  layers =
      record { kind = "full"; head_count_kv = 8; key_length = 128; value_length = 128 }
      ∷ record { kind = "swa"; head_count_kv = 8; key_length = 128; value_length = 128 }
      ∷ [];
  sliding_window = some 1024;
}

kv_cache_mono_example :
    IsSmaller
      (kv_cache_components_mib geometry 8192 512 "f16" "q8_0")
      (kv_cache_components_mib geometry 32768 512 "f16" "q8_0")
kv_cache_mono_example = kv_cache_mono geometry 8192 32768 512 "f16" "q8_0" (omega arith)
