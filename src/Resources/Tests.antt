-- ===== src/Resources/Tests.antt =====
-- Concrete overrides and hosts, and the theorems applied to them.
use llm_env.Prelude.{arith, ◌≤◌, ◌≡◌, refl, true, false, [], ◌∷◌}
use llm_env.Prelude.Int.{pos}
use llm_env.Resources.Overrides.{
  Policy, default_policy, Overrides, policy, whole, fields, services, effective_policy,
  validate_overrides, not_positive_number, all_errors, service_errors, fields_errors, field_errors,
  set_field,
}
use llm_env.Resources.Limits.{
  Inputs, Limits, ok, compute_resource_limits, cpu_floor, memory_floor, policies, limits_of,
}
use llm_env.Resources.Verdict.{
  Counters, fine, alert, live_verdict, lowered_caps, rank, live_verdict_mono,
}
use llm_env.Resources.Positive.{IsCapped, effective_policy-IsCapped}
use llm_env.Resources.Fits.{IsFitting, compute_resource_limits-IsFitting}

abbrev raised : Overrides
raised = services (
    ("omniroute", fields (("cpus_max", whole (pos 4)) ∷ ("memory_max_mib", whole (pos 4096)) ∷ []))
    ∷ [])

abbrev zeroed : Overrides
zeroed = services (("omniroute", fields (("cpus_max", whole (pos 0)) ∷ [])) ∷ [])

raised_valid : validate_overrides raised ≡ []
unfolding validate_overrides all_errors service_errors fields_errors field_errors set_field
raised_valid = refl

zeroed_invalid : validate_overrides zeroed ≡ not_positive_number "omniroute" "cpus_max" ∷ []
unfolding validate_overrides all_errors service_errors fields_errors field_errors set_field
zeroed_invalid = refl

effective_policy-IsCapped_example :
    IsCapped (effective_policy (policy 1000 2000 768 2048) "omniroute" raised)
effective_policy-IsCapped_example =
    effective_policy-IsCapped "omniroute" (policy 1000 2000 768 2048) raised refl raised_valid

abbrev host : Inputs
host = record {
  host_cpus = 16;
  host_memory_mib = 64000;
  memory_ceiling_pct = 46;
  memory_ceiling_floor_pct = 30;
  cpu_ceiling_pct = 60;
  cpu_ceiling_floor_pct = 20;
  llm_server_enabled = true;
  system_one_enabled = false;
}

abbrev host_limits : Limits
host_limits = record {
  omniroute = policy 1000 4000 768 4096;
  remote_setup = policy 250 500 32 64;
  system_one = policy 0 0 0 0;
  phoenix = policy 0 0 0 0;
  llm_server_cpus = 10000;
  llm_server_memory_mib = 29440;
  overrides_applied = ("omniroute", "cpus_max" ∷ "memory_max_mib" ∷ []) ∷ [];
  hard_memory_cap_mib = 33600;
  soft_memory_reservation_mib = 800;
}

host_computed : compute_resource_limits host raised ≡ ok host_limits
unfolding compute_resource_limits validate_overrides all_errors service_errors fields_errors
    field_errors set_field cpu_floor memory_floor policies effective_policy limits_of
host_computed = refl

compute_resource_limits-IsFitting_example :
    (validate_overrides raised ≡ []) × IsFitting host host_limits
compute_resource_limits-IsFitting_example =
    compute_resource_limits-IsFitting host raised host_limits host_computed

abbrev calm : Counters
calm = record {
  oom_kill = 0;
  max_events = 0;
  peak = 800;
  cap = 1000;
  full_avg300 = 10;
  some_avg300 = 20;
  restart_pending = false;
}

abbrev near : Counters
near = record calm { peak = 930 }

verdicts : (live_verdict calm ≡ fine) × (live_verdict near ≡ alert)
unfolding live_verdict
verdicts = (refl, refl)

live_verdict_mono_example : rank (live_verdict calm) ≤ rank (live_verdict near)
live_verdict_mono_example = live_verdict_mono calm near (record {
  oom_kill = omega arith;
  max_events = omega arith;
  peak = omega arith;
  cap = refl;
  full = omega arith;
  partial = omega arith;
  pending = λ h. h;
})

abbrev lowered : Policy
lowered = policy 1000 2000 768 1024

only_omniroute :
    lowered_caps (("omniroute", lowered) ∷ ("phoenix", policy 0 0 0 0) ∷ []) default_policy
    ≡ "omniroute" ∷ []
unfolding lowered_caps
only_omniroute = refl
