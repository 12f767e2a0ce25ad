-- ===== src/Resources/Limits.antt =====
-- pylib/resources.py, `compute_resource_limits`: what the host has, less a floor for the host and the
-- minima of the services, goes to llm-server, up to a ceiling.
use llm_env.Prelude.{
  ℕ, ◌+◌, ◌-◌, ◌*◌, ◌/◌, ◌%◌, min, max, Bool, true, false, String, List, [], ◌∷◌, ltb, leb, lookup,
  is_some, keep, if◌then◌else◌,
}
use llm_env.Resources.Overrides.{
  Overrides, Policy, policy, OverrideError, effective_policy, validate_overrides, services_of,
  fields_of,
}

abbrev pub host_cpu_floor : ℕ
host_cpu_floor = 2000

abbrev pub host_memory_floor_mib : ℕ
host_memory_floor_mib = 4096

pub record Inputs : Type 0 where
  pub host_cpus : ℕ  -- whole cores
  pub host_memory_mib : ℕ
  pub memory_ceiling_pct : ℕ
  pub memory_ceiling_floor_pct : ℕ
  pub cpu_ceiling_pct : ℕ
  pub cpu_ceiling_floor_pct : ℕ
  pub llm_server_enabled : Bool
  pub system_one_enabled : Bool

pub record Limits : Type 0 where
  pub omniroute : Policy
  pub remote_setup : Policy
  pub system_one : Policy
  pub phoenix : Policy
  pub llm_server_cpus : ℕ
  pub llm_server_memory_mib : ℕ
  pub overrides_applied : List (String × List String)
  pub hard_memory_cap_mib : ℕ
  pub soft_memory_reservation_mib : ℕ

pub data ResourceError : Type 0 where
  invalid_overrides : List OverrideError → ResourceError
  too_few_cpus too_little_memory : ResourceError

pub data Result : Type 0 where
  ok : Limits → Result
  err : ResourceError → Result

-- `round(n * pct / 100)`: half-way cases go to the even neighbour.
abbrev round_half : Bool → Bool → ℕ → ℕ
round_half true tie q = q
round_half false true q = q + q % 2
round_half false false q = q + 1

unfoldable pub percent : ℕ → ℕ → ℕ
percent n pct = let q = n * pct / 100 in let r = n * pct % 100 in round_half (ltb r 50) (leb r 50) q

-- The four effective policies.
pub record Policies : Type 0 where
  pub omniroute : Policy
  pub remote_setup : Policy
  pub system_one : Policy
  pub phoenix : Policy

unfoldable pub policies : Overrides → Policies
policies ov = record {
  omniroute = effective_policy (policy 1000 2000 768 2048) "omniroute" ov;
  remote_setup = effective_policy (policy 250 500 32 64) "remote_setup" ov;
  system_one = effective_policy (policy 1000 2000 2560 5120) "system_one" ov;
  phoenix = effective_policy (policy 250 1000 192 1024) "phoenix" ov;
}

unfoldable pub cpu_floor : Bool → Policies → ℕ
cpu_floor system_one_enabled p =
    let base = host_cpu_floor + p.omniroute.cpus_min + p.remote_setup.cpus_min in
    if system_one_enabled then base + p.system_one.cpus_min + p.phoenix.cpus_min else base

unfoldable pub memory_floor : Bool → Policies → ℕ
memory_floor system_one_enabled p =
    let base = host_memory_floor_mib + p.omniroute.memory_min_mib + p.remote_setup.memory_min_mib in
    if system_one_enabled
    then base + p.system_one.memory_min_mib + p.phoenix.memory_min_mib
    else base

-- With llm-server something must be left over; without it the floor itself is enough.
abbrev pub short : Bool → ℕ → ℕ → Bool
short llm_server_enabled have floor = if llm_server_enabled then leb have floor else ltb have floor

unfoldable pub llm_memory : Inputs → ℕ → ℕ
unfolding percent
llm_memory i floor =
    if i.llm_server_enabled
    then min (i.host_memory_mib - floor) (
        max (percent i.host_memory_mib i.memory_ceiling_floor_pct)
          (percent i.host_memory_mib i.memory_ceiling_pct))
    else 0

unfoldable pub llm_cpus : Inputs → ℕ → ℕ
unfolding percent
llm_cpus i floor =
    if i.llm_server_enabled
    then min (1000 * i.host_cpus - floor) (
        1000
        * max 1 (
            max (percent i.host_cpus i.cpu_ceiling_floor_pct)
              (percent i.host_cpus i.cpu_ceiling_pct)))
    else 0

abbrev disabled : Policy
disabled = policy 0 0 0 0

abbrev active : Bool → List String
active system_one_enabled =
    "omniroute"
    ∷ "remote_setup"
    ∷ (if system_one_enabled then "system_one" ∷ "phoenix" ∷ [] else [])

abbrev sorted_keys : List String
sorted_keys = "cpus_max" ∷ "cpus_min" ∷ "memory_max_mib" ∷ "memory_min_mib" ∷ []

-- `overrides_applied`: the overridden keys of each active service with a non-empty override.
unfoldable pub overrides_applied : Overrides → List String → List (String × List String)
overrides_applied ov [] = []
overrides_applied ov (s ∷ rest) =
    let later = overrides_applied ov rest in
    elim (fields_of (lookup s (services_of ov))) [
      | [] ↦ later
      | kv ∷ kvs ↦ (s, keep (λ k. is_some (lookup k (kv ∷ kvs))) sorted_keys) ∷ later
    ]

unfoldable pub limits_of : Inputs → Overrides → Policies → Limits
unfolding llm_memory llm_cpus overrides_applied memory_floor cpu_floor
limits_of i ov p =
    let memory = llm_memory i (memory_floor i.system_one_enabled p) in
    let system_one = if i.system_one_enabled then p.system_one else disabled in
    let phoenix = if i.system_one_enabled then p.phoenix else disabled in
    record {
      omniroute = p.omniroute;
      remote_setup = p.remote_setup;
      system_one = system_one;
      phoenix = phoenix;
      llm_server_cpus = llm_cpus i (cpu_floor i.system_one_enabled p);
      llm_server_memory_mib = memory;
      overrides_applied = overrides_applied ov (active i.system_one_enabled);
      hard_memory_cap_mib =
          memory
          + (p.omniroute.memory_max_mib + p.remote_setup.memory_max_mib + system_one.memory_max_mib
              + phoenix.memory_max_mib);
      soft_memory_reservation_mib =
          p.omniroute.memory_min_mib + p.remote_setup.memory_min_mib + system_one.memory_min_mib
          + phoenix.memory_min_mib;
    }

abbrev pub checked : Inputs → Overrides → Policies → Result
checked i ov p =
    if short i.llm_server_enabled (1000 * i.host_cpus) (cpu_floor i.system_one_enabled p)
    then err too_few_cpus
    else if short i.llm_server_enabled i.host_memory_mib (memory_floor i.system_one_enabled p)
    then err too_little_memory
    else ok (limits_of i ov p)

abbrev pub unless_invalid : List OverrideError → Result → Result
unless_invalid [] r = r
unless_invalid (e ∷ es) r = err (invalid_overrides (e ∷ es))

unfoldable pub compute_resource_limits : Inputs → Overrides → Result
compute_resource_limits i ov = unless_invalid (validate_overrides ov) (checked i ov (policies ov))
