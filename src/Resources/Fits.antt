-- ===== src/Resources/Fits.antt =====
-- What `compute_resource_limits` gives away fits the host.
use llm_env.Prelude.{
  ℕ, ◌+◌, ◌*◌, ◌≤◌, ◌<◌, ◌≡◌, refl, true, false, List, [], ◌∷◌, arith, Bool-cases, inl, inr,
}
use mathlib.Core.Path.{subst}
use llm_env.Resources.Overrides.{Overrides, OverrideError, validate_overrides}
use llm_env.Resources.Limits.{
  Inputs, Limits, Result, ok, err, too_few_cpus, too_little_memory, host_cpu_floor,
  host_memory_floor_mib, Policies, policies, cpu_floor, memory_floor, short, llm_memory, llm_cpus,
  limits_of, checked, unless_invalid, compute_resource_limits,
}

-- The budget of the host, in memory and in CPU.
pub record IsFitting (i : Inputs) (l : Limits) : Type 0 where
  pub memory :
      host_memory_floor_mib + l.soft_memory_reservation_mib + l.llm_server_memory_mib
      ≤ i.host_memory_mib
  pub cpus :
      host_cpu_floor
        + (l.omniroute.cpus_min + l.remote_setup.cpus_min + l.system_one.cpus_min
            + l.phoenix.cpus_min)
        + l.llm_server_cpus
      ≤ 1000 * i.host_cpus
  pub server_off :
      i.llm_server_enabled ≡ false → (l.llm_server_cpus ≡ 0) × (l.llm_server_memory_mib ≡ 0)
  pub server_cpus : i.llm_server_enabled ≡ true → 0 < l.llm_server_cpus

llm_memory-fits :
    (i : Inputs) (f : ℕ)
    → short i.llm_server_enabled i.host_memory_mib f ≡ false
    → f + llm_memory i f ≤ i.host_memory_mib
unfolding llm_memory
llm_memory-fits i f h = ground arith

llm_cpus-fits :
    (i : Inputs) (f : ℕ)
    → short i.llm_server_enabled (1000 * i.host_cpus) f ≡ false
    → (f + llm_cpus i f ≤ 1000 * i.host_cpus) × (i.llm_server_enabled ≡ true → 0 < llm_cpus i f)
unfolding llm_cpus
llm_cpus-fits i f h = ground arith

no_memory : (i : Inputs) (f : ℕ) → i.llm_server_enabled ≡ false → llm_memory i f ≡ 0
unfolding llm_memory
no_memory i f h = ground arith

no_cpus : (i : Inputs) (f : ℕ) → i.llm_server_enabled ≡ false → llm_cpus i f ≡ 0
unfolding llm_cpus
no_cpus i f h = ground arith

limits_of-IsFitting :
    (i : Inputs) (ov : Overrides) (p : Policies)
    → short i.llm_server_enabled (1000 * i.host_cpus) (cpu_floor i.system_one_enabled p) ≡ false
    → short i.llm_server_enabled i.host_memory_mib (memory_floor i.system_one_enabled p) ≡ false
    → IsFitting i (limits_of i ov p)
unfolding limits_of cpu_floor memory_floor
limits_of-IsFitting i ov p c m = record {
  memory = ground (arith, llm_memory-fits i (memory_floor i.system_one_enabled p) m);
  cpus = ground (arith, llm_cpus-fits i (cpu_floor i.system_one_enabled p) c);
  server_off = λ off. (
    no_cpus i (cpu_floor i.system_one_enabled p) off,
    no_memory i (memory_floor i.system_one_enabled p) off,
  );
  server_cpus = λ on. (llm_cpus-fits i (cpu_floor i.system_one_enabled p) c).1 on;
}

valid_result :
    (es : List OverrideError) (r : Result) (l : Limits)
    → unless_invalid es r ≡ ok l
    → (es ≡ []) × (r ≡ ok l)
valid_result [] r l h = (refl, h)
valid_result (e ∷ es) r l h = cc

checked-IsFitting :
    (i : Inputs) (ov : Overrides) (p : Policies) (l : Limits)
    → checked i ov p ≡ ok l
    → IsFitting i l
checked-IsFitting i ov p l h =
    elim (Bool-cases
      (short i.llm_server_enabled (1000 * i.host_cpus) (cpu_floor i.system_one_enabled p))) [
        | inl few ↦ let f : err too_few_cpus ≡ ok l = rw few at h in cc
        | inr enough ↦
            elim (Bool-cases (
              short i.llm_server_enabled i.host_memory_mib (memory_floor i.system_one_enabled p))) [
                | inl little ↦ let f : err too_little_memory ≡ ok l = rw (enough, little) at h in cc
                | inr ample ↦
                    let f : ok (limits_of i ov p) ≡ ok l = rw (enough, ample) at h in
                    let e : limits_of i ov p ≡ l = cc in
                    subst (λ (x : Limits). IsFitting i x) e
                      (limits_of-IsFitting i ov p enough ample)
              ]
      ]

-- Limits that `compute_resource_limits` returns come from overrides that validate, and fit the host:
-- its memory floor, the soft reservations and llm-server's memory together are within the memory of
-- the host, and its CPU floor, the CPU minima and llm-server's CPUs are within its CPUs. A disabled
-- llm-server gets nothing, an enabled one more than 0 CPUs, which would uncap it.
pub compute_resource_limits-IsFitting :
    (i : Inputs) (ov : Overrides) (l : Limits)
    → compute_resource_limits i ov ≡ ok l
    → (validate_overrides ov ≡ []) × IsFitting i l
unfolding compute_resource_limits
compute_resource_limits-IsFitting i ov l h =
    let (valid, e) = valid_result (validate_overrides ov) (checked i ov (policies ov)) l h in
    (valid, checked-IsFitting i ov (policies ov) l e)
