-- ===== src/Resources/Positive.antt =====
-- Overrides that validate leave every container with limits.
use llm_env.Prelude.{
  ◌≤◌, ◌<◌, ◌≡◌, ◌⊎◌, refl, some, String, List, [], ◌∷◌, ◌++◌, str_eq, lookup, eq_iff, arith,
  Bool-cases, Option-cases, inl, inr,
}
use llm_env.Prelude.Int.{pos, negsuc}
use llm_env.Resources.Overrides.{
  Value, Override, Overrides, Policy, default_policy, fields, not_mapping, whole, decimal,
  nonfinite, boolean, other, set_field, merge, effective_policy, field_errors, fields_errors,
  order_errors, service_errors, all_errors, validate_overrides, OverrideError, absent, services,
  malformed,
}

-- What a container needs to be capped at all, and its minimum not to exceed its maximum.
pub record IsCapped (p : Policy) : Type 0 where
  pub cpus : 0 < p.cpus_min
  pub cpus_order : p.cpus_min ≤ p.cpus_max
  pub memory : 0 < p.memory_min_mib
  pub memory_order : p.memory_min_mib ≤ p.memory_max_mib

abbrev IsPositive : Policy → Type 0
IsPositive p = (0 < p.cpus_min) × (0 < p.cpus_max) × (0 < p.memory_min_mib) × (0 < p.memory_max_mib)

append_nil : {A : Type 0} (xs ys : List A) → xs ++ ys ≡ [] → (xs ≡ []) × (ys ≡ [])
append_nil [] ys h = (refl, h)
append_nil (x ∷ xs) ys h = cc

set_field-IsPositive :
    (s key : String) (v : Value) (p : Policy)
    → field_errors s key v ≡ []
    → IsPositive p
    → IsPositive (set_field key v p)
unfolding field_errors set_field
set_field-IsPositive s key (whole (pos n)) p h k = ground arith
set_field-IsPositive s key (whole (negsuc n)) p h k = ground arith
set_field-IsPositive s key (decimal (pos n)) p h k = ground arith
set_field-IsPositive s key (decimal (negsuc n)) p h k = ground arith
set_field-IsPositive s key nonfinite p h k = ground arith
set_field-IsPositive s key (boolean b) p h k = ground arith
set_field-IsPositive s key other p h k = ground arith

merge-IsPositive :
    (s : String) (kvs : List (String × Value)) (p : Policy)
    → fields_errors s kvs ≡ []
    → IsPositive p
    → IsPositive (merge kvs p)
unfolding fields_errors merge
merge-IsPositive s [] p h k = k
merge-IsPositive s ((key, v) ∷ kvs) p h k =
    let (here, rest) = append_nil (field_errors s key v) (fields_errors s kvs) h in
    merge-IsPositive s kvs (set_field key v p) rest (set_field-IsPositive s key v p here k)

capped : (s : String) (p : Policy) → IsPositive p → order_errors s p ≡ [] → IsCapped p
unfolding order_errors
capped s p k h = record {
  cpus = ground arith;
  cpus_order = ground arith;
  memory = ground arith;
  memory_order = ground arith;
}

default-IsCapped : (s : String) (d : Policy) → lookup s default_policy ≡ some d → IsCapped d
default-IsCapped s d h = record {
  cpus = ground arith;
  cpus_order = ground arith;
  memory = ground arith;
  memory_order = ground arith;
}

default-IsPositive : (d : Policy) → IsCapped d → IsPositive d
default-IsPositive d c =
    (c.cpus, omega (arith, c.cpus, c.cpus_order), c.memory, omega (arith, c.memory, c.memory_order))

service_errors-lookup :
    (s : String) (o : Override) (svcs : List (String × Override))
    → all_errors svcs ≡ []
    → lookup s svcs ≡ some o
    → service_errors s o ≡ []
unfolding all_errors
service_errors-lookup s o [] h e = cc
service_errors-lookup s o ((j, o') ∷ rest) h e =
    let (here, later) = append_nil (service_errors j o') (all_errors rest) h in
    elim (Bool-cases (str_eq j s)) [
      | inl same ↦ ground (arith, eq_iff j s, here)
      | inr differs ↦ service_errors-lookup s o rest later (ground arith)
    ]

merged-IsCapped :
    (s : String) (d : Policy) (kvs : List (String × Value))
    → lookup s default_policy ≡ some d
    → service_errors s (fields kvs) ≡ []
    → IsCapped (merge kvs d)
unfolding service_errors
merged-IsCapped s d kvs e h = elim (Nil-cases (fields_errors s kvs)) [
  | inl clean ↦
      capped s (merge kvs d)
        (merge-IsPositive s kvs d clean (default-IsPositive d (default-IsCapped s d e)))
        (rw (e, clean, service_errors) at h)
  | inr (x, (xs, some_error)) ↦ let f : x ∷ xs ≡ [] = rw (e, some_error, service_errors) at h in cc
]
  where
    Nil-cases :
        (xs : List OverrideError)
        → (xs ≡ []) ⊎ ((y : OverrideError) × ((ys : List OverrideError) × (xs ≡ y ∷ ys)))
    Nil-cases [] = inl refl
    Nil-cases (y ∷ ys) = inr (y, (ys, refl))

-- If the overrides validate, every service that has a built-in policy keeps limits: its effective
-- maxima of CPU and of memory are positive, where 0 would uncap the container, and no minimum is
-- above its maximum.
pub effective_policy-IsCapped :
    (s : String) (d : Policy) (ov : Overrides)
    → lookup s default_policy ≡ some d
    → validate_overrides ov ≡ []
    → IsCapped (effective_policy d s ov)
unfolding effective_policy validate_overrides
effective_policy-IsCapped s d absent e h = default-IsCapped s d e
effective_policy-IsCapped s d malformed e h = cc
effective_policy-IsCapped s d (services svcs) e h = elim (Option-cases (lookup s svcs)) [
  | inl missing ↦ rw missing (default-IsCapped s d e)
  | inr (fields kvs, found) ↦
      rw found (merged-IsCapped s d kvs e (service_errors-lookup s (fields kvs) svcs h found))
  | inr (not_mapping, found) ↦ rw found (default-IsCapped s d e)
]
