-- ===== src/Budget/Resident.antt =====
-- The budget covers the worst choice of resident models, and `feasible` says that it fits.
use llm_env.Prelude.{
  ℕ, zero, suc, ◌+◌, ◌-◌, ◌≤◌, ◌==◌, ◌≡◌, ◌↔◌, max, true, false, List, [], ◌∷◌, map, length, take,
  sum, arith, leb, Bool-cases, inl, inr, tests,
}
use llm_env.Prelude.Int.{pos, ◌-ℤ◌, pos_part}
use llm_env.Budget.{
  Cost, Request, Report, ok, required_mib, insert_largest, sort_largest, compute_budget,
  ceiling_mib, spike_headroom_mib,
}

-- What the first `k` models of a list need.
abbrev top : ℕ → List Cost → ℕ
top k cs = sum (map required_mib (take k cs))

abbrev IsAtMost : Cost → List Cost → Type 0
IsAtMost c [] = Unit
IsAtMost c (d ∷ ds) = required_mib d ≤ required_mib c

abbrev IsSorted : List Cost → Type 0
IsSorted [] = Unit
IsSorted (c ∷ cs) = IsAtMost c cs × IsSorted cs

insert_above :
    (b c : Cost) (cs : List Cost)
    → required_mib c ≤ required_mib b
    → IsAtMost b cs
    → IsAtMost b (insert_largest c cs)
unfolding insert_largest
insert_above b c [] le h = le
insert_above b c (d ∷ ds) le h = ground arith

insert_largest-IsSorted : (c : Cost) (cs : List Cost) → IsSorted cs → IsSorted (insert_largest c cs)
unfolding insert_largest
insert_largest-IsSorted c [] h = (tt, tt)
insert_largest-IsSorted c (d ∷ ds) h = elim (Bool-cases (leb (required_mib d) (required_mib c))) [
  | inl le ↦ rw le (omega tests, h)
  | inr gt ↦ rw gt (insert_above d c ds (omega tests) h.0, insert_largest-IsSorted c ds h.1)
]

sort_largest-IsSorted : (cs : List Cost) → IsSorted (sort_largest cs)
unfolding sort_largest
sort_largest-IsSorted [] = tt
sort_largest-IsSorted (c ∷ cs) =
    insert_largest-IsSorted c (sort_largest cs) (sort_largest-IsSorted cs)

-- Dropping the largest model lowers the sum.
top-tail : (k : ℕ) (c : Cost) (cs : List Cost) → IsSorted (c ∷ cs) → top k cs ≤ top k (c ∷ cs)
top-tail zero c cs h = omega arith
top-tail (suc k) c [] h = omega arith
top-tail (suc k) c (d ∷ ds) h = omega (arith, top-tail k d ds h.1)

top-insert_le :
    (k : ℕ) (c : Cost) (cs : List Cost) → IsSorted cs → top k cs ≤ top k (insert_largest c cs)
unfolding insert_largest
top-insert_le zero c cs h = omega arith
top-insert_le (suc k) c [] h = omega arith
top-insert_le (suc k) c (d ∷ ds) h = elim (Bool-cases (leb (required_mib d) (required_mib c))) [
  | inl le ↦ rw le (top-tail (suc k) c (d ∷ ds) (omega tests, h))
  | inr gt ↦ rw gt (omega (arith, top-insert_le k c ds h.1))
]

top-insert :
    (k : ℕ) (c : Cost) (cs : List Cost)
    → IsSorted cs
    → required_mib c + top k cs ≤ top (suc k) (insert_largest c cs)
unfolding insert_largest
top-insert k c [] h = ground arith
top-insert zero c (d ∷ ds) h = elim (Bool-cases (leb (required_mib d) (required_mib c))) [
  | inl le ↦ rw le (omega arith)
  | inr gt ↦ rw gt (omega tests)
]
top-insert (suc k) c (d ∷ ds) h = elim (Bool-cases (leb (required_mib d) (required_mib c))) [
  | inl le ↦ rw le (omega arith)
  | inr gt ↦ rw gt (omega (arith, top-insert k c ds h.1))
]

-- `chosen` picks some of the models, in their order.
pub data IsChoice : List Cost → List Cost → Type 0 where
  done : IsChoice [] []
  pick : {chosen cs : List Cost} (c : Cost) → IsChoice chosen cs → IsChoice (c ∷ chosen) (c ∷ cs)
  skip : {chosen cs : List Cost} (c : Cost) → IsChoice chosen cs → IsChoice chosen (c ∷ cs)

choice-le-top :
    (k : ℕ) {chosen cs : List Cost}
    → IsChoice chosen cs
    → length chosen ≤ k
    → sum (map required_mib chosen) ≤ top k (sort_largest cs)
unfolding sort_largest
choice-le-top k done h = omega arith
choice-le-top zero (pick c p) h = absurd (omega arith)
choice-le-top (suc k) (pick {cs} c p) h = omega (
  arith,
  choice-le-top k p (omega arith),
  top-insert k c (sort_largest cs) (sort_largest-IsSorted cs),
)
choice-le-top k (skip {cs} c p) h =
    omega
      (arith, choice-le-top k p h, top-insert_le k c (sort_largest cs) (sort_largest-IsSorted cs))

required_eq :
    (r : Request) (costs : List Cost) (rep : Report)
    → compute_budget r costs ≡ ok rep
    → rep.required_mib ≡ top r.models_max (sort_largest costs)
unfolding compute_budget
required_eq r costs rep h = ground arith

-- The required VRAM that a successful `compute_budget` reports is enough for any choice of at most
-- `models_max` of the models to be resident at once.
pub required_covers :
    (r : Request) {chosen costs : List Cost} (rep : Report)
    → compute_budget r costs ≡ ok rep
    → IsChoice chosen costs
    → length chosen ≤ r.models_max
    → sum (map required_mib chosen) ≤ rep.required_mib
required_covers r {costs} rep e c h =
    omega (arith, required_eq r costs rep e, choice-le-top r.models_max c h)

shortfall :
    (a b c d q : ℕ) → pos_part (pos q -ℤ (pos a -ℤ pos b -ℤ pos c -ℤ pos d)) ≡ q + (b + (c + d)) - a
unfolding ◌-ℤ◌
shortfall a b c d q = ground arith

reported :
    (r : Request) (costs : List Cost) (rep : Report)
    → compute_budget r costs ≡ ok rep
    → (rep.shortfall_mib
        ≡ rep.required_mib
          + (max r.compositor_used_mib r.reserve_floor_mib
              + (r.extra_reserved_mib + spike_headroom_mib))
          - ceiling_mib r)
      × (rep.feasible ≡ (rep.shortfall_mib == 0))
unfolding compute_budget
reported r costs rep h =
    let parts =
      shortfall (ceiling_mib r) (max r.compositor_used_mib r.reserve_floor_mib) r.extra_reserved_mib
        spike_headroom_mib rep.required_mib in
    (ground arith, ground arith)

-- A successful `compute_budget` reports `feasible` exactly if the required VRAM, the larger of the
-- compositor's use and the reserve floor, the extra reservation and the spike headroom together fit
-- under the ceiling. Otherwise the shortfall is what is missing.
pub feasible_iff :
    (r : Request) (costs : List Cost) (rep : Report)
    → compute_budget r costs ≡ ok rep
    → let need =
        rep.required_mib
        + (max r.compositor_used_mib r.reserve_floor_mib
            + (r.extra_reserved_mib + spike_headroom_mib)) in
      ((rep.feasible ≡ true) ↔ (need ≤ ceiling_mib r))
      × (rep.feasible ≡ false → ceiling_mib r + rep.shortfall_mib ≡ need)
feasible_iff r costs rep h =
    let (short, flag) = reported r costs rep h in
    ((λ f. ground arith, λ le. ground arith), λ f. ground arith)
