-- ===== src/Budget.antt =====
-- pylib/budget.py: the VRAM that the enabled models need against what the GPU has left. Cache bytes
-- per element are kept in 32nds of a byte, which makes the code's floats integers; the code's own
-- sums are exact below 2 ^ 53.
pub mod Resident
pub mod Cache
mod Tests
use llm_env.Prelude.{
  ℕ, ◌+◌, ◌-◌, ◌*◌, ◌/◌, min, max, Bool, true, false, not, ◌&&◌, ◌||◌, Option, none, some, String,
  List, [], ◌∷◌, ◌++◌, map, length, take, sum, ltb, leb, ◌==◌, str_eq, or_else, lookup,
  if◌then◌else◌,
}
use llm_env.Prelude.Int.{ℤ, pos, pos_part, ◌-ℤ◌}

abbrev pub runtime_overhead_mib : ℕ
runtime_overhead_mib = 512

abbrev pub spike_headroom_mib : ℕ
spike_headroom_mib = 1024

abbrev pub mib : ℕ
mib = 1024 * 1024

-- `BYTES_PER_ELEMENT`, in 32nds.
abbrev pub bytes_per_element : List (String × ℕ)
bytes_per_element =
    ("f32", 128)
    ∷ ("f16", 64)
    ∷ ("bf16", 64)
    ∷ ("q8_0", 34)
    ∷ ("q5_1", 24)
    ∷ ("q5_0", 22)
    ∷ ("q4_1", 20)
    ∷ ("q4_0", 18)
    ∷ []

pub data BudgetError : Type 0 where
  unknown_cache_type invalid_layer bad_models_max : BudgetError

pub data Result (A : Type 0) : Type 0 where
  ok : A → Result A
  err : BudgetError → Result A

infixl 5 ◌>>=◌
abbrev pub ◌>>=◌ : {A B : Type 0} → Result A → (A → Result B) → Result B
ok a >>= f = f a
err e >>= f = err e

unfoldable pub pad256 : ℕ → ℕ
pad256 value = (value + 255) / 256 * 256

-- `math.ceil(a / b)`
abbrev pub ceil_div : ℕ → ℕ → ℕ
ceil_div a b = (a + (b - 1)) / b

pub record Layer : Type 0 where
  pub kind : String
  pub head_count_kv : ℕ
  pub key_length : ℕ
  pub value_length : ℕ

-- `sliding_window` is `none` where it is not an integer.
pub record Geometry : Type 0 where
  pub layers : List Layer
  pub sliding_window : Option ℕ

abbrev pub layer_bytes : ℕ → ℕ → Layer → ℕ → ℕ
layer_bytes k v l cells = cells * (l.head_count_kv * (l.key_length * k + l.value_length * v))

abbrev pub swa_cells : ℕ → ℕ → ℕ → ℕ
swa_cells ctx_size window ubatch_size = pad256 (min ctx_size (window + ubatch_size))

-- One turn of the loop: the full-attention and the sliding-window bytes that a layer adds.
unfoldable pub layer_costs : ℕ → ℕ → Option ℕ → ℕ → ℕ → Layer → Result (ℕ × ℕ)
layer_costs k v window ctx_size ubatch_size l =
    if str_eq l.kind "recurrent"
    then ok (0, 0)
    else if str_eq l.kind "full"
    then ok (layer_bytes k v l ctx_size, 0)
    else if str_eq l.kind "swa"
    then elim window [
      | none ↦ err invalid_layer
      | some w ↦ ok (0, layer_bytes k v l (swa_cells ctx_size w ubatch_size))
    ]
    else err invalid_layer

-- The loop; a sum from the right is the same sum.
unfoldable pub sum_layers : ℕ → ℕ → Option ℕ → ℕ → ℕ → List Layer → Result (ℕ × ℕ)
sum_layers k v window ctx_size ubatch_size [] = ok (0, 0)
sum_layers k v window ctx_size ubatch_size (l ∷ ls) = do
  (full, swa) ← layer_costs k v window ctx_size ubatch_size l
  (fulls, swas) ← sum_layers k v window ctx_size ubatch_size ls
  ok (full + fulls, swa + swas)

pub record KvCache : Type 0 where
  pub full_kv_mib : ℕ
  pub swa_kv_mib : ℕ
  pub kv_mib : ℕ

abbrev pub known_type : String → Result ℕ
known_type name = elim (lookup name bytes_per_element) [
  | none ↦ err unknown_cache_type
  | some b ↦ ok b
]

abbrev pub to_kv_cache : ℕ × ℕ → KvCache
to_kv_cache (full, swa) =
    let full_mib = ceil_div full (32 * mib) in
    let swa_mib = ceil_div swa (32 * mib) in
    record { full_kv_mib = full_mib; swa_kv_mib = swa_mib; kv_mib = full_mib + swa_mib }

unfoldable pub kv_cache_components_mib : Geometry → ℕ → ℕ → String → String → Result KvCache
kv_cache_components_mib geometry ctx_size ubatch_size cache_type_k cache_type_v = do
  k ← known_type cache_type_k
  v ← known_type cache_type_v
  total ← sum_layers k v geometry.sliding_window ctx_size ubatch_size geometry.layers
  ok (to_kv_cache total)

pub record Cost : Type 0 where
  pub alias : String
  pub weights_mib : ℕ
  pub kv_mib : ℕ

unfoldable pub required_mib : Cost → ℕ
required_mib c = c.weights_mib + c.kv_mib + runtime_overhead_mib

-- `sorted(..., key=required_mib, reverse=True)`, which keeps the order of equal ones.
unfoldable pub insert_largest : Cost → List Cost → List Cost
insert_largest c [] = c ∷ []
insert_largest c (d ∷ ds) =
    if leb (required_mib d) (required_mib c) then c ∷ d ∷ ds else d ∷ insert_largest c ds

unfoldable pub sort_largest : List Cost → List Cost
unfolding insert_largest
sort_largest [] = []
sort_largest (c ∷ cs) = insert_largest c (sort_largest cs)

pub data Remedy : Type 0 where
  quantize_cache reduce_ctx_size flash_attn : Remedy
  disable_model : String → ℕ → Remedy
  move_compositor : ℕ → Remedy

pub record Request : Type 0 where
  pub vram_total_mib : ℕ
  pub compositor_used_mib : ℕ
  pub reserve_floor_mib : ℕ
  pub models_max : ℕ
  pub cache_type_k : String
  pub cache_type_v : String
  pub vram_budget_ceiling_mib : Option ℕ
  pub extra_reserved_mib : ℕ

pub record Report : Type 0 where
  pub reserve_mib : ℕ
  pub available_mib : ℤ
  pub required_mib : ℕ
  pub shortfall_mib : ℕ
  pub feasible : Bool
  pub resident_models : List Cost
  pub remedies : List Remedy

abbrev pub ceiling_mib : Request → ℕ
ceiling_mib r = elim r.vram_budget_ceiling_mib [
  | none ↦ r.vram_total_mib
  | some c ↦ min r.vram_total_mib c
]

abbrev is_quantized : String → Bool
is_quantized name = leb (or_else (lookup name bytes_per_element) 64) 34

abbrev disable_largest : Bool → List Cost → List Remedy
disable_largest true (c ∷ cs) = disable_model c.alias (required_mib c) ∷ []
disable_largest _ _ = []

unfoldable pub remedies_of : Request → List Cost → List Cost → List Remedy
remedies_of r models resident =
    (if is_quantized r.cache_type_k && is_quantized r.cache_type_v then [] else quantize_cache ∷ [])
    ++ (reduce_ctx_size ∷ flash_attn ∷ []
        ++ (disable_largest (ltb r.models_max (length models)) resident
            ++ (if ltb r.reserve_floor_mib r.compositor_used_mib
                then move_compositor (r.compositor_used_mib - r.reserve_floor_mib) ∷ []
                else [])))

unfoldable pub compute_budget : Request → List Cost → Result Report
unfolding sort_largest ◌-ℤ◌
compute_budget r model_costs =
    if ltb r.models_max 1 || ltb (length model_costs) r.models_max
    then err bad_models_max
    else (let reserve = max r.compositor_used_mib r.reserve_floor_mib in
        let available =
          pos (ceiling_mib r)
          -ℤ pos reserve
          -ℤ pos r.extra_reserved_mib
          -ℤ pos spike_headroom_mib in
        let resident = take r.models_max (sort_largest model_costs) in
        let required = sum (map required_mib resident) in
        let shortfall = pos_part (pos required -ℤ available) in
        let feasible = shortfall == 0 in
        ok (record {
          reserve_mib = reserve;
          available_mib = available;
          required_mib = required;
          shortfall_mib = shortfall;
          feasible = feasible;
          resident_models = resident;
          remedies = if feasible then [] else remedies_of r model_costs resident;
        }))
