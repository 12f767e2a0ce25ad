-- ===== src/Config/Enabled.antt =====
-- Which models are enabled after the operations of pylib/config.py.
use mathlib.Core.Path.{subst}
use llm_env.Prelude.{
  ℕ, zero, suc, ◌≤◌, ◌≡◌, refl, sym, ap, ◌∙◌, min, Bool, true, false, not, Option, none, some,
  String, List, [], ◌∷◌, ◌++◌, length, ◌==◌, str_eq, str_mem, keep, any, All, eq_iff, arith,
  Bool-cases, Option-cases, inl, inr,
}
use llm_env.Config.{
  Model, ModelsMax, missing, invalid, max_of, duplicate_alias, unknown_alias, none_enabled,
  bad_models_max, capped, Config, ok, err, enabled_models, configured, sync_models_max,
  has_duplicate, model_by_alias, pick, set_flag, reorder, flagged, aliases_of, set_enabled_models,
}

-- The aliases of the enabled ones.
abbrev pub enabled_aliases : List Model → List String
enabled_aliases models = aliases_of (keep (λ m. m.enabled) models)

model_by_alias-alias :
    (a : String) (ms : List Model) (m : Model) → model_by_alias a ms ≡ some m → m.alias ≡ a
unfolding model_by_alias
model_by_alias-alias a [] m h = cc
model_by_alias-alias a (x ∷ xs) m h = elim (Option-cases (model_by_alias a xs)) [
  | inl nowhere ↦ elim (Bool-cases (str_eq x.alias a)) [
    | inl same ↦
        let e : some x ≡ some m = rw (nowhere, same, model_by_alias) at h in
        ground (arith, eq_iff x.alias a)
    | inr differs ↦ let e : none ≡ some m = rw (nowhere, differs, model_by_alias) at h in cc
  ]
  | inr (y, later) ↦ model_by_alias-alias a xs m (later ∙ rw (later, model_by_alias) at h)
]

model_by_alias-found :
    (a : String) (ms : List Model)
    → str_mem a (aliases_of ms) ≡ true
    → (m : Model) × (model_by_alias a ms ≡ some m)
unfolding model_by_alias
model_by_alias-found a [] h = cc
model_by_alias-found a (x ∷ xs) h = elim (Option-cases (model_by_alias a xs)) [
  | inr (y, later) ↦ (y, rw later refl)
  | inl nowhere ↦ elim (Bool-cases (str_eq a x.alias)) [
    | inl same ↦ (x, rw nowhere (ground (arith, eq_iff a x.alias, eq_iff x.alias a)))
    | inr differs ↦
        let (y, found) = model_by_alias-found a xs (rw differs at h) in
        let f : none ≡ some y = sym nowhere ∙ found in cc
  ]
]

abbrev IsKnown : List Model → String → Type 0
IsKnown models a = str_mem a (aliases_of models) ≡ true

-- The requested models are there, in the order of the request.
aliases_of-pick :
    (wanted : List String) (models : List Model)
    → All (IsKnown models) wanted
    → aliases_of (pick wanted models) ≡ wanted
unfolding pick
aliases_of-pick [] models h = refl
aliases_of-pick (a ∷ rest) models h =
    let (m, found) = model_by_alias-found a models h.0 in
    let e : m.alias ≡ a = model_by_alias-alias a models m found in
    rw (found, pick) (cc (e, aliases_of-pick rest models h.1))

keep-append : (xs ys : List Model) (p : Model → Bool) → keep p (xs ++ ys) ≡ keep p xs ++ keep p ys
keep-append [] ys p = refl
keep-append (x ∷ xs) ys p = elim (Bool-cases (p x)) [
  | inl kept ↦ rw kept (ap (λ (l : List Model). x ∷ l) (keep-append xs ys p))
  | inr left ↦ rw left (keep-append xs ys p)
]

-- Flagging enables exactly the models of the request.
enabled-requested :
    (aliases : List String) (xs : List Model)
    → All (λ a. str_mem a aliases ≡ true) (aliases_of xs)
    → enabled_aliases (flagged aliases xs) ≡ aliases_of xs
enabled-requested aliases [] h = refl
enabled-requested aliases (x ∷ xs) h =
    rw h.0 (ap (λ (l : List String). x.alias ∷ l) (enabled-requested aliases xs h.1))

enabled-others :
    (aliases : List String) (xs : List Model)
    → keep
        (λ (m : Model). m.enabled)
        (flagged aliases (keep (λ m. not (str_mem m.alias aliases)) xs))
      ≡ []
enabled-others aliases [] = refl
enabled-others aliases (x ∷ xs) = elim (Bool-cases (str_mem x.alias aliases)) [
  | inl asked ↦ rw asked (enabled-others aliases xs)
  | inr other ↦ rw (other, other) (enabled-others aliases xs)
]

str_eq_refl : (s : String) → str_eq s s ≡ true
str_eq_refl s = (eq_iff s s).1 refl

mem-weaken :
    (b : String) (asked xs : List String)
    → All (λ a. str_mem a asked ≡ true) xs
    → All (λ a. str_mem a (b ∷ asked) ≡ true) xs
mem-weaken b asked [] h = tt
mem-weaken b asked (x ∷ xs) h = (ground (arith, h.0), mem-weaken b asked xs h.1)

mem-All : (xs : List String) → All (λ a. str_mem a xs ≡ true) xs
mem-All [] = tt
mem-All (x ∷ xs) = (ground (arith, str_eq_refl x), mem-weaken x xs xs (mem-All xs))

IsKnown-All :
    (models : List Model) (xs : List String)
    → any (λ a. not (str_mem a (aliases_of models))) xs ≡ false
    → All (IsKnown models) xs
IsKnown-All models [] h = tt
IsKnown-All models (x ∷ xs) h = (ground arith, IsKnown-All models xs (ground arith))

flagged-append :
    (aliases : List String) (xs ys : List Model)
    → flagged aliases (xs ++ ys) ≡ flagged aliases xs ++ flagged aliases ys
flagged-append aliases [] ys = refl
flagged-append aliases (x ∷ xs) ys =
    ap (λ (l : List Model). set_flag (str_mem x.alias aliases) x ∷ l) (flagged-append aliases xs ys)

append_nil : (xs : List Model) → xs ++ [] ≡ xs
append_nil [] = refl
append_nil (x ∷ xs) = ap (λ (l : List Model). x ∷ l) (append_nil xs)

-- What is enabled after the reordering is what was asked for, in that order.
enabled-reorder :
    (aliases : List String) (models : List Model)
    → All (IsKnown models) aliases
    → enabled_aliases (flagged aliases (reorder aliases models)) ≡ aliases
unfolding reorder
enabled-reorder aliases models h =
    let asked = pick aliases models in
    let others = keep (λ (m : Model). not (str_mem m.alias aliases)) models in
    let e : aliases_of asked ≡ aliases = aliases_of-pick aliases models h in
    ap (λ (l : List Model). enabled_aliases l) (flagged-append aliases asked others)
    ∙ ap aliases_of (keep-append (flagged aliases asked) (flagged aliases others) (λ m. m.enabled))
    ∙ ap
        (λ (l : List Model).
          aliases_of (keep (λ (m : Model). m.enabled) (flagged aliases asked) ++ l))
        (enabled-others aliases models)
    ∙ ap aliases_of (append_nil (keep (λ (m : Model). m.enabled) (flagged aliases asked)))
    ∙ enabled-requested aliases asked (
        subst (λ (l : List String). All (λ a. str_mem a aliases ≡ true) l) (sym e)
          (mem-All aliases))
    ∙ e

configured-positive : (m : ModelsMax) (n : ℕ) → configured m ≡ some n → 1 ≤ n
unfolding configured
configured-positive missing n h = ground arith
configured-positive invalid n h = cc
configured-positive (max_of zero) n h = cc
configured-positive (max_of (suc k)) n h = ground arith

-- The models are kept, and `models_max` is between 1 and their enabled number.
abbrev pub IsSynced : Config → Config → Type 0
IsSynced cfg after =
    (after.models ≡ cfg.models)
    × ((n : ℕ) × ((after.models_max ≡ max_of n) × ((1 ≤ n) × (n ≤ length (enabled_models cfg)))))

capped-IsSynced :
    (cfg after : Config) (o : Option ℕ)
    → 1 ≤ length (enabled_models cfg)
    → ((n : ℕ) → o ≡ some n → 1 ≤ n)
    → capped cfg (length (enabled_models cfg)) o ≡ ok after
    → IsSynced cfg after
capped-IsSynced cfg after none c p h = cc
capped-IsSynced cfg after (some n) c p h =
    let count = length (enabled_models cfg) in
    let e : record cfg { models_max = max_of (min n count) } ≡ after = cc in
    let q : 1 ≤ n = p n refl in
    subst (IsSynced cfg) e (refl, (min n count, (refl, (omega arith, omega arith))))

-- If `sync_models_max` succeeds, it leaves the models alone, and the new `models_max` is at least 1
-- and at most the number of enabled models.
pub sync_models_max-IsSynced :
    (cfg after : Config) → sync_models_max cfg ≡ ok after → IsSynced cfg after
unfolding sync_models_max
sync_models_max-IsSynced cfg after h = elim (Bool-cases (length (enabled_models cfg) == 0)) [
  | inl nothing ↦ let f : err none_enabled ≡ ok after = rw nothing at h in cc
  | inr there ↦
      capped-IsSynced cfg after (configured cfg.models_max) (ground arith)
        (λ n e. configured-positive cfg.models_max n e) (rw there at h)
]

-- If `set_enabled_models` succeeds, exactly the requested models are enabled, in the order of the
-- request, and `models_max` is at least 1 and at most their number.
pub set_enabled_models-enabled :
    (cfg after : Config) (aliases : List String)
    → set_enabled_models cfg aliases ≡ ok after
    → (enabled_aliases after.models ≡ aliases)
      × ((n : ℕ) × ((after.models_max ≡ max_of n) × ((1 ≤ n) × (n ≤ length aliases))))
unfolding set_enabled_models
set_enabled_models-enabled cfg after aliases h = elim (Bool-cases (has_duplicate aliases)) [
  | inl twice ↦ let f : err duplicate_alias ≡ ok after = rw twice at h in cc
  | inr single ↦ elim (Bool-cases (any (λ a. not (str_mem a (aliases_of cfg.models))) aliases)) [
    | inl strange ↦ let f : err unknown_alias ≡ ok after = rw (single, strange) at h in cc
    | inr known ↦ elim (Bool-cases (length aliases == 0)) [
      | inl nothing ↦ let f : err none_enabled ≡ ok after = rw (single, known, nothing) at h in cc
      | inr given ↦ elim (Option-cases (configured cfg.models_max)) [
        | inl bad ↦
            let f : err bad_models_max ≡ ok after = rw (single, known, given, bad) at h in cc
        | inr (n, good) ↦
            synced (sync_models_max-IsSynced _ after (rw (single, known, given, good) at h))
              (enabled-reorder aliases cfg.models (IsKnown-All cfg.models aliases known))
      ]
    ]
  ]
]
  where
    length-aliases_of : (xs : List Model) → length (aliases_of xs) ≡ length xs
    length-aliases_of [] = refl
    length-aliases_of (x ∷ xs) = omega (arith, length-aliases_of xs)

    synced :
        IsSynced (record cfg { models = flagged aliases (reorder aliases cfg.models) }) after
        → enabled_aliases (flagged aliases (reorder aliases cfg.models)) ≡ aliases
        → (enabled_aliases after.models ≡ aliases)
          × ((n : ℕ) × ((after.models_max ≡ max_of n) × ((1 ≤ n) × (n ≤ length aliases))))
    synced (same, (n, (m, (low, high)))) e =
        let count =
          length-aliases_of
            (keep (λ (m : Model). m.enabled) (flagged aliases (reorder aliases cfg.models))) in
        let named = ap (λ (l : List String). length l) e in
        (ap enabled_aliases same ∙ e, (n, (m, (low, omega arith))))
