-- ===== src/Resources/Overrides.antt =====
-- pylib/resources.py: the built-in policy of each service, and user overrides merged over it.
use llm_env.Prelude.{
  ℕ, ◌*◌, Bool, false, not, ◌||◌, Option, none, some, String, List, [], ◌∷◌, ◌++◌, ltb, str_eq,
  str_mem, lookup, if◌then◌else◌,
}
use llm_env.Prelude.Int.{ℤ, pos, pos_part, ltb_ℤ}

-- A scalar of the configuration: an int, a finite float in thousandths, an infinity or NaN, a
-- Boolean, or anything else.
pub data Value : Type 0 where
  whole : ℤ → Value
  decimal : ℤ → Value
  nonfinite : Value
  boolean : Bool → Value
  other : Value

pub data Override : Type 0 where
  fields : List (String × Value) → Override
  not_mapping : Override

-- The argument of `validate_overrides`: absent, a mapping of services, or something else.
pub data Overrides : Type 0 where
  absent : Overrides
  services : List (String × Override) → Overrides
  malformed : Overrides

pub record Policy : Type 0 where
  pub cpus_min : ℕ
  pub cpus_max : ℕ
  pub memory_min_mib : ℕ
  pub memory_max_mib : ℕ

abbrev pub policy : ℕ → ℕ → ℕ → ℕ → Policy
policy a b c d = record { cpus_min = a; cpus_max = b; memory_min_mib = c; memory_max_mib = d }

-- `DEFAULT_POLICY`
abbrev pub default_policy : List (String × Policy)
default_policy =
    ("omniroute", policy 1000 2000 768 2048)
    ∷ ("remote_setup", policy 250 500 32 64)
    ∷ ("system_one", policy 1000 2000 2560 5120)
    ∷ ("phoenix", policy 250 1000 192 1024)
    ∷ []

abbrev pub policy_keys : List String
policy_keys = "cpus_min" ∷ "cpus_max" ∷ "memory_min_mib" ∷ "memory_max_mib" ∷ []

-- `_is_finite_number(value) and value > 0`
unfoldable pub is_positive_number : Value → Bool
is_positive_number (whole n) = ltb_ℤ (pos 0) n
is_positive_number (decimal n) = ltb_ℤ (pos 0) n
is_positive_number _ = false

-- `_is_int_at_least(value, 1)`
unfoldable pub is_positive_int : Value → Bool
is_positive_int (whole n) = ltb_ℤ (pos 0) n
is_positive_int _ = false

-- The amounts that a validated value stands for.
abbrev pub millis : Value → ℕ
millis (whole n) = 1000 * pos_part n
millis (decimal n) = pos_part n
millis _ = 0

abbrev pub count : Value → ℕ
count (whole n) = pos_part n
count _ = 0

abbrev is_cpus_key : String → Bool
is_cpus_key key = str_eq key "cpus_min" || str_eq key "cpus_max"

-- One field of an override laid over a policy; a key that is no policy key is left out.
unfoldable pub set_field : String → Value → Policy → Policy
set_field key value p =
    if str_eq key "cpus_min"
    then record p { cpus_min = millis value }
    else if str_eq key "cpus_max"
    then record p { cpus_max = millis value }
    else if str_eq key "memory_min_mib"
    then record p { memory_min_mib = count value }
    else if str_eq key "memory_max_mib"
    then record p { memory_max_mib = count value }
    else p

unfoldable pub merge : List (String × Value) → Policy → Policy
merge [] p = p
merge ((key, value) ∷ rest) p = merge rest (set_field key value p)

abbrev pub fields_of : Option Override → List (String × Value)
fields_of (some (fields kvs)) = kvs
fields_of _ = []

abbrev pub services_of : Overrides → List (String × Override)
services_of (services s) = s
services_of _ = []

-- `effective_policy`, given the service's own default. The values are validated ones.
unfoldable pub effective_policy : Policy → String → Overrides → Policy
unfolding merge
effective_policy default service overrides =
    merge (fields_of (lookup service (services_of overrides))) default

pub data OverrideError : Type 0 where
  overrides_not_mapping : OverrideError
  unknown_service service_not_mapping : String → OverrideError
  unknown_field not_positive_number not_positive_integer : String → String → OverrideError
  min_over_max : String → String → OverrideError

unfoldable pub field_errors : String → String → Value → List OverrideError
unfolding is_positive_number is_positive_int
field_errors service key value =
    if not (str_mem key policy_keys)
    then unknown_field service key ∷ []
    else if is_cpus_key key
    then (if is_positive_number value then [] else not_positive_number service key ∷ [])
    else if is_positive_int value
    then []
    else not_positive_integer service key ∷ []

unfoldable pub fields_errors : String → List (String × Value) → List OverrideError
fields_errors service [] = []
fields_errors service ((key, value) ∷ rest) =
    field_errors service key value ++ fields_errors service rest

-- The two comparisons of the merged policy.
unfoldable pub order_errors : String → Policy → List OverrideError
order_errors service p =
    (if ltb p.cpus_max p.cpus_min then min_over_max service "cpus_min" ∷ [] else [])
    ++ (if ltb p.memory_max_mib p.memory_min_mib
        then min_over_max service "memory_min_mib" ∷ []
        else [])

abbrev merged_errors :
    List OverrideError → String → Policy → List (String × Value) → List OverrideError
merged_errors [] service default kvs = order_errors service (merge kvs default)
merged_errors (e ∷ es) service default kvs = e ∷ es

-- One turn of the loop over the services.
unfoldable pub service_errors : String → Override → List OverrideError
unfolding merge order_errors
service_errors service override = elim (lookup service default_policy) [
  | none ↦ unknown_service service ∷ []
  | some default ↦ elim override [
    | not_mapping ↦ service_not_mapping service ∷ []
    | fields kvs ↦ merged_errors (fields_errors service kvs) service default kvs
  ]
]

unfoldable pub all_errors : List (String × Override) → List OverrideError
all_errors [] = []
all_errors ((service, override) ∷ rest) = service_errors service override ++ all_errors rest

unfoldable pub validate_overrides : Overrides → List OverrideError
validate_overrides absent = []
validate_overrides malformed = overrides_not_mapping ∷ []
validate_overrides (services s) = all_errors s
