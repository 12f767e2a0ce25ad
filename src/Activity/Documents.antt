-- ===== src/Activity/Documents.antt =====
-- pylib/omniroute_activity.py, what the collector reads out of JSON documents: `_ptr`, `_count`, `_inflight`, `epoch_ms`,
-- `_require`. `none` stands for the ValueError or TypeError that they raise.
use llm_env.Prelude.{
  ℕ, ◌+◌, Option, none, some, String, List, [], ◌∷◌, map, length, get_elem?, if◌then◌else◌,
}
use llm_env.Prelude.Int.{pos}
use llm_env.Prelude.Chars.{split_char, replace_pair, is_decimal, decimal}
use llm_env.Json.{Value, integer, text, array, object, get, items_list, field_values}

-- The steps of an RFC 6901 pointer.
unfoldable pub pointer_parts : String → List String
pointer_parts pointer = elim (split_char "/" pointer) [
  | [] ↦ []
  | first ∷ parts ↦ map (λ p. replace_pair "~" "0" "~" (replace_pair "~" "1" "/" p)) parts
]

-- One step of the walk; `none` is `_MISSING`.
unfoldable pub walk_step : Value → String → Option Value
walk_step (object fs) part = get part fs
walk_step (array vs) part =
    if is_decimal part then get_elem? (items_list vs) (decimal part) else none
walk_step _ part = none

unfoldable pub walk : Value → List String → Option Value
unfolding walk_step
walk v [] = some v
walk v (part ∷ parts) = elim (walk_step v part) [ none ↦ none | some next ↦ walk next parts ]

-- `_ptr`
unfoldable pub ptr : Value → String → Option Value
unfolding walk pointer_parts
ptr doc pointer = walk doc (pointer_parts pointer)

-- `_count`, also of `_MISSING`
unfoldable pub count : Option Value → Option ℕ
count (some (integer (pos n))) = some n
count _ = none

-- `_inflight`
unfoldable pub inflight_count : Option Value → Option ℕ
unfolding count
inflight_count (some (array vs)) = some (length (items_list vs))
inflight_count v = count v

-- `epoch_ms`; `utc` reads a text by the RFC 3339 pattern, by `strptime` and its fraction.
unfoldable pub epoch_ms : (String → Option ℕ) → Option Value → Option ℕ
unfolding count
epoch_ms utc (some (text s)) = utc s
epoch_ms utc v = count v

unfoldable pub sum_counts : List (Option Value) → Option ℕ
unfolding count
sum_counts [] = some 0
sum_counts (v ∷ vs) = elim (count v) [
  | none ↦ none
  | some n ↦ elim (sum_counts vs) [ none ↦ none | some m ↦ some (n + m) ]
]

-- `_require(doc, pointer, dict).values()`
unfoldable pub require_values : Value → String → Option (List (Option Value))
unfolding ptr
require_values doc pointer = elim (ptr doc pointer) [
  | some (object fs) ↦ some (map some (field_values fs))
  | _ ↦ none
]
