-- ===== src/Config/Raw/Values.antt =====
-- pylib/config.py: the tests of `validate_config` on one value of a YAML document. Python's bool is an int.
use Prim.Native.Nat.{Ordering, compare}
use Prim.Native.String.{String}
use llm_env.Prelude.{
  ℕ, suc, ◌==◌, Bool, true, false, not, ◌&&◌, ◌||◌, Option, none, some, List, [], ◌∷◌, ◌++◌, str_eq,
  str_mem, if◌then◌else◌,
}
use llm_env.Prelude.Int.{pos, negsuc}
use llm_env.Prelude.Chars.{is_blank, strip, lower_eq, strip_left, after_digits, starts_digit}
use llm_env.Json.{Value, boolean, integer, real, text, array, object}

-- An error, by its place in the document; `of_model` has the index of the model.
pub data Problem : Type 0 where
  at : String → Problem
  of_model : ℕ → String → Problem

-- `if bad: errors.append(p)`
abbrev pub when : Bool → Problem → List Problem
when bad p = if bad then p ∷ [] else []

-- The errors of one test after another.
unfoldable pub concat : List (List Problem) → List Problem
concat [] = []
concat (ps ∷ pss) = ps ++ concat pss

-- How a float, by its text, compares with a whole number (`none` for nan), and whether it is finite.
pub record Floats : Type 0 where
  pub order : String → ℕ → Option Ordering
  pub is_finite : String → Bool

-- `isinstance(v, int)`
abbrev pub is_int : Option Value → Bool
is_int (some (integer n)) = true
is_int (some (boolean b)) = true
is_int _ = false

-- `_positive_int`
unfoldable pub is_positive : Option Value → Bool
is_positive (some (integer (pos (suc n)))) = true
is_positive _ = false

-- A non-negative int that is no bool.
unfoldable pub is_natural : Option Value → Bool
is_natural (some (integer (pos n))) = true
is_natural _ = false

abbrev pub is_dict : Option Value → Bool
is_dict (some (object fs)) = true
is_dict _ = false

abbrev pub is_list : Option Value → Bool
is_list (some (array vs)) = true
is_list _ = false

abbrev pub is_string : Option Value → Bool
is_string (some (text s)) = true
is_string _ = false

abbrev pub is_bool : Option Value → Bool
is_bool (some (boolean b)) = true
is_bool _ = false

-- `isinstance(v, str) and v.strip()`
abbrev pub is_filled : Option Value → Bool
is_filled (some (text s)) = not (is_blank s)
is_filled _ = false

-- `v in texts`, for a tuple of texts
abbrev pub is_among : List String → Option Value → Bool
is_among texts (some (text s)) = str_mem s texts
is_among texts _ = false

-- `d.get(k, default)`, tested: a missing value passes.
abbrev pub or_default : (Option Value → Bool) → Option Value → Bool
or_default p none = true
or_default p (some v) = p (some v)

-- `v == n`, for a small number: True is 1 and False is 0.
abbrev is_eq : Option Ordering → Bool
is_eq (some Ordering.eq) = true
is_eq _ = false

abbrev is_lt : Option Ordering → Bool
is_lt (some Ordering.lt) = true
is_lt _ = false

abbrev is_gt : Option Ordering → Bool
is_gt (some Ordering.gt) = true
is_gt _ = false

abbrev of_bool : Bool → ℕ
of_bool true = 1
of_bool false = 0

module _ (fl : Floats) where
  unfoldable pub equals : ℕ → Option Value → Bool
  equals n (some (integer (pos m))) = m == n
  equals n (some (boolean b)) = of_bool b == n
  equals n (some (real s)) = is_eq (fl.order s n)
  equals n _ = false

  -- `v < n` and `v > n`, of a finite number
  abbrev pub below : ℕ → Option Value → Bool
  below n (some (integer (pos m))) = is_lt (some (compare m n))
  below n (some (integer (negsuc m))) = true
  below n (some (real s)) = is_lt (fl.order s n)
  below n _ = false

  abbrev pub above : ℕ → Option Value → Bool
  above n (some (integer (pos m))) = is_gt (some (compare m n))
  above n (some (integer (negsuc m))) = false
  above n (some (real s)) = is_gt (fl.order s n)
  above n _ = false

  -- `_finite_number`
  unfoldable pub is_number : Option Value → Bool
  is_number (some (integer n)) = true
  is_number (some (real s)) = fl.is_finite s
  is_number _ = false

  -- A finite number greater than 0 and at most 100.
  unfoldable pub is_percent : Option Value → Bool
  unfolding is_number
  is_percent v = is_number v && above 0 v && not (above 100 v)

  unfoldable pub is_not_negative : Option Value → Bool
  unfolding is_number
  is_not_negative v = is_number v && not (below 0 v)

  unfoldable pub is_fraction : Option Value → Bool
  unfolding is_number
  is_fraction v = is_number v && not (below 0 v) && not (above 1 v)

  unfoldable pub is_above_zero : Option Value → Bool
  unfolding is_number
  is_above_zero v = is_number v && above 0 v

-- What follows the number in `VRAM_BUDGET_RE`; the decimal point is followed by a digit.
abbrev is_unit : String → Bool
is_unit s = let u = strip s in str_eq u "%" || lower_eq u "gb" || lower_eq u "mib"

abbrev after_fraction : String → Option String
after_fraction String.[] = some String.[]
after_fraction (String.◌∷◌ c s) =
    if str_eq (String.◌∷◌ c String.[]) "."
    then (if starts_digit s then some (after_digits s) else none)
    else some (String.◌∷◌ c s)

-- `VRAM_BUDGET_RE.match(str(budget))`: what is no text has no unit.
unfoldable pub is_budget : Value → Bool
is_budget (text s) =
    let number = strip_left s in
    starts_digit number
    && elim (after_fraction (after_digits number)) [ none ↦ false | some rest ↦ is_unit rest ]
is_budget _ = false

-- `canonical_laya_model_name`, of a member without blanks around it
unfoldable pub canonical_laya_model_name : String → Option String
canonical_laya_model_name key =
    if lower_eq key "en" || lower_eq key "laya" || lower_eq key "default" || lower_eq key "english"
    then some "english"
    else if lower_eq key "multi"
        || lower_eq key "ml"
        || lower_eq key "laya-multilingual"
        || lower_eq key "multilingual"
    then some "multilingual"
    else if lower_eq key "typed"
        || lower_eq key "typed_decisions"
        || lower_eq key "laya-typed-decisions"
        || lower_eq key "decisions"
        || lower_eq key "typed-decisions"
    then some "typed-decisions"
    else none
