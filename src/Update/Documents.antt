-- ===== src/Update/Documents.antt =====
-- How pylib/omniroute_update.py reads documents: `d.get(k)`, `or {}`, membership in a set of texts. An exception that the code
-- raises is a value; `broken` is one that it does not mean to raise (an AttributeError or TypeError).
use Prim.Native.Char.{Char, code}
use Prim.Native.String.{String}
use llm_env.Prelude.{
  zero, ◌≡◌, ◌≢◌, refl, arith, Bool, true, false, not, ◌&&◌, leb, Option, none, some, List, str_eq,
  str_mem, if◌then◌else◌,
}
use llm_env.Prelude.Int.{pos}
use llm_env.Prelude.Chars.{is_empty, all_chars}
use llm_env.Deferral.{Reason}
use llm_env.Json.{Value, null, boolean, integer, real, text, array, object, get, nil, end}

pub data Outcome {ℓ} (A : Type ℓ) : Type ℓ where
  done : A → Outcome A
  update_error : Outcome A
  deferral : Reason → Outcome A
  broken : Outcome A

infixl 5 ◌>>=◌ ◌>>◌
abbrev pub ◌>>=◌ {ℓ κ} : {A : Type ℓ} {B : Type κ} → Outcome A → (A → Outcome B) → Outcome B
done a >>= f = f a
update_error >>= f = update_error
deferral why >>= f = deferral why
broken >>= f = broken

abbrev pub ◌>>◌ {ℓ} : {B : Type ℓ} → Outcome (Unit {0}) → Outcome B → Outcome B
m >> k = m >>= λ _. k

-- `if test: raise ...`
abbrev pub reject : Bool → Outcome (Unit {0}) → Outcome (Unit {0})
reject true failure = failure
reject false failure = done tt

pub >>=-eq-done {ℓ κ} :
    {A : Type ℓ} {B : Type κ} (m : Outcome A) (f : A → Outcome B) {b : B}
    → (m >>= f) ≡ done b
    → (a : A) × (m ≡ done a) × (f a ≡ done b)
>>=-eq-done (done a) f h = (a, refl, h)
>>=-eq-done update_error f h = ground arith
>>=-eq-done (deferral why) f h = ground arith
>>=-eq-done broken f h = ground arith

pub >>-eq-done {ℓ} :
    {B : Type ℓ} (b : Bool) (failure : Outcome Unit) (k : Outcome B) {r : B}
    → ((x : Unit {0}) → failure ≢ done x)
    → (reject b failure >> k) ≡ done r
    → (b ≡ false) × (k ≡ done r)
>>-eq-done false failure k f h = (refl, h)
>>-eq-done true failure k f h = let (x, e, _) = >>=-eq-done failure (λ _. k) h in absurd (f x e)

-- `d.get(k)`
abbrev pub dict_get : Value → String → Outcome (Option Value)
dict_get (object fs) k = done (get k fs)
dict_get _ k = broken

-- A float that Python writes without a digit other than 0.
abbrev is_zero_char : Char → Bool
is_zero_char c = not (leb b'1' (code c) && leb (code c) b'9')

abbrev pub is_falsy : Option Value → Bool
is_falsy none = true
is_falsy (some null) = true
is_falsy (some (boolean b)) = not b
is_falsy (some (integer (pos zero))) = true
is_falsy (some (real s)) = all_chars is_zero_char s
is_falsy (some (text s)) = is_empty s
is_falsy (some (array nil)) = true
is_falsy (some (object end)) = true
is_falsy _ = false

abbrev pub given : Option Value → Value
given none = null
given (some v) = v

-- `v or {}`
abbrev pub or_empty_dict : Option Value → Value
or_empty_dict v = if is_falsy v then object end else given v

-- `v == s`
abbrev pub is_text : Option Value → String → Bool
is_text (some (text t)) s = str_eq t s
is_text _ s = false

-- `v in s`, for a set of texts: an unhashable value raises TypeError.
abbrev pub in_texts : Option Value → List String → Outcome Bool
in_texts (some (text t)) s = done (str_mem t s)
in_texts (some (array vs)) s = broken
in_texts (some (object fs)) s = broken
in_texts _ s = done false
