-- ===== src/Config/Migrate/Steps.antt =====
-- pylib/config.py: the statements of `migrate_config` on a dict, and that a second run of them changes nothing.
use Prim.Native.String.{String}
use llm_env.Prelude.{
  ◌≡◌, refl, ◌∙◌, ap, Bool, true, false, not, All, Bool-cases, inl, inr, ◌&&◌, Option, none, some,
  List, [], ◌∷◌, is_some, str_eq, all, eq_iff, arith, if◌then◌else◌,
}
use mathlib.Core.Option
use llm_env.Json.{
  Value, array, object, Items, Fields, end, field, get, set_key, change_key, drop_key,
}
use llm_env.Json.Keys.{
  get-set_key, get-keep_fields, get-change_key, change_key-same, drop_key-absent,
}

-- `d.setdefault(name, value)`, a change in place of what the name holds, `d.pop(name, None)`
pub data Step : Type 0 where
  default : String → Value → Step
  change : String → (Value → Value) → Step
  drop : String → Step

unfoldable pub apply : Step → Fields → Fields
apply (default n v) fs = if is_some (get n fs) then fs else set_key n v fs
apply (change n g) fs = change_key n g fs
apply (drop n) fs = drop_key n fs

unfoldable pub run : List Step → Fields → Fields
unfolding apply
run [] fs = fs
run (s ∷ ss) fs = run ss (apply s fs)

-- `if isinstance(v, dict)`
abbrev pub on_dict : (Fields → Fields) → Value → Value
on_dict f (object fs) = object (f fs)
on_dict f v = v

-- `if isinstance(v, list)`
abbrev pub on_list : (Items → Items) → Value → Value
on_list f (array vs) = array (f vs)
on_list f v = v

-- `for v in d.values()`
unfoldable pub on_values : (Value → Value) → Fields → Fields
on_values g end = end
on_values g (field k v fs) = field k (g v) (on_values g fs)

abbrev pub name : Step → String
name (default n v) = n
name (change n g) = n
name (drop n) = n

-- What a step leaves at its name, so that it has nothing left to do.
abbrev pub IsSettled : Step → Option Value → Type 0
IsSettled (default n v) o = is_some o ≡ true
IsSettled (change n g) o = Option.map g o ≡ o
IsSettled (drop n) o = o ≡ none

-- A change that changes nothing the second time.
abbrev pub IsOnce : Step → Type 0
IsOnce (change n g) = (v : Value) → g (g v) ≡ g v
IsOnce (default n v) = true ≡ true
IsOnce (drop n) = true ≡ true

-- A later step does not undo an earlier one: it has another name, or it finds a default and leaves it there.
abbrev keeps : Step → Step → Bool
keeps (default n v) (drop m) = not (str_eq m n)
keeps (default n v) t = true
keeps s t = not (str_eq (name t) (name s))

abbrev pub are_apart : List Step → Bool
are_apart [] = true
are_apart (s ∷ ss) = all (keeps s) ss && are_apart ss

IsSettled-apply : (s : Step) (fs : Fields) → IsSettled s (get (name s) fs) → apply s fs ≡ fs
unfolding apply
IsSettled-apply (default n v) fs h = rw h refl
IsSettled-apply (change n g) fs h = change_key-same n g fs h
IsSettled-apply (drop n) fs h = drop_key-absent n fs h

apply-IsSettled : (s : Step) (fs : Fields) → IsOnce s → IsSettled s (get (name s) (apply s fs))
unfolding apply
apply-IsSettled (default n v) fs h = ground (arith, get-set_key n n v fs, eq_iff n n)
apply-IsSettled (change n g) fs h =
    rw (get-change_key n n g fs, (eq_iff n n).1 refl) (twice (get n fs))
  where
    twice : (o : Option Value) → Option.map g (Option.map g o) ≡ Option.map g o
    twice none = refl
    twice (some v) = ap some (h v)
apply-IsSettled (drop n) fs h =
    rw (get-keep_fields n (λ j. not (str_eq j n)) fs, (eq_iff n n).1 refl) refl

pub apply-other :
    (t : Step) (n : String) (fs : Fields)
    → str_eq (name t) n ≡ false
    → get n (apply t fs) ≡ get n fs
unfolding apply
apply-other (default m v) n fs h = elim (Bool-cases (is_some (get m fs))) [
  | inl e ↦ rw e refl
  | inr e ↦ rw (e, get-set_key n m v fs, h) refl
]
apply-other (change m g) n fs h = rw (get-change_key n m g fs, h) refl
apply-other (drop m) n fs h =
    rw (get-keep_fields n (λ j. not (str_eq j m)) fs) (ground (arith, eq_iff m n, eq_iff n m))

keeps-IsSettled :
    (s t : Step) (fs : Fields)
    → keeps s t ≡ true
    → IsSettled s (get (name s) fs)
    → IsSettled s (get (name s) (apply t fs))
unfolding apply
keeps-IsSettled (default n v) (default m w) fs k h = elim (Bool-cases (is_some (get m fs))) [
  | inl e ↦ rw e h
  | inr e ↦ rw (e, get-set_key n m w fs) (ground arith)
]
keeps-IsSettled (default n v) (change m g) fs k h = rw (get-change_key n m g fs) (ground arith)
keeps-IsSettled (default n v) (drop m) fs k h = rw (apply-other (drop m) n fs (ground arith)) h
keeps-IsSettled (change n g) t fs k h = rw (apply-other t n fs (ground arith)) h
keeps-IsSettled (drop n) t fs k h = rw (apply-other t n fs (ground arith)) h

run-IsSettled :
    (s : Step) (ss : List Step) (fs : Fields)
    → all (keeps s) ss ≡ true
    → IsSettled s (get (name s) fs)
    → IsSettled s (get (name s) (run ss fs))
unfolding run
run-IsSettled s [] fs k h = h
run-IsSettled s (t ∷ ss) fs k h =
    run-IsSettled s ss (apply t fs) (ground arith) (keeps-IsSettled s t fs (ground arith) h)

abbrev pub AreSettled : List Step → Fields → Type 0
AreSettled ss fs = All (λ s. IsSettled s (get (name s) fs)) ss

pub run-AreSettled :
    (ss : List Step) (fs : Fields) → are_apart ss ≡ true → All IsOnce ss → AreSettled ss (run ss fs)
unfolding run
run-AreSettled [] fs a h = tt
run-AreSettled (s ∷ ss) fs a (once, rest) = (
  run-IsSettled s ss (apply s fs) (ground arith) (apply-IsSettled s fs once),
  run-AreSettled ss (apply s fs) (ground arith) rest,
)

pub AreSettled-run : (ss : List Step) (fs : Fields) → AreSettled ss fs → run ss fs ≡ fs
unfolding run
AreSettled-run [] fs h = refl
AreSettled-run (s ∷ ss) fs (here, rest) = rw (IsSettled-apply s fs here) (AreSettled-run ss fs rest)

-- Steps of which none undoes an earlier one, and whose changes are made once: the second run changes nothing.
pub run-run :
    (ss : List Step) (fs : Fields)
    → are_apart ss ≡ true
    → All IsOnce ss
    → run ss (run ss fs) ≡ run ss fs
run-run ss fs a h = AreSettled-run ss (run ss fs) (run-AreSettled ss fs a h)

pub run-other :
    (n : String) (ss : List Step) (fs : Fields)
    → all (λ t. not (str_eq (name t) n)) ss ≡ true
    → get n (run ss fs) ≡ get n fs
unfolding run
run-other n [] fs h = refl
run-other n (t ∷ ss) fs h =
    run-other n ss (apply t fs) (ground arith) ∙ apply-other t n fs (ground arith)

abbrev pub is_plain : Step → Bool
is_plain (change n g) = false
is_plain s = true

pub plain-IsOnce : (ss : List Step) → all is_plain ss ≡ true → All IsOnce ss
plain-IsOnce [] h = tt
plain-IsOnce (default n v ∷ ss) h = (refl, plain-IsOnce ss h)
plain-IsOnce (drop n ∷ ss) h = (refl, plain-IsOnce ss h)
plain-IsOnce (change n g ∷ ss) h = ground arith
