-- ===== src/Json/Keys.antt =====
-- A key of a dict, after the dict was changed.
use Prim.Native.String.{String}
use llm_env.Prelude.{
  ◌≡◌, refl, ◌∙◌, ap, Bool, none, some, str_eq, eq_iff, arith, if◌then◌else◌, Bool-cases, inl, inr,
}
use mathlib.Core.Option
use llm_env.Json.{Value, Fields, end, field, get, set_key, keep_fields, change_key, drop_key}

pub get-set_key :
    (j k : String) (v : Value) (fs : Fields)
    → get j (set_key k v fs) ≡ (if str_eq k j then some v else get j fs)
get-set_key j k v end = refl
get-set_key j k v (field i w fs) = elim (Bool-cases (str_eq i k)) [
  | inl e ↦ rw e (ground (arith, eq_iff i k, eq_iff i j, eq_iff k j))
  | inr e ↦ rw e (ground (arith, eq_iff i k, eq_iff i j, eq_iff k j, get-set_key j k v fs))
]

pub get-keep_fields :
    (j : String) (p : String → Bool) (fs : Fields)
    → get j (keep_fields p fs) ≡ (if p j then get j fs else none)
get-keep_fields j p end = ground arith
get-keep_fields j p (field k v fs) =
    let rest = get-keep_fields j p fs in
    elim (Bool-cases (str_eq k j)) [
      | inl e ↦
          let same = ap p ((eq_iff k j).0 e) in
          elim (Bool-cases (p j)) [
            | inl q ↦ rw (q, same ∙ q, e) refl
            | inr q ↦ rw (q, same ∙ q) (rest ∙ rw q refl)
          ]
      | inr e ↦ elim (Bool-cases (p k)) [ inl q ↦ rw (q, e) rest | inr q ↦ rw (q, e) rest ]
    ]

pub get-change_key :
    (j k : String) (g : Value → Value) (fs : Fields)
    → get j (change_key k g fs) ≡ (if str_eq k j then Option.map g (get j fs) else get j fs)
get-change_key j k g end = ground arith
get-change_key j k g (field i w fs) = elim (Bool-cases (str_eq i k)) [
  | inl e ↦ rw e (ground (arith, eq_iff i k, eq_iff i j, eq_iff k j))
  | inr e ↦ rw e (ground (arith, eq_iff i k, eq_iff i j, eq_iff k j, get-change_key j k g fs))
]

pub change_key-same :
    (k : String) (g : Value → Value) (fs : Fields)
    → Option.map g (get k fs) ≡ get k fs
    → change_key k g fs ≡ fs
change_key-same k g end h = refl
change_key-same k g (field i w fs) h = elim (Bool-cases (str_eq i k)) [
  | inl e ↦ rw e (ap (λ v. field i v fs) (Option.some-injective (g w) w (rw e at h)))
  | inr e ↦ rw e (ap (field i w) (change_key-same k g fs (rw e at h)))
]

pub drop_key-absent : (k : String) (fs : Fields) → get k fs ≡ none → drop_key k fs ≡ fs
drop_key-absent k end h = refl
drop_key-absent k (field i w fs) h = elim (Bool-cases (str_eq i k)) [
  | inl e ↦ ground arith
  | inr e ↦ rw e (ap (field i w) (drop_key-absent k fs (rw e at h)))
]
