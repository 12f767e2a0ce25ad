-- ===== src/Json.antt =====
-- JSON documents as Python holds them after `json.loads` or `yaml.safe_load`: a dict keeps the order
-- of its keys, and a number that is not an integer is kept as its text.
pub mod Dollar
pub mod Keys
use Prim.Native.Char.{Char}
use Prim.Native.String.{String}
use llm_env.Prelude.{
  ℕ, zero, suc, Bool, true, false, not, Option, none, some, List, [], ◌∷◌, str_eq, if◌then◌else◌,
}
use llm_env.Prelude.Int.{ℤ, pos, negsuc}

mutual
  pub data Value : Type 0 where
    null : Value
    boolean : Bool → Value
    integer : ℤ → Value
    real : String → Value
    text : String → Value
    array : Items → Value
    object : Fields → Value

  pub data Items : Type 0 where
    nil : Items
    item : Value → Items → Items

  pub data Fields : Type 0 where
    end : Fields
    field : String → Value → Fields → Fields

-- `d.get(k)` on the fields of a dict.
abbrev pub get : String → Fields → Option Value
get k end = none
get k (field j v fs) = if str_eq j k then some v else get k fs

abbrev pub items_list : Items → List Value
items_list nil = []
items_list (item v vs) = v ∷ items_list vs

abbrev pub fields_list : Fields → List (String × Value)
fields_list end = []
fields_list (field k v fs) = (k, v) ∷ fields_list fs

-- `d.values()`
abbrev pub field_values : Fields → List Value
field_values end = []
field_values (field k v fs) = v ∷ field_values fs

-- `d[k] = v`: an old key keeps its place.
abbrev pub set_key : String → Value → Fields → Fields
set_key k v end = field k v end
set_key k v (field j w fs) =
    let rest = set_key k v fs in if str_eq j k then field j v fs else field j w rest

-- `{k: v for k, v in d.items() if p(k)}`
abbrev pub keep_fields : (String → Bool) → Fields → Fields
keep_fields p end = end
keep_fields p (field k v fs) = let rest = keep_fields p fs in if p k then field k v rest else rest

-- `d.pop(k, None)`
abbrev pub drop_key : String → Fields → Fields
drop_key k = keep_fields (λ j. not (str_eq j k))

-- The object at a key is changed in place.
abbrev pub change_key : String → (Value → Value) → Fields → Fields
change_key k g end = end
change_key k g (field j v fs) =
    let rest = change_key k g fs in if str_eq j k then field j (g v) fs else field j v rest
