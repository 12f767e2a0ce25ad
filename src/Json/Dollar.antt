-- ===== src/Json/Dollar.antt =====
-- pylib/omniroute_update.py, the dollar signs of a compose file: `_map_strings`, `_escape`, `_unescape`.
use Prim.Native.Char.{Char, code}
use Prim.Native.String.{String}
use llm_env.Prelude.{
  ◌==◌, Bool, true, false, ◌&&◌, ◌≡◌, refl, ap, ◌∙◌, if◌then◌else◌, Bool-cases, inl, inr,
}
use llm_env.Json.{
  Value, null, boolean, integer, real, text, array, object, Items, nil, item, Fields, end, field,
}

abbrev is_dollar : Char → Bool
is_dollar c = code c == b'$'

-- `s.replace("$", "$$")`
unfoldable pub double_dollars : String → String
double_dollars String.[] = String.[]
double_dollars (String.◌∷◌ c s) =
    let rest = double_dollars s in
    if is_dollar c then String.◌∷◌ c (String.◌∷◌ c rest) else String.◌∷◌ c rest

-- `s.replace("$$", "$")`, from left to right.
unfoldable pub halve_dollars : String → String
halve_dollars String.[] = String.[]
halve_dollars (String.◌∷◌ c String.[]) = String.◌∷◌ c String.[]
halve_dollars (String.◌∷◌ c (String.◌∷◌ d s)) =
    let rest = halve_dollars s in
    let next = halve_dollars (String.◌∷◌ d s) in
    if is_dollar c && is_dollar d then String.◌∷◌ c rest else String.◌∷◌ c next

unfoldable mutual
  pub map_strings : (String → String) → Value → Value
  map_strings fn null = null
  map_strings fn (boolean b) = boolean b
  map_strings fn (integer n) = integer n
  map_strings fn (real s) = real s
  map_strings fn (text s) = text (fn s)
  map_strings fn (array vs) = array (map_items fn vs)
  map_strings fn (object fs) = object (map_fields fn fs)

  pub map_items : (String → String) → Items → Items
  map_items fn nil = nil
  map_items fn (item v vs) = item (map_strings fn v) (map_items fn vs)

  pub map_fields : (String → String) → Fields → Fields
  map_fields fn end = end
  map_fields fn (field k v fs) = field k (map_strings fn v) (map_fields fn fs)

unfoldable pub escape : Value → Value
unfolding map_strings double_dollars
escape v = map_strings double_dollars v

unfoldable pub unescape : Value → Value
unfolding map_strings halve_dollars
unescape v = map_strings halve_dollars v

halve_plain :
    (c : Char) (s : String)
    → is_dollar c ≡ false
    → halve_dollars (String.◌∷◌ c s) ≡ String.◌∷◌ c (halve_dollars s)
unfolding halve_dollars
halve_plain c String.[] h = refl
halve_plain c (String.◌∷◌ d s) h = rw h refl

halve_pair :
    (c : Char) (s : String)
    → is_dollar c ≡ true
    → halve_dollars (String.◌∷◌ c (String.◌∷◌ c s)) ≡ String.◌∷◌ c (halve_dollars s)
unfolding halve_dollars
halve_pair c s h = rw h refl

halve-double : (s : String) → halve_dollars (double_dollars s) ≡ s
unfolding halve_dollars double_dollars
halve-double String.[] = refl
halve-double (String.◌∷◌ c s) = elim (Bool-cases (is_dollar c)) [
  | inl e ↦ rw e (halve_pair c (double_dollars s) e ∙ ap (String.◌∷◌ c) (halve-double s))
  | inr e ↦ rw e (halve_plain c (double_dollars s) e ∙ ap (String.◌∷◌ c) (halve-double s))
]

mutual
  unfolding map_strings

  map-halve-double : (v : Value) → map_strings halve_dollars (map_strings double_dollars v) ≡ v
  map-halve-double null = refl
  map-halve-double (boolean b) = refl
  map-halve-double (integer n) = refl
  map-halve-double (real s) = refl
  map-halve-double (text s) = ap text (halve-double s)
  map-halve-double (array vs) = ap array (items-halve-double vs)
  map-halve-double (object fs) = ap object (fields-halve-double fs)

  items-halve-double : (vs : Items) → map_items halve_dollars (map_items double_dollars vs) ≡ vs
  items-halve-double nil = refl
  items-halve-double (item v vs) = rw (map-halve-double v, items-halve-double vs) refl

  fields-halve-double : (fs : Fields) → map_fields halve_dollars (map_fields double_dollars fs) ≡ fs
  fields-halve-double end = refl
  fields-halve-double (field k v fs) = rw (map-halve-double v, fields-halve-double fs) refl

-- What the provider reads back after the escape is the document itself: `_unescape` undoes `_escape` on every value, however
-- nested, and keeps keys, order and all that is not a text.
pub unescape-escape : (v : Value) → unescape (escape v) ≡ v
unfolding escape unescape
unescape-escape v = map-halve-double v
