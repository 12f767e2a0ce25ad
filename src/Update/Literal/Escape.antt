-- ===== src/Update/Literal/Escape.antt =====
-- The two forms in which a provider prints a service: with its dollar signs as they are, or doubled.
use Prim.Native.Char.{code}
use Prim.Native.String.{String}
use llm_env.Prelude.{
  ◌≤◌, ◌<◌, ◌==◌, ◌≡◌, refl, ◌∙◌, ap, Bool, true, false, ◌||◌, Option, none, some, lookup, str_eq,
  eq_iff, arith, Bool-cases, inl, inr,
}
use llm_env.Prelude.Chars.{has_char, text_length}
use llm_env.Json.{Value, null, boolean, integer, real, text, array, object, Fields, end, field, get}
use llm_env.Json.Dollar.{double_dollars, map_fields, map_strings, escape, unescape, unescape-escape}
use llm_env.Update.Documents.{done}
use llm_env.Update.Literal.{
  Env, Forms, env_of_fields, env_dict, same_value, note_form, forms_of, literal_of,
  to_runtime_literal,
}

-- Every value of the environment is a text, and is what runs.
abbrev pub Runs : Env → Fields → Type 0
Runs running end = Unit
Runs running (field k (text s) fs) = (lookup k running ≡ some s) × Runs running fs
Runs running (field k v fs) = ⊥

-- A value of the environment has a dollar sign.
abbrev pub some_dollar : Fields → Bool
some_dollar end = false
some_dollar (field k (text s) fs) = has_char "$" s || some_dollar fs
some_dollar (field k v fs) = some_dollar fs

length-double : (s : String) → text_length s ≤ text_length (double_dollars s)
unfolding double_dollars
length-double String.[] = omega arith
length-double (String.◌∷◌ c s) = elim (Bool-cases (code c == b'$')) [
  | inl e ↦ rw e (omega (arith, length-double s))
  | inr e ↦ rw e (omega (arith, length-double s))
]

length-double-lt :
    (s : String) → has_char "$" s ≡ true → text_length s < text_length (double_dollars s)
unfolding double_dollars
length-double-lt String.[] h = ground arith
length-double-lt (String.◌∷◌ c s) h = elim (Bool-cases (code c == b'$')) [
  | inl e ↦ rw e (omega (arith, length-double s))
  | inr e ↦ rw e (omega (arith, length-double-lt s (ground arith)))
]

double-ne : (s : String) → has_char "$" s ≡ true → str_eq (double_dollars s) s ≡ false
double-ne s h = elim (Bool-cases (str_eq (double_dollars s) s)) [
  | inl e ↦
      absurd
        (omega (arith, length-double-lt s h, ap text_length ((eq_iff (double_dollars s) s).0 e)))
  | inr e ↦ e
]

eq_refl : (s : String) → str_eq s s ≡ true
eq_refl s = (eq_iff s s).1 refl

or-true : (b : Bool) → (b || true) ≡ true
or-true true = refl
or-true false = refl

or_assoc : (a b c : Bool) → ((a || b) || c) ≡ (a || (b || c))
or_assoc true b c = refl
or_assoc false b c = refl

module _ (sha : String → String) where
  same_plain : (s : String) → same_value sha s (some s) ≡ true
  unfolding same_value
  same_plain s = rw (eq_refl (sha s)) refl

  same_escaped : (s : String) → same_value sha (double_dollars s) (some s) ≡ true
  unfolding same_value
  same_escaped s = rw (eq_refl (sha (double_dollars s))) (or-true _)

  note_plain :
      (s : String) (f : Forms)
      → note_form sha s (some s) f ≡ record f { plain = f.plain || has_char "$" s }
  note_plain s f = ground (arith, same_plain s, eq_refl s)

  note_escaped :
      (s : String) (f : Forms)
      → note_form sha (double_dollars s) (some s) f
        ≡ record f { escaped = f.escaped || has_char "$" s }
  note_escaped s f = ground (arith, same_escaped s, double-ne s)

  forms_plain :
      (other : Value → String) (running : Env) (fs : Fields) (f : Forms)
      → Runs running fs
      → forms_of sha running f (env_of_fields other fs)
        ≡ record f { plain = f.plain || some_dollar fs }
  unfolding forms_of env_of_fields
  forms_plain other running end f r = ground arith
  forms_plain other running (field k (text s) fs) f r =
      ap (λ o. forms_of sha running (note_form sha s o f) (env_of_fields other fs)) r.0
      ∙ ap (λ g. forms_of sha running g (env_of_fields other fs)) (note_plain s f)
      ∙ forms_plain other running fs (record f { plain = f.plain || has_char "$" s }) r.1
      ∙ ap (λ b. record f { plain = b }) (or_assoc f.plain (has_char "$" s) (some_dollar fs))
  forms_plain other running (field k null fs) f r = absurd r
  forms_plain other running (field k (boolean b) fs) f r = absurd r
  forms_plain other running (field k (integer n) fs) f r = absurd r
  forms_plain other running (field k (real s) fs) f r = absurd r
  forms_plain other running (field k (array vs) fs) f r = absurd r
  forms_plain other running (field k (object gs) fs) f r = absurd r

  forms_escaped :
      (other : Value → String) (running : Env) (fs : Fields) (f : Forms)
      → Runs running fs
      → forms_of sha running f (env_of_fields other (map_fields double_dollars fs))
        ≡ record f { escaped = f.escaped || some_dollar fs }
  unfolding forms_of env_of_fields map_fields
  forms_escaped other running end f r = ground arith
  forms_escaped other running (field k (text s) fs) f r =
      ap
        (λ o.
          forms_of sha running (note_form sha (double_dollars s) o f)
            (env_of_fields other (map_fields double_dollars fs)))
        r.0
      ∙ ap (λ g. forms_of sha running g (env_of_fields other (map_fields double_dollars fs)))
          (note_escaped s f)
      ∙ forms_escaped other running fs (record f { escaped = f.escaped || has_char "$" s }) r.1
      ∙ ap (λ b. record f { escaped = b }) (or_assoc f.escaped (has_char "$" s) (some_dollar fs))
  forms_escaped other running (field k null fs) f r = absurd r
  forms_escaped other running (field k (boolean b) fs) f r = absurd r
  forms_escaped other running (field k (integer n) fs) f r = absurd r
  forms_escaped other running (field k (real s) fs) f r = absurd r
  forms_escaped other running (field k (array vs) fs) f r = absurd r
  forms_escaped other running (field k (object gs) fs) f r = absurd r

get-map_fields :
    (fn : String → String) (k : String) (fs : Fields) {v : Value}
    → get k fs ≡ some v
    → get k (map_fields fn fs) ≡ some (map_strings fn v)
unfolding map_fields
get-map_fields fn k end h = ground arith
get-map_fields fn k (field j w fs) h = elim (Bool-cases (str_eq j k)) [
  | inl e ↦ rw e (ap (λ o. elim o [ none ↦ none | some x ↦ some (map_strings fn x) ]) (rw e at h))
  | inr e ↦ rw e (get-map_fields fn k fs (rw e at h))
]

-- The service as it runs has its environment as a mapping of texts, each of them the value that runs, one with a dollar sign at
-- least. Then it is what `to_runtime_literal` reads, whether the provider prints it as it is or with every dollar sign doubled.
pub to_runtime_literal-escape :
    (other : Value → String) (sha : String → String) (svc env : Fields) (inspect_env : Option Value)
    (running : Env)
    → env_dict other inspect_env ≡ done running
    → get "environment" svc ≡ some (object env)
    → Runs running env
    → some_dollar env ≡ true
    → (to_runtime_literal other sha svc inspect_env ≡ done svc)
      × (to_runtime_literal other sha (map_fields double_dollars svc) inspect_env ≡ done svc)
unfolding to_runtime_literal escape unescape
to_runtime_literal-escape other sha svc env inspect_env running e g r d = (
  rw (e, g, forms_plain sha other running env _ r, d) refl,
  rw
      (
        e,
        get-map_fields double_dollars "environment" svc g,
        forms_escaped sha other running env _ r,
        d,
      )
      escaped,
)
  where
    fields_of : Value → Fields
    fields_of (object fs) = fs
    fields_of _ = end

    escaped :
        literal_of (map_fields double_dollars svc) (record { plain = false; escaped = true })
        ≡ done svc
    escaped = ap (λ v. done (fields_of v)) (unescape-escape (object svc))
