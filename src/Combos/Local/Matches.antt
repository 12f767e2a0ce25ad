-- ===== src/Combos/Local/Matches.antt =====
-- pylib/omniroute_combos.py, `_matches`: it finds the combos that are as the payload wants them, and what OmniRoute keeps of it matches.
use Prim.Native.String.{String}
use llm_env.Prelude.{
  ℕ, ◌≡◌, refl, ◌∙◌, ap, Bool, true, false, ◌&&◌, Option, none, some, List, [], ◌∷◌, map, eq_iff,
  arith, ==_iff,
}
use llm_env.Prelude.Chars.{append_text}
use llm_env.Json.{Value, text, Fields, get}
use llm_env.Config.Raw.Values.{Floats, equals}
use llm_env.Combos.Local.{
  local_member, is_text, local_combo_payload, member_keys, dicts, models_of, members, same_value,
  same_values, same_members, same_scalars, matches,
}

-- A member of the combo, whatever else it has.
pub record IsLocalMember (alias connection : String) (m : Fields) : Type 0 where
  pub is_model : get "model" m ≡ some (text (append_text "llama-cpp/" alias))
  pub is_provider : get "providerId" m ≡ some (text "llama-cpp")
  pub is_connection : get "connectionId" m ≡ some (text connection)
  pub is_label : get "label" m ≡ some (text "llm-env-local")

-- A combo with the strategy, the context and the one member that the tool wants; other keys, and entries that are no mapping, are free.
pub record IsLocal (fl : Floats) (alias connection : String) (context_length : ℕ) (combo : Fields)
    : Type 0 where
  pub member : Fields
  pub is_strategy : get "strategy" combo ≡ some (text "priority")
  pub is_context : equals fl context_length (get "context_length" combo) ≡ true
  pub is_only : dicts (models_of combo) ≡ member ∷ []
  pub is_member : IsLocalMember alias connection member

-- The documented behaviour of OmniRoute on a payload that it is sent: it keeps the strategy, the context, and these four keys of the
-- members. It may add keys, and give its own ids.
pub record KeepsMember (sent member : Fields) : Type 0 where
  pub keeps_model : get "model" member ≡ get "model" sent
  pub keeps_provider : get "providerId" member ≡ get "providerId" sent
  pub keeps_connection : get "connectionId" member ≡ get "connectionId" sent
  pub keeps_label : get "label" member ≡ get "label" sent

abbrev pub KeepsMembers : List Fields → List Fields → Type 0
KeepsMembers [] [] = true ≡ true
KeepsMembers (m ∷ ms) (n ∷ ns) = KeepsMember m n × KeepsMembers ms ns
KeepsMembers _ _ = true ≡ false

pub record Keeps (payload combo : Fields) : Type 0 where
  pub keeps_strategy : get "strategy" combo ≡ get "strategy" payload
  pub keeps_context : get "context_length" combo ≡ get "context_length" payload
  pub keeps_members : KeepsMembers (dicts (models_of payload)) (dicts (models_of combo))

is_text-eq : (o : Option Value) (s : String) → is_text s o ≡ true → o ≡ some (text s)
is_text-eq (some (text t)) s h = ap (λ x. some (text x)) ((eq_iff t s).0 h)
is_text-eq none s h = ground arith
is_text-eq (some v) s h = ground arith

split : (a b : Bool) → (a && b) ≡ true → (a ≡ true) × (b ≡ true)
split a b h = ground arith

module _ (fl : Floats) (alias connection : String) (context_length : ℕ) where
  abbrev desired : Fields
  desired = local_combo_payload alias connection context_length

  abbrev wanted : List (Option Value)
  wanted =
      some (text (append_text "llama-cpp/" alias))
      ∷ some (text "llama-cpp")
      ∷ some (text connection)
      ∷ some (text "llm-env-local")
      ∷ []

  members-desired : members desired ≡ wanted ∷ []
  unfolding members local_combo_payload dicts
  members-desired = refl

  values-IsLocalMember :
      (m : Fields)
      → same_values fl (map (λ k. get k m) member_keys) wanted ≡ true
      → IsLocalMember alias connection m
  unfolding same_values same_value
  values-IsLocalMember m h =
      let (model, h1) = split (is_text (append_text "llama-cpp/" alias) (get "model" m)) _ h in
      let (provider, h2) = split (is_text "llama-cpp" (get "providerId" m)) _ h1 in
      let (id, h3) = split (is_text connection (get "connectionId" m)) _ h2 in
      let (label, _) = split (is_text "llm-env-local" (get "label" m)) _ h3 in
      record {
        is_model = is_text-eq (get "model" m) _ model;
        is_provider = is_text-eq (get "providerId" m) _ provider;
        is_connection = is_text-eq (get "connectionId" m) _ id;
        is_label = is_text-eq (get "label" m) _ label;
      }

  one_member :
      (ms : List Fields)
      → same_members fl (map (λ m. map (λ k. get k m) member_keys) ms) (wanted ∷ []) ≡ true
      → (m : Fields) × (ms ≡ m ∷ []) × IsLocalMember alias connection m
  unfolding same_members
  one_member [] h = ground arith
  one_member (m ∷ []) h = (
    m,
    refl,
    values-IsLocalMember m
        (split (same_values fl (map (λ k. get k m) member_keys) wanted) true h).0,
  )
  one_member (m ∷ n ∷ ms) h =
      let none_left : false ≡ true =
        (split (same_values fl (map (λ k. get k m) member_keys) wanted) false h).1 in
      ground arith

  pub matches-IsLocal :
      (combo : Fields)
      → matches fl combo desired ≡ true
      → IsLocal fl alias connection context_length combo
  unfolding matches same_scalars local_combo_payload members same_value
  matches-IsLocal combo h =
      let (scalars, same) = split _ (same_members fl (members combo) (members desired)) h in
      let (strategy, h1) = split (is_text "priority" (get "strategy" combo)) _ scalars in
      let (context, _) = split (equals fl context_length (get "context_length" combo)) true h1 in
      let (m, only, local) = one_member (dicts (models_of combo)) same in
      record {
        member = m;
        is_strategy = is_text-eq (get "strategy" combo) "priority" strategy;
        is_context = context;
        is_only = only;
        is_member = local;
      }

  kept_values :
      (ns : List Fields)
      → KeepsMembers (local_member alias connection ∷ []) ns
      → map (λ m. map (λ k. get k m) member_keys) ns ≡ wanted ∷ []
  kept_values [] h = ground arith
  kept_values (n ∷ []) (k, h) =
      rw (k.keeps_model, k.keeps_provider, k.keeps_connection, k.keeps_label) refl
  kept_values (n ∷ n' ∷ ns) (k, h) = ground arith

  kept_members : (combo : Fields) → Keeps desired combo → members combo ≡ members desired
  unfolding members local_combo_payload dicts
  kept_members combo k = kept_values (dicts (models_of combo)) k.keeps_members

  same_desired : same_members fl (members desired) (members desired) ≡ true
  unfolding members local_combo_payload dicts same_members same_values same_value
  same_desired =
      rw
        (
          (eq_iff (append_text "llama-cpp/" alias) (append_text "llama-cpp/" alias)).1 refl,
          (eq_iff connection connection).1 refl,
        )
        refl

  pub Keeps-matches : (combo : Fields) → Keeps desired combo → matches fl combo desired ≡ true
  unfolding matches same_scalars local_combo_payload same_value equals
  Keeps-matches combo k =
      rw (k.keeps_strategy, k.keeps_context, (==_iff context_length context_length).1 refl)
        (ap (λ ms. same_members fl ms (members desired)) (kept_members combo k) ∙ same_desired)
