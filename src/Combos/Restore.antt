-- ===== src/Combos/Restore.antt =====
-- A restore without overwriting only fills in what is missing.
use llm_env.Prelude.{
  ◌≡◌, refl, ap, true, false, Option, none, some, String, List, [], ◌∷◌, ◌++◌, lookup, is_some, All,
  arith, eq_iff,
}
use llm_env.Combos.{Combo, Connection, ComboRequest, post, put, send, restore_combos}

-- What the server has after the requests; a created combo gets an id from the server.
abbrev pub after :
    (String → String) → List ComboRequest → List (String × String) → List (String × String)
after new_id [] existing = existing
after new_id (post name payload ∷ rest) existing = (name, new_id name) ∷ after new_id rest existing
after new_id (put id payload ∷ rest) existing = after new_id rest existing

-- A creation of a combo whose name the server did not have.
abbrev pub IsCreation : List (String × String) → ComboRequest → Type 0
IsCreation existing (post name payload) = lookup name existing ≡ none
IsCreation existing (put id payload) = ⊥

-- Without `overwrite`, `restore_combos` only creates combos, and none that the server already has.
pub restore_combos-IsCreation :
    (existing : List (String × String)) (cs : List Connection) (combos : List Combo)
    → All (IsCreation existing) (restore_combos false existing cs combos).0
unfolding restore_combos
restore_combos-IsCreation existing cs [] = tt
restore_combos-IsCreation existing cs (c ∷ rest) =
    by_name c.name (restore_combos-IsCreation existing cs rest)
  where
    later : Type 0
    later = All (IsCreation existing) (restore_combos false existing cs rest).0

    by_lookup :
        (name : String) (o : Option String) (payload : Combo)
        → lookup name existing ≡ o
        → later
        → All
            (IsCreation existing)
            ((send false o name payload).0 ++ (restore_combos false existing cs rest).0)
    by_lookup name none payload e h = (e, h)
    by_lookup name (some id) payload e h = h

    by_name :
        (n : Option String)
        → later
        → All
            (IsCreation existing)
            (restore_combos false existing cs (record c { name = n } ∷ rest)).0
    by_name none h = h
    by_name (some name) h = by_lookup name (lookup name existing) _ refl h

-- Every creation among the requests is there.
abbrev IsThere : List (String × String) → ComboRequest → Type 0
IsThere existing (post name payload) = is_some (lookup name existing) ≡ true
IsThere existing (put id payload) = Unit

repeated :
    (existing now : List (String × String)) (cs live : List Connection) (combos : List Combo)
    → ((name : String) → is_some (lookup name existing) ≡ true → is_some (lookup name now) ≡ true)
    → All (IsThere now) (restore_combos false existing cs combos).0
    → (restore_combos false now live combos).0 ≡ []
unfolding restore_combos
repeated existing now cs live [] keeps h = refl
repeated existing now cs live (c ∷ rest) keeps h =
    by_name c.name (λ k. repeated existing now cs live rest keeps k) h
  where
    goes_on : Type 0
    goes_on =
        All (IsThere now) (restore_combos false existing cs rest).0
        → (restore_combos false now live rest).0 ≡ []

    nothing :
        (name : String) (o : Option String) (payload : Combo)
        → is_some o ≡ true
        → (restore_combos false now live rest).0 ≡ []
        → (send false o name payload).0 ++ (restore_combos false now live rest).0 ≡ []
    nothing name (some id) payload e h = h
    nothing name none payload e h = cc

    by_lookup :
        (name : String) (o : Option String) (payload payload' : Combo)
        → lookup name existing ≡ o
        → goes_on
        → All
            (IsThere now)
            ((send false o name payload).0 ++ (restore_combos false existing cs rest).0)
        → (send false (lookup name now) name payload').0 ++ (restore_combos false now live rest).0
          ≡ []
    by_lookup name none payload payload' e go h =
        nothing name (lookup name now) payload' h.0 (go h.1)
    by_lookup name (some id) payload payload' e go h =
        nothing name (lookup name now) payload' (keeps name (ap is_some e)) (go h)

    by_name :
        (n : Option String)
        → goes_on
        → All (IsThere now) (restore_combos false existing cs (record c { name = n } ∷ rest)).0
        → (restore_combos false now live (record c { name = n } ∷ rest)).0 ≡ []
    by_name none go h = go h
    by_name (some name) go h = by_lookup name (lookup name existing) _ _ refl go h

IsThere-weaken :
    (name id : String) (existing : List (String × String)) (rs : List ComboRequest)
    → All (IsThere existing) rs
    → All (IsThere ((name, id) ∷ existing)) rs
IsThere-weaken name id existing [] h = tt
IsThere-weaken name id existing (post n payload ∷ rs) h =
    (ground (arith, h.0), IsThere-weaken name id existing rs h.1)
IsThere-weaken name id existing (put i payload ∷ rs) h =
    (tt, IsThere-weaken name id existing rs h.1)

module _ (new_id : String → String) (existing : List (String × String)) where
  after-keeps :
      (rs : List ComboRequest) (name : String)
      → is_some (lookup name existing) ≡ true
      → is_some (lookup name (after new_id rs existing)) ≡ true
  after-keeps [] name h = h
  after-keeps (post n payload ∷ rs) name h = ground (arith, after-keeps rs name h)
  after-keeps (put i payload ∷ rs) name h = after-keeps rs name h

  after-IsThere : (rs : List ComboRequest) → All (IsThere (after new_id rs existing)) rs
  after-IsThere [] = tt
  after-IsThere (post n payload ∷ rs) = (
    ground (arith, eq_iff n n),
    IsThere-weaken n (new_id n) (after new_id rs existing) rs (after-IsThere rs),
  )
  after-IsThere (put i payload ∷ rs) = there_too (after-IsThere rs)
    where
      there_too :
          All (IsThere (after new_id rs existing)) rs
          → All (IsThere (after new_id (put i payload ∷ rs) existing)) (put i payload ∷ rs)
      there_too h = (tt, h)

  -- A second restore of the same file without `overwrite`, after a first one and with whatever
  -- connections are live by then, sends nothing.
  pub restore_combos-again :
      (cs live : List Connection) (combos : List Combo)
      → let (requests, outcomes) = restore_combos false existing cs combos in
        (restore_combos false (after new_id requests existing) live combos).0 ≡ []
  restore_combos-again cs live combos =
      let requests = (restore_combos false existing cs combos).0 in
      repeated existing (after new_id requests existing) cs live combos (after-keeps requests)
        (after-IsThere requests)
