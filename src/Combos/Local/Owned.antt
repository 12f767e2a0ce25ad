-- ===== src/Combos/Local/Owned.antt =====
-- What OmniRoute has after `ensure_local_combo`, and that a second one sends nothing.
use Prim.Native.String.{String}
use llm_env.Prelude.{
  ℕ, ◌≡◌, refl, sym, ◌∙◌, ap, true, Option, none, some, List, arith, Bool-cases, inl, inr,
}
use mathlib.Core.Path.{subst}
use llm_env.Json.{Value, Fields, get}
use llm_env.Config.Raw.Values.{Floats}
use llm_env.Combos.Local.{
  is_done, local_combo_payload, matches, LocalRequest, post, put, LocalAction, unchanged,
  connection_id, find_local, overwrite, bring, ensure_local_combo, after_request,
}
use llm_env.Combos.Local.Matches.{IsLocal, Keeps, matches-IsLocal, Keeps-matches}

abbrev pub payload_of : LocalRequest → Fields
payload_of (post p) = p
payload_of (put id p) = p

-- If a request was sent, the combo of the local name that is then listed keeps its payload.
abbrev pub Stores : (LocalRequest → Value → Value) → Value → Option LocalRequest → Type 0
Stores server listing sent =
    (r : LocalRequest)
    → sent ≡ some r
    → (combo : Fields) × (find_local (server r listing) ≡ some (some combo))
      × Keeps (payload_of r) combo

module _ (fl : Floats) (alias connection : String) (context_length : ℕ) where
  abbrev desired : Fields
  desired = local_combo_payload alias connection context_length

  -- The combo that is listed after a request matches the payload.
  abbrev IsMatched : Value → Type 0
  IsMatched now =
      (combo : Fields) × (find_local now ≡ some (some combo)) × (matches fl combo desired ≡ true)

  module _ (server : LocalRequest → Value → Value) (listing : Value) where
    sent-IsMatched :
        (r : LocalRequest)
        → payload_of r ≡ desired
        → Stores server listing (some r)
        → IsMatched (server r listing)
    sent-IsMatched r e stores =
        let (combo, found, keeps) = stores r refl in
        (
          combo,
          found,
          Keeps-matches fl alias connection context_length combo
              (subst (λ p. Keeps p combo) e keeps),
        )

    overwrite-IsMatched :
        (id : Option Value)
        → is_done (overwrite desired id).1 ≡ true
        → Stores server listing (overwrite desired id).0
        → IsMatched (after_request server listing (overwrite desired id).0)
    overwrite-IsMatched none d stores = ground arith
    overwrite-IsMatched (some id) d stores = sent-IsMatched (put id desired) refl stores

    bring-IsMatched :
        (found : Option (Option Fields))
        → find_local listing ≡ found
        → is_done (bring fl desired found).1 ≡ true
        → Stores server listing (bring fl desired found).0
        → IsMatched (after_request server listing (bring fl desired found).0)
    bring-IsMatched none e d stores = ground arith
    bring-IsMatched (some none) e d stores = sent-IsMatched (post desired) refl stores
    bring-IsMatched (some (some existing)) e d stores =
        elim (Bool-cases (matches fl existing desired)) [
          | inl m ↦ rw m (existing, e, m)
          | inr m ↦ rw m (overwrite-IsMatched (get "id" existing) (rw m at d) (rw m at stores))
        ]

  ensure-bring :
      (connections : List Fields) (listing : Value)
      → connection_id connections ≡ some connection
      → ensure_local_combo fl connections alias context_length listing
        ≡ bring fl desired (find_local listing)
  unfolding ensure_local_combo
  ensure-bring connections listing c = rw c refl

-- OmniRoute has a connection with an id, its listing has combos, and one of the local name has an id; and what it lists after a
-- request is as documented (`Stores`). Then after `ensure_local_combo`, whatever was there before, the combo of that name has the
-- strategy, the context and as its one member the model of the connection, and a second `ensure_local_combo` sends nothing and
-- answers `unchanged`, whatever keys and ids OmniRoute has added.
pub ensure_local_combo-IsLocal :
    (fl : Floats) (server : LocalRequest → Value → Value) (connections : List Fields)
    (alias connection : String) (context_length : ℕ) (listing : Value)
    → connection_id connections ≡ some connection
    → is_done (ensure_local_combo fl connections alias context_length listing).1 ≡ true
    → Stores server listing (ensure_local_combo fl connections alias context_length listing).0
    → let now =
        after_request server listing
          (ensure_local_combo fl connections alias context_length listing).0 in
      (combo : Fields) × (find_local now ≡ some (some combo))
      × IsLocal fl alias connection context_length combo
      × (ensure_local_combo fl connections alias context_length now ≡ (none, unchanged))
ensure_local_combo-IsLocal fl server connections alias connection context_length listing c d
      stores =
    let same = ensure-bring fl alias connection context_length connections listing c in
    let first =
      bring-IsMatched fl alias connection context_length server listing (find_local listing) refl
        (ap (λ (x : Option LocalRequest × LocalAction). is_done x.1) (sym same) ∙ d)
        (subst (λ (x : Option LocalRequest × LocalAction). Stores server listing x.0) same
          stores) in
    let (combo, found, matched) =
      subst
        (λ (x : Option LocalRequest × LocalAction).
          IsMatched fl alias connection context_length (after_request server listing x.0))
        (sym same) first in
    (
      combo,
      found,
      matches-IsLocal fl alias connection context_length combo matched,
      ensure-bring fl alias connection context_length connections _ c ∙ rw (found, matched) refl,
    )
