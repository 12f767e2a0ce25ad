-- ===== src/Zai/Once.antt =====
-- At most one card per connection and window.
use llm_env.Prelude.{
  ℕ, ◌+◌, ◌≤◌, ◌≡◌, ◌≢◌, ◌⊎◌, refl, sym, ap, ◌∙◌, Bool, true, false, not, ◌&&◌, Option, none, some,
  String, List, [], ◌∷◌, lookup-insert, insert, ltb, str_eq, All, if◌then◌else◌, eq_iff, arith,
  Bool-cases, inl, inr,
}
use llm_env.Zai.{
  Reply, answered, raised, Weekly, Card, Visit, Action, redeemed, State, weekly_of, is_spent,
  week_card, is_recorded, spend, use_card, use_quota, check_connection, check,
}

-- The windows that a visit may see are all `window`, where it is of the connection `cid`.
abbrev pub SeesOnly : String → String → Visit → Type 0
SeesOnly cid window v =
    (w : Weekly) → v.connection ≡ cid → v.usage ≡ answered (some w) → w.window ≡ window

abbrev pub is_redeemed : Action → Bool
is_redeemed redeemed = true
is_redeemed _ = false

abbrev one_if : Bool → ℕ
one_if true = 1
one_if false = 0

-- The cards redeemed for one connection.
abbrev pub redeems : String → List Visit → List Action → ℕ
redeems cid (v ∷ vs) (a ∷ actions) =
    one_if (str_eq v.connection cid && is_redeemed a) + redeems cid vs actions
redeems cid _ _ = 0

-- What one visit does: it leaves the state alone and redeems nothing, or it redeems, the window was
-- not recorded, and now it is.
abbrev IsVisit : State → Visit → State × Action → Type 0
IsVisit state v r =
    ((r.0 ≡ state) × (is_redeemed r.1 ≡ false))
    ⊎ ((w : Weekly) × ((v.usage ≡ answered (some w))
          × ((is_recorded state v.connection w.window ≡ false)
              × (r.0 ≡ insert v.connection w.window state))))

spend-IsVisit :
    (state : State) (v : Visit) (w : Weekly) (card : Option Card)
    → v.usage ≡ answered (some w)
    → is_recorded state v.connection w.window ≡ false
    → IsVisit state v (spend state v w.window card)
spend-IsVisit state v w none h k = inl (refl, refl)
spend-IsVisit state v w (some card) h k = by_run v.dry_run v.redeem
  where
    by_run :
        (d : Bool) (r : Reply Unit)
        → IsVisit state v (spend state (record v { dry_run = d; redeem = r }) w.window (some card))
    by_run true r = inl (refl, refl)
    by_run false raised = inl (refl, refl)
    by_run false (answered t) = inr (w, (h, (k, refl)))

use_quota-IsVisit :
    (state : State) (v : Visit) (w : Weekly)
    → v.usage ≡ answered (some w)
    → IsVisit state v (use_quota state v (some w))
use_quota-IsVisit state v w h = elim (Bool-cases (not (is_spent w))) [
  | inl enough ↦ rw enough (inl (refl, refl))
  | inr spent ↦ elim (Bool-cases (is_recorded state v.connection w.window)) [
    | inl recorded ↦ rw (spent, recorded) (inl (refl, refl))
    | inr fresh ↦ rw (spent, fresh) (by_cards v.cards fresh)
  ]
]
  where
    by_cards :
        (r : Reply (List Card))
        → is_recorded state v.connection w.window ≡ false
        → IsVisit state v (use_card state v w.window r)
    by_cards raised fresh = inl (refl, refl)
    by_cards (answered cards) fresh = spend-IsVisit state v w (week_card cards) h fresh

check_connection-IsVisit : (state : State) (v : Visit) → IsVisit state v (check_connection state v)
unfolding check_connection weekly_of
check_connection-IsVisit state v = by_usage v.usage refl
  where
    by_total :
        (w : Weekly) (b : Bool)
        → v.usage ≡ answered (some w)
        → IsVisit state v (use_quota state v (if b then some w else none))
    by_total w true e = use_quota-IsVisit state v w e
    by_total w false e = inl (refl, refl)

    by_usage :
        (r : Reply (Option Weekly))
        → v.usage ≡ r
        → IsVisit state v (check_connection state (record v { usage = r }))
    by_usage raised e = inl (refl, refl)
    by_usage (answered none) e = inl (refl, refl)
    by_usage (answered (some w)) e = by_total w (ltb 0 w.total) e

-- A redeem is recorded, and nothing of another connection changes.
insert-is_recorded :
    (state : State) (cid j window w : String)
    → is_recorded (insert j w state) cid window ≡ (
        if str_eq j cid
        then not (str_eq window "") && str_eq w window
        else is_recorded state cid window)
insert-is_recorded state cid j window w = elim (Bool-cases (str_eq j cid)) [
  | inl same ↦ rw (lookup-insert j cid w state, same) refl
  | inr differs ↦ rw (lookup-insert j cid w state, differs) refl
]

module _ (cid window : String) (named : str_eq window "" ≡ false) where
  -- A visit that redeems for `cid` finds the window free and leaves it recorded; any other visit
  -- redeems nothing for `cid` and keeps what is recorded for it.
  visit :
      (state : State) (v : Visit)
      → SeesOnly cid window v
      → let r = check_connection state v in
        ((str_eq v.connection cid && is_redeemed r.1 ≡ false)
          × (is_recorded r.0 cid window ≡ is_recorded state cid window))
        ⊎ ((is_recorded state cid window ≡ false) × (is_recorded r.0 cid window ≡ true))
  visit state v sees = elim (check_connection-IsVisit state v) [
    | inl (same, idle) ↦ inl (ground arith, ap (λ (s : State). is_recorded s cid window) same)
    | inr (w, (u, (fresh, e))) ↦ elim (Bool-cases (str_eq v.connection cid)) [
      | inr differs ↦ inl (
        ground arith,
        rw (e, insert-is_recorded state cid v.connection window w.window, differs) refl,
      )
      | inl mine ↦
          let j : v.connection ≡ cid = ground (arith, eq_iff v.connection cid) in
          let m : w.window ≡ window = sees w j u in
          inr (
            sym (
                  ap (λ (c : String). is_recorded state c w.window) j
                  ∙ ap (λ (x : String). is_recorded state cid x) m)
                ∙ fresh,
            rw (e, insert-is_recorded state cid v.connection window w.window, mine)
                (ground (arith, eq_iff w.window window)),
          )
    ]
  ]

  none_left :
      (state : State) (vs : List Visit)
      → All (SeesOnly cid window) vs
      → is_recorded state cid window ≡ true
      → redeems cid vs (check state vs).1 ≡ 0
  unfolding check
  none_left state [] s h = refl
  none_left state (v ∷ vs) s h = elim (visit state v s.0) [
    | inl (idle, kept) ↦
        rw idle (omega (arith, none_left (check_connection state v).0 vs s.1 (kept ∙ h)))
    | inr (fresh, recorded) ↦ let f : true ≡ false = sym h ∙ fresh in cc
  ]

  at_most_one :
      (state : State) (vs : List Visit)
      → All (SeesOnly cid window) vs
      → redeems cid vs (check state vs).1 ≤ 1
  unfolding check
  at_most_one state [] s = omega arith
  at_most_one state (v ∷ vs) s = elim (visit state v s.0) [
    | inl (idle, kept) ↦ rw idle (omega (arith, at_most_one (check_connection state v).0 vs s.1))
    | inr (fresh, recorded) ↦
        let later = none_left (check_connection state v).0 vs s.1 recorded in
        rw later (le_one (str_eq v.connection cid && is_redeemed (check_connection state v).1))
  ]
    where
      le_one : (b : Bool) → one_if b + 0 ≤ 1
      le_one true = omega arith
      le_one false = omega arith

-- While the weekly quota of a connection reports one and the same window, which is not empty, at most
-- one redeem for it succeeds, whatever the state was, however often it is visited, among visits of
-- other connections, and whatever the requests are answered.
pub check-redeems_le :
    (cid window : String) (state : State) (vs : List Visit)
    → window ≢ ""
    → All (SeesOnly cid window) vs
    → redeems cid vs (check state vs).1 ≤ 1
check-redeems_le cid window state vs n s =
    at_most_one cid window (ground (arith, eq_iff window "")) state vs s
