-- ===== src/Zai.antt =====
-- pylib/zai_reset.py: redeeming a weekly reset card when the weekly quota of a z.ai connection is
-- nearly spent. What OmniRoute answers is given with each visit; the state maps a connection to the
-- window of its last redeem, and is written to the file at once.
pub mod Once
mod Tests
use Prim.Native.Nat.{Ordering}
use Prim.Native.String.{compare}
use llm_env.Prelude.{
  ℕ, ◌+◌, ◌*◌, Bool, true, false, not, ◌&&◌, Option, none, some, String, List, [], ◌∷◌, ltb, leb,
  lookup, insert, str_eq, keep, if◌then◌else◌,
}

-- A request is answered or raises OmniRouteError.
pub data Reply (A : Type 0) : Type 0 where
  answered : A → Reply A
  raised : Reply A

-- The weekly quota; `window` is empty where `resetAt` is not a string.
pub record Weekly : Type 0 where
  pub used : ℕ
  pub total : ℕ
  pub window : String

pub record Card : Type 0 where
  pub reset_type : String
  pub selection_token : String
  pub expires_at : String

-- One call of `_check_connection`, with what its three requests are answered.
pub record Visit : Type 0 where
  pub connection : String
  pub usage : Reply (Option Weekly)
  pub cards : Reply (List Card)
  pub redeem : Reply Unit
  pub dry_run : Bool

pub data Action : Type 0 where
  no_weekly_quota below_threshold already_redeemed no_week_card would_redeem error redeemed : Action

abbrev pub State : Type 0
State = List (String × String)

-- `_weekly` takes a quota only with a positive total.
unfoldable pub weekly_of : Option Weekly → Option Weekly
weekly_of none = none
weekly_of (some w) = if ltb 0 w.total then some w else none

-- `round(100 * used / total, 1) >= 99`: the rounded tenths reach 990 from 989.5 on.
unfoldable pub is_spent : Weekly → Bool
is_spent w = leb (1979 * w.total) (2000 * w.used)

abbrev is_before : String → String → Bool
is_before s t = elim (compare s t) [ Ordering.lt ↦ true | _ ↦ false ]

unfoldable pub is_usable : Card → Bool
is_usable c = str_eq c.reset_type "WEEK" && not (str_eq c.selection_token "")

-- `min(..., key=...)`: the first of the least.
unfoldable pub soonest : Card → List Card → Card
soonest best [] = best
soonest best (c ∷ cs) = soonest (if is_before c.expires_at best.expires_at then c else best) cs

abbrev soonest_of : List Card → Option Card
soonest_of [] = none
soonest_of (c ∷ cs) = some (soonest c cs)

-- `_week_card`
unfoldable pub week_card : List Card → Option Card
unfolding is_usable soonest
week_card cards = soonest_of (keep is_usable cards)

-- `window and state.get(cid, {}).get("window") == window`
abbrev pub is_recorded : State → String → String → Bool
is_recorded state cid window =
    not (str_eq window "") && elim (lookup cid state) [ none ↦ false | some w ↦ str_eq w window ]

-- After the cards are known.
abbrev pub spend : State → Visit → String → Option Card → State × Action
spend state v window none = (state, no_week_card)
spend state v window (some card) = if v.dry_run then (state, would_redeem) else elim v.redeem [
  | raised ↦ (state, error)
  | answered t ↦ (insert v.connection window state, redeemed)
]

abbrev pub use_card : State → Visit → String → Reply (List Card) → State × Action
use_card state v window raised = (state, error)
use_card state v window (answered cards) = spend state v window (week_card cards)

abbrev pub use_quota : State → Visit → Option Weekly → State × Action
use_quota state v none = (state, no_weekly_quota)
use_quota state v (some w) =
    if not (is_spent w)
    then (state, below_threshold)
    else if is_recorded state v.connection w.window
    then (state, already_redeemed)
    else use_card state v w.window v.cards

-- `_check_connection`, and the handler of OmniRouteError in `check`.
unfoldable pub check_connection : State → Visit → State × Action
unfolding weekly_of is_spent week_card
check_connection state v = elim v.usage [
  | raised ↦ (state, error)
  | answered usage ↦ use_quota state v (weekly_of usage)
]

-- The visits of one pass or of many, one after the other.
unfoldable pub check : State → List Visit → State × List Action
unfolding check_connection
check state [] = (state, [])
check state (v ∷ vs) =
    let (state', action) = check_connection state v in
    let (last, actions) = check state' vs in (last, action ∷ actions)
