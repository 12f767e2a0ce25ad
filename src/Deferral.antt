-- ===== src/Deferral.antt =====
-- pylib/omniroute_update.py: the closed set of deferral reasons. A deferral is a safe refusal to
-- proceed, with the reason that an operator sees; its detail text never decides anything.
use llm_env.Prelude.{Bool, true, false}

pub data Reason : Type 0 where
  ready busy capability coverage logging feed overflow auth schema age clock : Reason
  continuity deadline ownership health lock input io state : Reason

-- `reason in TRANSIENT_REASONS` (pylib/omniroute_activity.py)
abbrev pub is_transient : Reason → Bool
is_transient Reason.age = true
is_transient Reason.io = true
is_transient Reason.clock = true
is_transient _ = false

-- `s.reason is Reason.busy`
abbrev pub is_busy : Reason → Bool
is_busy Reason.busy = true
is_busy _ = false
