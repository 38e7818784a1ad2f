-- ===== src/Client/Audit/Runner.antt =====
-- The audit runner of packages/client/src/index.ts: `startAuditRunner`, `stopAuditRunner` and
-- `triggerBackgroundAudit`, with the platform's timers as a list of the ones that are live.
pub mod Quiet
use glyph_protocol.Prelude.{
  ℕ, zero, suc, Bool, true, false, List, [], ◌∷◌, Option, none, some, ltb, ◌||◌, if◌then◌else◌,
}
use glyph_protocol.Client.Gate.{ClientState}

-- `ClientState` holds `runnerActive` and the passes that were started; `handle` is `runnerHandle`,
-- `timers` are the live intervals and `next` is the handle that the platform gives out next.
pub record Runner : Type 0 where
  pub client : ClientState
  pub handle : Option ℕ
  pub timers : List ℕ
  pub next : ℕ

abbrev pub same_timer : ℕ → ℕ → Bool
same_timer zero zero = true
same_timer zero (suc j) = false
same_timer (suc i) zero = false
same_timer (suc i) (suc j) = same_timer i j

unfoldable pub is_live : List ℕ → ℕ → Bool
is_live [] i = false
is_live (j ∷ js) i = same_timer j i || is_live js i

-- `clearInterval`
unfoldable pub clear_interval : List ℕ → ℕ → List ℕ
clear_interval [] i = []
clear_interval (j ∷ js) i =
    let rest = clear_interval js i in if same_timer j i then rest else j ∷ rest

-- `triggerBackgroundAudit`
abbrev pub trigger_background_audit : ClientState → ClientState
trigger_background_audit c = record c { passes = suc c.passes }

-- `options?.intervalMs && options.intervalMs > 0`
abbrev pub is_polling : Option ℕ → Bool
is_polling none = false
is_polling (some ms) = ltb 0 ms

-- `startAuditRunner`
unfoldable pub start_audit_runner : Option ℕ → Runner → Runner
start_audit_runner interval_ms r =
    let started = record r { client = record r.client { runner_active = true } } in
    if is_polling interval_ms
    then record started { handle = some r.next; timers = r.next ∷ r.timers; next = suc r.next }
    else started

-- `stopAuditRunner`
unfoldable pub stop_audit_runner : Runner → Runner
unfolding clear_interval
stop_audit_runner r =
    let stopped = record r { client = record r.client { runner_active = false } } in
    elim r.handle [
      | none ↦ stopped
      | some h ↦ record stopped { handle = none; timers = clear_interval r.timers h }
    ]

-- The callback of an interval, which the platform calls while the interval is live.
unfoldable pub poll : ℕ → Runner → Runner
unfolding is_live
poll i r = if is_live r.timers i then record r { client = trigger_background_audit r.client } else r

pub data RunnerAction : Type 0 where
  start : Option ℕ → RunnerAction
  stop : RunnerAction
  fire : ℕ → RunnerAction

unfoldable pub act : RunnerAction → Runner → Runner
unfolding start_audit_runner stop_audit_runner poll
act (start interval_ms) r = start_audit_runner interval_ms r
act stop r = stop_audit_runner r
act (fire i) r = poll i r

unfoldable pub act_all : List RunnerAction → Runner → Runner
unfolding act
act_all [] r = r
act_all (a ∷ rest) r = act_all rest (act a r)
