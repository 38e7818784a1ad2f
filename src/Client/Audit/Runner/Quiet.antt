-- ===== src/Client/Audit/Runner/Quiet.antt =====
-- What stopping the audit runner of packages/client/src/index.ts stops.
use glyph_protocol.Prelude.{
  ℕ, zero, suc, ◌<◌, ◌≡◌, refl, ap, inl, inr, Bool, true, false, Bool-cases, List, [], ◌∷◌, Option,
  none, some, ltb, arith,
}
use glyph_protocol.Client.Gate.{PendingAuditEntry, park}
use glyph_protocol.Client.Audit.Runner.{
  Runner, RunnerAction, start, stop, fire, act, act_all, same_timer, is_live, clear_interval,
  is_polling, start_audit_runner, stop_audit_runner, poll,
}

same_timer_refl : (i : ℕ) → same_timer i i ≡ true
same_timer_refl zero = refl
same_timer_refl (suc i) = same_timer_refl i

same_timer-suc : (i : ℕ) → same_timer i (suc i) ≡ false
same_timer-suc zero = refl
same_timer-suc (suc i) = same_timer-suc i

-- The live intervals are the one whose handle is kept, if one is.
abbrev pub HoldsOne : Option ℕ → List ℕ → Type 0
HoldsOne none timers = timers ≡ []
HoldsOne (some h) timers = timers ≡ h ∷ []

-- The runner is stopped between any two starts; the first argument says whether it polls.
abbrev pub NeverRestarts : Bool → List RunnerAction → Type 0
NeverRestarts polls [] = Unit
NeverRestarts false (start interval_ms ∷ rest) = NeverRestarts (is_polling interval_ms) rest
NeverRestarts true (start interval_ms ∷ rest) = ⊥
NeverRestarts polls (stop ∷ rest) = NeverRestarts false rest
NeverRestarts polls (fire i ∷ rest) = NeverRestarts polls rest

abbrev pub keeps : Option ℕ → Bool
keeps none = false
keeps (some h) = true

-- Nothing is live but what is kept, and the flag says whether something is.
abbrev pub IsTidy : Bool → Runner → Type 0
IsTidy polls r = HoldsOne r.handle r.timers × (keeps r.handle ≡ polls)

-- No handle is kept and no interval is live.
abbrev pub IsBare : Runner → Type 0
IsBare r = (r.handle ≡ none) × (r.timers ≡ [])

bare-IsTidy : (r : Runner) → IsBare r → IsTidy false r
bare-IsTidy r (kept, live) = simp (kept, live) (refl, refl)

stop_with :
    (r : Runner) (handle : Option ℕ) (timers : List ℕ)
    → HoldsOne handle timers
    → IsBare (stop_audit_runner (record r { handle = handle; timers = timers }))
unfolding stop_audit_runner clear_interval
stop_with r none timers h = (refl, h)
stop_with r (some i) timers h = rw h (simp (same_timer_refl i) (refl, refl))

start_with :
    (r : Runner) (interval_ms handle : Option ℕ) (timers : List ℕ)
    → IsTidy false (record r { handle = handle; timers = timers })
    → IsTidy
        (is_polling interval_ms)
        (start_audit_runner interval_ms (record r { handle = handle; timers = timers }))
unfolding start_audit_runner
start_with r interval_ms (some i) timers h = absurd (cc (h.1))
start_with r interval_ms none timers h = elim (Bool-cases (is_polling interval_ms)) [
  | inl on ↦ simp on (ap (λ m. r.next ∷ m) (h.0), refl)
  | inr off ↦ simp off (h.0, refl)
]

poll-IsTidy : (polls : Bool) (i : ℕ) (r : Runner) → IsTidy polls r → IsTidy polls (poll i r)
unfolding poll
poll-IsTidy polls i r h = elim (Bool-cases (is_live r.timers i)) [
  | inl live ↦ simp live h
  | inr gone ↦ simp gone h
]

act_all-IsTidy :
    (polls : Bool) (actions : List RunnerAction) (r : Runner)
    → NeverRestarts polls actions
    → IsTidy polls r
    → (later : Bool) × IsTidy later (act_all actions r)
unfolding act_all act
act_all-IsTidy polls [] r never h = (polls, h)
act_all-IsTidy false (start interval_ms ∷ rest) r never h =
    act_all-IsTidy (is_polling interval_ms) rest (start_audit_runner interval_ms r) never
      (start_with r interval_ms r.handle r.timers h)
act_all-IsTidy true (start interval_ms ∷ rest) r never h = absurd never
act_all-IsTidy polls (stop ∷ rest) r never h =
    act_all-IsTidy false rest (stop_audit_runner r) never
      (bare-IsTidy (stop_audit_runner r) (stop_with r r.handle r.timers (h.0)))
act_all-IsTidy polls (fire i ∷ rest) r never h =
    act_all-IsTidy polls rest (poll i r) never (poll-IsTidy polls i r h)

stop_idle :
    (r : Runner) (handle : Option ℕ)
    → (stop_audit_runner (record r { handle = handle })).client.runner_active ≡ false
unfolding stop_audit_runner
stop_idle r none = refl
stop_idle r (some i) = refl

poll_nothing : (i : ℕ) (r : Runner) → r.timers ≡ [] → poll i r ≡ r
unfolding poll is_live
poll_nothing i r e = rw (ap (λ m. is_live m i) e)

-- If a runner with no interval is never started twice without a stop in between, then after a final
-- stop, whatever polls came before, neither an interval nor a parked update starts a pass.
pub stop_audit_runner-quiet :
    (actions : List RunnerAction) (r : Runner) (i : ℕ) (entry : PendingAuditEntry)
    → IsBare r
    → NeverRestarts false actions
    → let stopped = stop_audit_runner (act_all actions r) in
      (poll i stopped ≡ stopped) × ((park entry stopped.client).passes ≡ stopped.client.passes)
stop_audit_runner-quiet actions r i entry bare never =
    let tidy = (act_all-IsTidy false actions r never (bare-IsTidy r bare)).1 in
    let last = act_all actions r in
    (
      poll_nothing i (stop_audit_runner last) (stop_with last last.handle last.timers (tidy.0)).1,
      simp (stop_idle last last.handle) refl,
    )

-- Whatever the runner, when it is started twice with intervals and then stopped, it counts as
-- stopped, but the first interval still starts passes.
pub restart-leaks :
    (r : Runner) (first second : ℕ)
    → 0 < first
    → 0 < second
    → let stopped =
        stop_audit_runner (start_audit_runner (some second) (start_audit_runner (some first) r)) in
      (stopped.client.runner_active ≡ false)
      × ((poll r.next stopped).client.passes ≡ suc r.client.passes)
unfolding start_audit_runner stop_audit_runner clear_interval poll is_live
restart-leaks r first second a b =
    let on_first : ltb 0 first ≡ true = ground arith in
    let on_second : ltb 0 second ≡ true = ground arith in
    simp (on_first, on_second, same_timer_refl, same_timer-suc) (refl, refl)
