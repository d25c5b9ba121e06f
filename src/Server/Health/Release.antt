-- ===== src/Server/Health/Release.antt =====
-- The goroutine of a health check call of go/server/health.go behind its check: what it needs to
-- release the execution.
use dense_cloud.Golang.Errors.{Err, canceled, deadline_exceeded}
use dense_cloud.Golang.Contexts.{Duration}
use dense_cloud.Prelude.{
  Option-cases, ℕ, zero, suc, ◌-◌, ◌<◌, ◌≡◌, refl, ◌≢◌, ◌⊎◌, inl, inr, true, Option, none, some,
  arith,
}
use dense_cloud.Server.Health.Execution.{
  CheckOutcome, Stage, checking, stored, closed, finished, released, HealthCheckExecution,
  new_execution, start_or_join, store_result, close_done, finish, end_context, cancel_call,
  expire_call, Step, probe, return, close, leave, cancel, expire, Reach, here, step,
}
use dense_cloud.Server.Health.SingleFlight.{
  in_flight, IsValid, new_execution-IsValid, Reach-IsValid,
}

-- The statements that a goroutine has still to run: the check, close, finish and cancel.
abbrev pub steps_left : Stage → ℕ
steps_left checking = 4
steps_left stored = 3
steps_left closed = 2
steps_left finished = 1
steps_left released = 0

-- The next statement of a call's goroutine, its check coming back with an outcome.
unfoldable pub goroutine_next : ℕ → CheckOutcome → HealthCheckExecution → HealthCheckExecution
goroutine_next c outcome e = elim (e.calls c).stage [
  | checking ↦ store_result c outcome e
  | stored ↦ close_done c e
  | closed ↦ finish c e
  | finished ↦ cancel_call c e
  | released ↦ e
]

-- Statement after statement, with no other goroutine in between.
unfoldable pub goroutine_alone : ℕ → ℕ → CheckOutcome → HealthCheckExecution → HealthCheckExecution
goroutine_alone zero c outcome e = e
goroutine_alone (suc n) c outcome e = goroutine_alone n c outcome (goroutine_next c outcome e)

goroutine_next-Reach :
    {e f : HealthCheckExecution} (c : ℕ) (outcome : CheckOutcome)
    → Reach e f
    → c < f.next
    → Reach e (goroutine_next c outcome f)
unfolding goroutine_next
goroutine_next-Reach {e} {f} c outcome r h = at_stage (f.calls c).stage refl
  where
    at_stage :
        (s : Stage)
        → (f.calls c).stage ≡ s
        → Reach e (elim s [
          | checking ↦ store_result c outcome f
          | stored ↦ close_done c f
          | closed ↦ finish c f
          | finished ↦ cancel_call c f
          | released ↦ f
        ])
    at_stage checking q = step r (return c outcome h q)
    at_stage stored q = step r (close c h q)
    at_stage closed q = step r (leave c h q)
    at_stage finished q = step r (cancel c h q)
    at_stage released q = r

goroutine_next-left :
    (c : ℕ) (outcome : CheckOutcome) (e : HealthCheckExecution)
    → (steps_left ((goroutine_next c outcome e).calls c).stage ≡ steps_left (e.calls c).stage - 1)
      × ((goroutine_next c outcome e).next ≡ e.next)
unfolding goroutine_next store_result close_done finish cancel_call
goroutine_next-left c outcome e = ground arith

goroutine_alone-left :
    (n c : ℕ) (outcome : CheckOutcome) (e : HealthCheckExecution)
    → (steps_left ((goroutine_alone n c outcome e).calls c).stage
        ≡ steps_left (e.calls c).stage - n)
      × ((goroutine_alone n c outcome e).next ≡ e.next)
unfolding goroutine_alone
goroutine_alone-left zero c outcome e = ground arith
goroutine_alone-left (suc n) c outcome e = ground (
  arith,
  goroutine_alone-left n c outcome (goroutine_next c outcome e),
  goroutine_next-left c outcome e,
)

goroutine_alone-Reach :
    {e : HealthCheckExecution} (n c : ℕ) (outcome : CheckOutcome) (f : HealthCheckExecution)
    → Reach e f
    → c < f.next
    → Reach e (goroutine_alone n c outcome f)
unfolding goroutine_alone
goroutine_alone-Reach zero c outcome f r h = r
goroutine_alone-Reach (suc n) c outcome f r h =
    goroutine_alone-Reach n c outcome (goroutine_next c outcome f)
      (goroutine_next-Reach c outcome r h) (omega (arith, goroutine_next-left c outcome f, h))

goroutine_next-current :
    (c : ℕ) (outcome : CheckOutcome) (e : HealthCheckExecution)
    → ((goroutine_next c outcome e).current ≡ e.current)
      ⊎ ((goroutine_next c outcome e).current ≡ none)
unfolding goroutine_next store_result close_done finish cancel_call
goroutine_next-current c outcome e = ground arith

goroutine_alone-current :
    (n c : ℕ) (outcome : CheckOutcome) (e : HealthCheckExecution)
    → ((goroutine_alone n c outcome e).current ≡ e.current)
      ⊎ ((goroutine_alone n c outcome e).current ≡ none)
unfolding goroutine_alone
goroutine_alone-current zero c outcome e = inl refl
goroutine_alone-current (suc n) c outcome e = ground (
  arith,
  goroutine_next-current c outcome e,
  goroutine_alone-current n c outcome (goroutine_next c outcome e),
)

no_steps_left : (s : Stage) → steps_left s ≡ 0 → s ≡ released
no_steps_left s h = ground arith

-- The contexts of the calls whose goroutine has ended are over.
AreCanceled : HealthCheckExecution → Type 0
AreCanceled e = (c : ℕ) → c < e.next → (e.calls c).stage ≡ released → (e.calls c).ctx_err ≢ none

end_context-some : (err : Option Err) (last : Err) → end_context err last ≢ none
end_context-some none last h = cc
end_context-some (some first) last h = cc

Step-Canceled : {e f : HealthCheckExecution} → AreCanceled e → Step e f → AreCanceled f
unfolding AreCanceled start_or_join store_result close_done finish cancel_call expire_call
Step-Canceled {e} h (probe fn timeout) c lt q over =
    ground (arith, h c, Option-cases e.current, over)
Step-Canceled h (return d o p s) c lt q over = ground (arith, h c, over)
Step-Canceled h (close d p s) c lt q over = ground (arith, h c, over)
Step-Canceled h (leave d p s) c lt q over = ground (arith, h c, over)
Step-Canceled {e} h (cancel d p s) c lt q over =
    ground (arith, h c, over, end_context-some (e.calls d).ctx_err canceled)
Step-Canceled {e} h (expire d p) c lt q over =
    ground (arith, h c, over, end_context-some (e.calls d).ctx_err deadline_exceeded)

Reach-Canceled :
    {e : HealthCheckExecution}
    → Reach new_execution e
    → (c : ℕ) → c < e.next
    → (e.calls c).stage ≡ released
    → (e.calls c).ctx_err ≢ none
unfolding AreCanceled new_execution
Reach-Canceled here c lt q = absurd (omega (arith, lt))
Reach-Canceled (step r s) c lt q = Step-Canceled (Reach-Canceled r) s c lt q

released-idle :
    (e f : HealthCheckExecution) (c : ℕ)
    → in_flight (e.calls c).stage ≡ true
    → Reach new_execution e
    → c < e.next
    → (f.current ≡ e.current) ⊎ (f.current ≡ none)
    → IsValid f
    → (f.calls c).stage ≡ released
    → f.current ≡ none
released-idle e f c flying r h (inr idle) v ended = idle
released-idle e f c flying r h (inl kept) v ended =
    let busy = (Reach-IsValid new_execution-IsValid r).sole c h flying in
    ground (arith, v.current_live c)

-- In every reachable state the goroutine of a call in flight, once its check comes back, ends by at
-- most four statements of its own, in a reachable state: the call's channel is closed, so that each
-- probe that waits for it wakes, its context is over, the execution is free, and the next
-- probe starts a new call.
pub goroutine_alone-released :
    (e : HealthCheckExecution) (c : ℕ) (outcome : CheckOutcome) (fn : ℕ) (timeout : Duration)
    → Reach new_execution e
    → c < e.next
    → in_flight (e.calls c).stage ≡ true
    → Reach new_execution (goroutine_alone (steps_left (e.calls c).stage) c outcome e)
      × (((goroutine_alone (steps_left (e.calls c).stage) c outcome e).calls c).stage ≡ released)
      × (((goroutine_alone (steps_left (e.calls c).stage) c outcome e).calls c).done ≡ true)
      × (((goroutine_alone (steps_left (e.calls c).stage) c outcome e).calls c).ctx_err ≢ none)
      × ((goroutine_alone (steps_left (e.calls c).stage) c outcome e).current ≡ none)
      × ((start_or_join fn timeout (goroutine_alone (steps_left (e.calls c).stage) c outcome e)).1
          ≡ e.next)
unfolding start_or_join
goroutine_alone-released e c outcome fn timeout r h flying =
    let again = goroutine_alone-Reach (steps_left (e.calls c).stage) c outcome e r h in
    let v = Reach-IsValid new_execution-IsValid again in
    let left = goroutine_alone-left (steps_left (e.calls c).stage) c outcome e in
    let ended =
      no_steps_left ((goroutine_alone (steps_left (e.calls c).stage) c outcome e).calls c).stage
        (omega (arith, left)) in
    let bound : c < (goroutine_alone (steps_left (e.calls c).stage) c outcome e).next =
      omega (arith, left.1, h) in
    let idle =
      released-idle e _ c flying r h
        (goroutine_alone-current (steps_left (e.calls c).stage) c outcome e) v ended in
    (
      again,
      ended,
      rw ended at ((v.calls_valid c bound).done_closed),
      Reach-Canceled again c bound ended,
      idle,
      rw idle (left.1),
    )
