-- ===== src/Server/Health/SingleFlight.antt =====
-- What the shared execution of go/server/health.go guarantees in every interleaving of probes,
-- goroutines and deadlines.
use dense_cloud.Prelude.{
  Bool-cases, Option-cases, ℕ, ◌<◌, ◌≡◌, refl, subst, ◌≢◌, ◌⊎◌, inl, inr, Bool, true, false, Option,
  none, some, arith,
}
use dense_cloud.Golang.Errors.{Err, deadline_exceeded, timed_out, is_deadline_exceeded}
use dense_cloud.Golang.Contexts.{Duration}
use dense_cloud.Server.Health.Execution.{
  Stage, checking, stored, closed, finished, released, HealthCheckCall, HealthCheckExecution,
  new_execution, start_or_join, store_result, close_done, finish, cancel_call, expire_call, Step,
  probe, return, close, leave, cancel, expire, Reach, here, step, Wake, call_done, ctx_done,
  call_ctx_done, IsReady, is_deadline, normalize_health_check_call_error, select_result,
}

-- The goroutine has not yet left the execution.
abbrev pub in_flight : Stage → Bool
in_flight checking = true
in_flight stored = true
in_flight closed = true
in_flight finished = false
in_flight released = false

abbrev is_closed : Stage → Bool
is_closed checking = false
is_closed stored = false
is_closed _ = true

abbrev is_released : Stage → Bool
is_released released = true
is_released _ = false

abbrev pub ctx_canceled : Option Err → Bool
ctx_canceled (some deadline_exceeded) = false
ctx_canceled (some _) = true
ctx_canceled none = false

pub record CallIsValid (call : HealthCheckCall) : Type 0 where
  pub done_closed : call.done ≡ is_closed call.stage
  pub canceled_released : ctx_canceled call.ctx_err ≡ true → call.stage ≡ released

pub record IsValid (e : HealthCheckExecution) : Type 0 where
  pub current_live :
      (c : ℕ) → e.current ≡ some c → (c < e.next) × (in_flight (e.calls c).stage ≡ true)
  pub sole : (c : ℕ) → c < e.next → in_flight (e.calls c).stage ≡ true → e.current ≡ some c
  pub calls_valid : (c : ℕ) → c < e.next → CallIsValid (e.calls c)

pub new_execution-IsValid : IsValid new_execution
unfolding new_execution
new_execution-IsValid = record {
  current_live = λ c h. cc;
  sole = λ c h. absurd (omega arith);
  calls_valid = λ c h. absurd (omega arith);
}

Step-current_live :
    {e f : HealthCheckExecution}
    → IsValid e
    → Step e f
    → (c : ℕ) → f.current ≡ some c
    → (c < f.next) × (in_flight (f.calls c).stage ≡ true)
unfolding start_or_join store_result close_done finish cancel_call expire_call
Step-current_live {e} v (probe fn timeout) c h =
    ground (arith, v.current_live c, Option-cases e.current)
Step-current_live v (return d o p q) c h = ground (arith, v.current_live c)
Step-current_live v (close d p q) c h = ground (arith, v.current_live c)
Step-current_live v (leave d p q) c h = ground (arith, v.current_live c, v.sole d)
Step-current_live v (cancel d p q) c h = ground (arith, v.current_live c)
Step-current_live v (expire d p) c h = ground (arith, v.current_live c)

Step-sole :
    {e f : HealthCheckExecution}
    → IsValid e
    → Step e f
    → (c : ℕ) → c < f.next
    → in_flight (f.calls c).stage ≡ true
    → f.current ≡ some c
unfolding start_or_join store_result close_done finish cancel_call expire_call
Step-sole {e} v (probe fn timeout) c h s = ground (arith, v.sole c, Option-cases e.current)
Step-sole v (return d o p q) c h s = ground (arith, v.sole c, v.sole d)
Step-sole v (close d p q) c h s = ground (arith, v.sole c, v.sole d)
Step-sole v (leave d p q) c h s = ground (arith, v.sole c, v.sole d)
Step-sole v (cancel d p q) c h s = ground (arith, v.sole c, v.sole d)
Step-sole v (expire d p) c h s = ground (arith, v.sole c, v.sole d)

Step-calls_valid :
    {e f : HealthCheckExecution}
    → IsValid e
    → Step e f
    → (c : ℕ) → c < f.next
    → CallIsValid (f.calls c)
unfolding start_or_join store_result close_done finish cancel_call expire_call
Step-calls_valid {e} v (probe fn timeout) c h =
    ground (arith, v.calls_valid c, Option-cases e.current)
Step-calls_valid v (return d o p q) c h = ground (arith, v.calls_valid c, v.calls_valid d)
Step-calls_valid v (close d p q) c h = ground (arith, v.calls_valid c, v.calls_valid d)
Step-calls_valid v (leave d p q) c h = ground (arith, v.calls_valid c, v.calls_valid d)
Step-calls_valid v (cancel d p q) c h = ground (arith, v.calls_valid c, v.calls_valid d)
Step-calls_valid v (expire d p) c h = ground (arith, v.calls_valid c, v.calls_valid d)

pub Step-IsValid : {e f : HealthCheckExecution} → Step e f → IsValid e → IsValid f
Step-IsValid s v = record {
  current_live = Step-current_live v s;
  sole = Step-sole v s;
  calls_valid = Step-calls_valid v s;
}

pub Reach-IsValid : {e f : HealthCheckExecution} → IsValid e → Reach e f → IsValid f
Reach-IsValid v here = v
Reach-IsValid v (step r s) = Step-IsValid s (Reach-IsValid v r)

-- In every reachable state of an execution two calls whose goroutines have not yet left the
-- execution are the same call: a check never runs twice at a time, however many probes arrive.
pub single_flight :
    (e : HealthCheckExecution) (c d : ℕ)
    → Reach new_execution e
    → c < e.next
    → d < e.next
    → in_flight (e.calls c).stage ≡ true
    → in_flight (e.calls d).stage ≡ true
    → c ≡ d
single_flight e c d r hc hd lc ld =
    let v = Reach-IsValid new_execution-IsValid r in ground (arith, v.sole c hc lc, v.sole d hd ld)

-- In every reachable state a probe joins the call in flight, where there is one, and leaves the
-- execution as it is; otherwise it starts a new call of its own function and timeout, in which
-- nothing has happened yet.
pub start_or_join_cases :
    (e : HealthCheckExecution) (fn : ℕ) (timeout : Duration)
    → Reach new_execution e
    → ((c : ℕ) × (c < e.next)
        × (in_flight (e.calls c).stage ≡ true)
        × (start_or_join fn timeout e ≡ (e, c)))
      ⊎ (((c : ℕ) → c < e.next → in_flight (e.calls c).stage ≡ false)
          × ((start_or_join fn timeout e).1 ≡ e.next)
          × (((start_or_join fn timeout e).0.calls e.next).fn ≡ fn)
          × (((start_or_join fn timeout e).0.calls e.next).timeout ≡ timeout)
          × (((start_or_join fn timeout e).0.calls e.next).done ≡ false)
          × (((start_or_join fn timeout e).0.calls e.next).ctx_err ≡ none))
unfolding start_or_join
start_or_join_cases e fn timeout r =
    let v = Reach-IsValid new_execution-IsValid r in
    elim (Option-cases e.current) [
      | inl idle ↦ inr (
        λ c h. ground (arith, v.sole c h),
        rw (idle, start_or_join),
        rw (idle, start_or_join) (ground arith),
        rw (idle, start_or_join) (ground arith),
        rw (idle, start_or_join) (ground arith),
        rw (idle, start_or_join) (ground arith),
      )
      | inr (c, busy) ↦ inl (c, (v.current_live c busy).0, (v.current_live c busy).1, ground arith)
    ]

-- A call that a probe may report as healthy.
abbrev pub Observed : HealthCheckCall → Type 0
Observed call = (call.done ≡ true) × (call.err ≡ none) × (call.ctx_err ≢ some deadline_exceeded)

-- What a probe may report: health; the end of its own request; a timeout, where the deadline of the
-- call has passed or the check itself gave up on a deadline; or the error of the check.
abbrev pub IsReport : HealthCheckCall → Option Err → Option Err → Type 0
IsReport call ctx_err result =
    ((result ≡ none) × Observed call)
    ⊎ ((result ≡ ctx_err) × (ctx_err ≢ none))
    ⊎ ((result ≡ some (timed_out call.timeout))
        × ((call.ctx_err ≡ some deadline_exceeded)
            ⊎ ((err : Err) × (call.err ≡ some err) × (is_deadline_exceeded err ≡ true))))
    ⊎ ((err : Err) × (result ≡ some err) × (call.err ≡ some err) × (call.done ≡ true))

is_deadline→eq : (o : Option Err) → is_deadline o ≡ true → o ≡ some deadline_exceeded
is_deadline→eq none h = cc
is_deadline→eq (some deadline_exceeded) h = refl
is_deadline→eq (some e) h = cc

is_deadline→ne : (o : Option Err) → is_deadline o ≡ false → o ≢ some deadline_exceeded
is_deadline→ne o h e = let h' : is_deadline (some deadline_exceeded) ≡ false = rw e at h in cc

normalize-IsReport :
    (call : HealthCheckCall) (ctx_err : Option Err)
    → call.done ≡ true
    → IsReport call ctx_err (normalize_health_check_call_error call)
unfolding normalize_health_check_call_error
normalize-IsReport call ctx_err h = elim (Bool-cases (is_deadline call.ctx_err)) [
  | inl late ↦ inr (inr (inl (ground arith, inl (is_deadline→eq _ late))))
  | inr early ↦ elim (Option-cases call.err) [
    | inl fine ↦ inl (ground arith, (h, fine, is_deadline→ne _ early))
    | inr (err, failed) ↦ elim (Bool-cases (is_deadline_exceeded err)) [
      | inl gave_up ↦ inr (inr (inl (ground arith, inr (err, failed, gave_up))))
      | inr other ↦ inr (inr (inr (err, ground arith, failed, h)))
    ]
  ]
]

-- Only the deadline ends the context of a call whose channel is still open.
live_deadline :
    (call : HealthCheckCall)
    → CallIsValid call
    → call.ctx_err ≢ none
    → call.done ≡ false
    → call.ctx_err ≡ some deadline_exceeded
live_deadline call v ended pending = elim (Bool-cases (ctx_canceled call.ctx_err)) [
  | inl by_cancel ↦ ground (arith, v.canceled_released by_cancel)
  | inr by_clock ↦ not_canceled call.ctx_err ended by_clock
]
  where
    not_canceled : (o : Option Err) → o ≢ none → ctx_canceled o ≡ false → o ≡ some deadline_exceeded
    not_canceled none p q = absurd (p refl)
    not_canceled (some deadline_exceeded) p q = refl
    not_canceled (some e) p q = cc

pub select_result-IsReport :
    (call : HealthCheckCall) (ctx_err : Option Err) (wake : Wake)
    → CallIsValid call
    → IsReady call ctx_err wake
    → IsReport call ctx_err (select_result call ctx_err wake)
unfolding select_result
select_result-IsReport call ctx_err call_done v ready = normalize-IsReport call ctx_err ready
select_result-IsReport call ctx_err ctx_done v ready = inr (inl (refl, ready))
select_result-IsReport call ctx_err call_ctx_done v ready = elim (Bool-cases call.done) [
  | inl done ↦ subst (IsReport call ctx_err) (ground arith) (normalize-IsReport call ctx_err done)
  | inr pending ↦ elim (Option-cases ctx_err) [
    | inr (err, ended) ↦ inr (inl (ground arith, λ e. cc))
    | inl live ↦
        let late = live_deadline call v ready pending in inr (inr (inl (ground arith, inl late)))
  ]
]

-- In every reachable state of an execution, and whichever of its ready cases the select of a probe
-- takes, the probe reports health only of a call whose check has returned nil before its deadline;
-- any other result is the end of the request, a timeout that did happen, or the error of the check.
pub select_result_sound :
    (e : HealthCheckExecution) (c : ℕ) (ctx_err : Option Err) (wake : Wake)
    → Reach new_execution e
    → c < e.next
    → IsReady (e.calls c) ctx_err wake
    → IsReport (e.calls c) ctx_err (select_result (e.calls c) ctx_err wake)
select_result_sound e c ctx_err wake r h ready =
    let v = Reach-IsValid new_execution-IsValid r in
    select_result-IsReport (e.calls c) ctx_err wake (v.calls_valid c h) ready
