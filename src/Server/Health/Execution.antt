-- ===== src/Server/Health/Execution.antt =====
-- healthCheckExecution and healthCheckCall of go/server/health.go: one execution object is shared by
-- all probes of an entry. `calls` is the store of its call objects, a pointer to one is its number.
use Prim.Native.String
use dense_cloud.Prelude.{
  ◌==◌, if◌then◌else◌, pos, ℕ, suc, ◌<◌, String, ◌≡◌, ◌≢◌, Bool, true, false, Option, none, some,
}
use dense_cloud.Golang.Errors.{
  Err, canceled, deadline_exceeded, text, timed_out, is_deadline_exceeded,
}
use dense_cloud.Golang.Contexts.{Duration}

-- What the check function does: it returns an error or nil, or it panics with a value.
pub data CheckOutcome : Type 0 where
  returned : Option Err → CheckOutcome
  panicked : String → CheckOutcome

-- How far the goroutine of a call has come: in the check function, then behind each statement of
-- its deferred function.
pub data Stage : Type 0 where
  checking stored closed finished released : Stage

-- `fn` names the check function. `ctx_err` is call.ctx.Err(), `done` whether the channel is closed.
pub record HealthCheckCall : Type 0 where
  pub fn : ℕ
  pub timeout : Duration
  pub stage : Stage
  pub ctx_err : Option Err
  pub done : Bool
  pub err : Option Err

pub record HealthCheckExecution : Type 0 where
  pub current : Option ℕ
  pub calls : ℕ → HealthCheckCall
  pub next : ℕ

abbrev pub update {ℓ} : {A : Type ℓ} → (ℕ → A) → ℕ → A → ℕ → A
update f c v k = if c == k then v else f k

abbrev pub new_call : ℕ → Duration → HealthCheckCall
new_call fn timeout = record {
  fn = fn;
  timeout = timeout;
  stage = checking;
  ctx_err = none;
  done = false;
  err = none;
}

abbrev no_call : HealthCheckCall
no_call = new_call 0 (pos 0)

unfoldable pub new_execution : HealthCheckExecution
new_execution = record { current = none; calls = λ _. no_call; next = 0 }

-- Under the lock of the execution.
unfoldable pub start_or_join : ℕ → Duration → HealthCheckExecution → HealthCheckExecution × ℕ
start_or_join fn timeout e = elim e.current [
  | some call ↦ (e, call)
  | none ↦ (
    record e {
      current = some e.next;
      calls = update e.calls e.next (new_call fn timeout);
      next = suc e.next;
    },
    e.next,
  )
]

abbrev pub check_error : CheckOutcome → Option Err
check_error (returned err) = err
check_error (panicked value) = some (text (String.◌++◌ "health check panicked: " value))

-- call.err = checkErr
unfoldable pub store_result : ℕ → CheckOutcome → HealthCheckExecution → HealthCheckExecution
store_result c outcome e = record e {
  calls = update e.calls c (record (e.calls c) { stage = stored; err = check_error outcome });
}

-- close(call.done)
unfoldable pub close_done : ℕ → HealthCheckExecution → HealthCheckExecution
close_done c e = record e {
  calls = update e.calls c (record (e.calls c) { stage = closed; done = true });
}

-- `e.current == call`
abbrev is_current : Option ℕ → ℕ → Bool
is_current none c = false
is_current (some d) c = d == c

-- e.finish(call), under the lock of the execution
unfoldable pub finish : ℕ → HealthCheckExecution → HealthCheckExecution
finish c e = record e {
  current = if is_current e.current c then none else e.current;
  calls = update e.calls c (record (e.calls c) { stage = finished });
}

-- A context keeps its first error.
abbrev pub end_context : Option Err → Err → Option Err
end_context none err = some err
end_context (some old) err = some old

-- call.cancel()
unfoldable pub cancel_call : ℕ → HealthCheckExecution → HealthCheckExecution
cancel_call c e = record e {
  calls =
      update e.calls c (record (e.calls c) {
        stage = released;
        ctx_err = end_context (e.calls c).ctx_err canceled;
      });
}

-- The deadline of the call's context passes.
unfoldable pub expire_call : ℕ → HealthCheckExecution → HealthCheckExecution
expire_call c e = record e {
  calls =
      update e.calls c
        (record (e.calls c) { ctx_err = end_context (e.calls c).ctx_err deadline_exceeded });
}

-- One step of a probe, of a call's goroutine or of the clock, in any order.
pub data Step (e : HealthCheckExecution) : HealthCheckExecution → Type 0 where
  probe : (fn : ℕ) (timeout : Duration) → Step e (start_or_join fn timeout e).0
  return :
      (c : ℕ) (outcome : CheckOutcome)
      → c < e.next
      → (e.calls c).stage ≡ checking
      → Step e (store_result c outcome e)
  close : (c : ℕ) → c < e.next → (e.calls c).stage ≡ stored → Step e (close_done c e)
  leave : (c : ℕ) → c < e.next → (e.calls c).stage ≡ closed → Step e (finish c e)
  cancel : (c : ℕ) → c < e.next → (e.calls c).stage ≡ finished → Step e (cancel_call c e)
  expire : (c : ℕ) → c < e.next → Step e (expire_call c e)

pub data Reach (e : HealthCheckExecution) : HealthCheckExecution → Type 0 where
  here : Reach e e
  step : {f g : HealthCheckExecution} → Reach e f → Step f g → Reach e g

-- Which case of the select in runCheck is taken, with ctx.Err() where the request has ended.
pub data Wake : Type 0 where
  call_done ctx_done call_ctx_done : Wake

-- A case can be taken when its channel is closed.
abbrev pub IsReady : HealthCheckCall → Option Err → Wake → Type 0
IsReady call ctx_err call_done = call.done ≡ true
IsReady call ctx_err ctx_done = ctx_err ≢ none
IsReady call ctx_err call_ctx_done = call.ctx_err ≢ none

-- call.ctx.Err() == context.DeadlineExceeded
abbrev pub is_deadline : Option Err → Bool
is_deadline (some deadline_exceeded) = true
is_deadline _ = false

unfoldable pub normalize_health_check_call_error : HealthCheckCall → Option Err
unfolding is_deadline_exceeded
normalize_health_check_call_error call =
    if is_deadline call.ctx_err then some (timed_out call.timeout) else elim call.err [
      | none ↦ none
      | some err ↦ some (if is_deadline_exceeded err then timed_out call.timeout else err)
    ]

-- errors.Is(call.ctx.Err(), context.DeadlineExceeded), and the return behind it
call_ctx_error : HealthCheckCall → Option Err
unfolding is_deadline_exceeded
call_ctx_error call = elim call.ctx_err [
  | none ↦ none
  | some err ↦ if is_deadline_exceeded err then some (timed_out call.timeout) else some err
]

-- The select of runCheck: the call and ctx.Err() at the moment when it wakes.
unfoldable pub select_result : HealthCheckCall → Option Err → Wake → Option Err
unfolding normalize_health_check_call_error call_ctx_error
select_result call ctx_err call_done = normalize_health_check_call_error call
select_result call ctx_err ctx_done = ctx_err
select_result call ctx_err call_ctx_done =
    if call.done
    then normalize_health_check_call_error call
    else elim ctx_err [ some err ↦ some err | none ↦ call_ctx_error call ]
