-- ===== src/Server/Health/Stores.antt =====
-- How the executions of go/server/health.go move while a probe runs its checks.
use dense_cloud.Prelude.{
  ◌==◌, ==_iff, Bool-cases, Option-cases, ℕ, ◌≤◌, ◌<◌, ◌≡◌, refl, sym, ◌∙◌, inl, inr, Option, none,
  some, arith,
}
use dense_cloud.Server.Health.SingleFlight.{
  IsValid, Step-IsValid, Reach-IsValid, Observed, IsReport,
}
use dense_cloud.Server.Health.Execution.{
  HealthCheckCall, HealthCheckExecution, start_or_join, store_result, close_done, finish,
  cancel_call, expire_call, Step, probe, return, close, leave, cancel, expire, Reach, here, step,
  IsReady,
}
use dense_cloud.Server.Health.Evaluate.{Executions, Scheduler, join_execution}
use dense_cloud.Golang.Errors.{Err}
use dense_cloud.Golang.Contexts.{Context, Duration}

-- A scheduler lets each execution move on by its own steps, and wakes the probe on a ready case.
pub record IsSound (scheduler : Scheduler) : Type 0 where
  pub moves :
      (ctx : Context) (executions : Executions) (k c j : ℕ)
      → Reach (executions j) ((scheduler ctx executions k c).executions j)
  pub ready :
      (ctx : Context) (executions : Executions) (k c : ℕ)
      → let woken = scheduler ctx executions k c in
        IsReady ((woken.executions k).calls c) woken.ctx_err woken.wake

abbrev pub AllValid : Executions → Type 0
AllValid executions = (k : ℕ) → IsValid (executions k)

start_or_join-IsValid :
    (fn : ℕ) (timeout : Duration) (e : HealthCheckExecution)
    → IsValid e
    → IsValid (start_or_join fn timeout e).0
      × ((start_or_join fn timeout e).1 < (start_or_join fn timeout e).0.next)
unfolding start_or_join
start_or_join-IsValid fn timeout e v = (
  Step-IsValid (probe fn timeout) v,
  elim (Option-cases e.current) [
    | inl idle ↦ ground arith
    | inr (c, busy) ↦ ground (arith, v.current_live c busy)
  ],
)

Step-next : {e f : HealthCheckExecution} → Step e f → e.next ≤ f.next
unfolding start_or_join store_result close_done finish cancel_call expire_call
Step-next {e} (probe fn timeout) = ground (arith, Option-cases e.current)
Step-next (return c o p q) = omega arith
Step-next (close c p q) = omega arith
Step-next (leave c p q) = omega arith
Step-next (cancel c p q) = omega arith
Step-next (expire c p) = omega arith

pub Reach-next : {e f : HealthCheckExecution} → Reach e f → e.next ≤ f.next
Reach-next here = omega arith
Reach-next (step r s) = omega (arith, Reach-next r, Step-next s)

pub Reach-trans : {e f g : HealthCheckExecution} → Reach e f → Reach f g → Reach e g
Reach-trans r here = r
Reach-trans r (step s x) = step (Reach-trans r s) x

abbrev pub AllReach : Executions → Executions → Type 0
AllReach before after = (j : ℕ) → Reach (before j) (after j)

pub AllReach-AllValid :
    {before after : Executions} → AllReach before after → AllValid before → AllValid after
AllReach-AllValid r v j = Reach-IsValid (v j) (r j)

pub join_execution-AllReach :
    (fn k : ℕ) (timeout : Duration) (executions : Executions)
    → AllReach executions (join_execution fn k timeout executions).0
unfolding join_execution
join_execution-AllReach fn k timeout executions j = elim (Bool-cases (k == j)) [
  | inl same ↦ let e : k ≡ j = (==_iff k j).0 same in rw (same, e) (step here (probe fn timeout))
  | inr other ↦ rw other here
]

pub IsReport-Observed :
    (call : HealthCheckCall) (ctx_err : Option Err) {result : Option Err}
    → IsReport call ctx_err result
    → result ≡ none
    → Observed call
IsReport-Observed call ctx_err (inl (p, o)) h = o
IsReport-Observed call ctx_err (inr (inl (p, ne))) h = absurd (ne (sym p ∙ h))
IsReport-Observed call ctx_err (inr (inr (inl (p, o)))) h = cc
IsReport-Observed call ctx_err (inr (inr (inr (err, p, q, o)))) h = cc

pub join_execution-next :
    (fn k : ℕ) (timeout : Duration) (executions : Executions)
    → AllValid executions
    → (join_execution fn k timeout executions).1
      < ((join_execution fn k timeout executions).0 k).next
unfolding join_execution
join_execution-next fn k timeout executions v =
    rw ((==_iff k k).1 refl) (start_or_join-IsValid fn timeout (executions k) (v k)).1

abbrev pub fn_or_zero : Option ℕ → ℕ
fn_or_zero fn = elim fn [ none ↦ 0 | some f ↦ f ]
