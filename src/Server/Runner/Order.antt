-- ===== src/Server/Runner/Order.antt =====
-- What Runner.Shutdown of go/server/runner.go does, as one list of actions.
use dense_cloud.Golang.Errors.{Err}
use dense_cloud.Prelude.{◌≡◌, refl, sym, ap, ◌∙◌, Option, none, some, List, [], ◌∷◌, ◌++◌}
use dense_cloud.Golang.Contexts.{Context}
use dense_cloud.Server.Hooks.{
  Action, first_error, head_error, present, final_state, errors, outcome, outcome-append,
  outcome-cons, run_shutdown_hooks-outcome,
}
use dense_cloud.Server.Runner.Defs.{
  GrpcServer, shutdown, Runner, shutdown_http, shutdown_grpc, enabled_grpc, and_then, stop_grpc,
}

first_error-none : (first : Option Err) → first_error first none ≡ first
first_error-none none = refl
first_error-none (some error) = refl

module _ {W : Type 0} where
  abbrev pub grpc_actions : Option (GrpcServer W) → List (Action W)
  grpc_actions none = []
  grpc_actions (some grpc) = shutdown_grpc grpc ∷ []

  -- The pre-shutdown hooks, the HTTP server, the enabled gRPC server, and the shutdown hooks.
  abbrev pub shutdown_actions : Runner W → List (Action W)
  shutdown_actions r =
      present r.opts.pre_shutdown_hooks
      ++ shutdown_http r.http
        ∷ (grpc_actions (enabled_grpc r.opts) ++ present r.opts.shutdown_hooks)

  and_then-outcome :
      (action : Action W) (ctx : Context) (s : W × Option Err)
      → and_then action ctx s ≡ outcome s.1 (action ∷ []) ctx s.0
  and_then-outcome action ctx (w, first) = sym (
      outcome-cons action [] ctx w first
      ∙ ap (λ e. ((action ctx w).0, e)) (first_error-none (first_error first (action ctx w).1)))

  stop_grpc-outcome :
      (grpc : Option (GrpcServer W)) (ctx : Context) (s : W × Option Err)
      → stop_grpc grpc ctx s ≡ outcome s.1 (grpc_actions grpc) ctx s.0
  unfolding stop_grpc
  stop_grpc-outcome none ctx (w, first) = ap (λ e. (w, e)) (sym (first_error-none first))
  stop_grpc-outcome (some grpc) ctx s = and_then-outcome (shutdown_grpc grpc) ctx s

  -- Shutdown runs every action, in the order pre-shutdown hooks, HTTP server, enabled gRPC server,
  -- shutdown hooks, whatever fails; and it returns the first of their errors, where
  -- http.ErrServerClosed counts as none.
  pub shutdown-outcome :
      (r : Runner W) (ctx : Context) (w : W)
      → shutdown r ctx w
        ≡ (final_state (shutdown_actions r) ctx w, head_error (errors (shutdown_actions r) ctx w))
  unfolding shutdown
  shutdown-outcome r ctx w =
      let pre = present r.opts.pre_shutdown_hooks in
      let post = present r.opts.shutdown_hooks in
      let grpc = grpc_actions (enabled_grpc r.opts) in
      simp (run_shutdown_hooks-outcome, stop_grpc-outcome)
        (sym (
          outcome-append none pre (shutdown_http r.http ∷ (grpc ++ post)) ctx w
          ∙ outcome-cons (shutdown_http r.http) (grpc ++ post) ctx _ _
          ∙ outcome-append _ grpc post ctx _))
