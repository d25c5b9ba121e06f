-- ===== src/Server/Runner/Blocking.antt =====
-- How Runner.RunBlocking of go/server/runner.go ends.
use dense_cloud.Prelude.{
  Bool-cases, Option-cases, ◌≡◌, refl, sym, ap, ◌∙◌, ◌≢◌, ◌↔◌, ◌⊎◌, inl, inr, true, Option, none,
  some, List, [], ◌∷◌, arith,
}
use dense_cloud.Golang.Errors.{Err, is_canceled, is_server_closed}
use dense_cloud.Golang.Contexts.{Context, or_background}
use dense_cloud.Server.Hooks.{head_error, run_startup_hooks, final_state, errors}
use dense_cloud.Server.Runner.Order.{shutdown_actions, shutdown-outcome}
use dense_cloud.Server.Runner.Defs.{
  shutdown, Runner, Wakeup, ctx_done, signal, server_exit, unless_closed,
  merge_run_and_shutdown_error, run_error, Await, start_servers, shutdown_context, join_after,
  run_blocking,
}

merge_run_and_shutdown_error-none :
    (run_err shutdown_err : Option Err)
    → (merge_run_and_shutdown_error run_err shutdown_err ≡ none)
      ↔ ((shutdown_err ≡ none) × ((e : Err) → run_err ≡ some e → is_canceled e ≡ true))
unfolding merge_run_and_shutdown_error
merge_run_and_shutdown_error-none none none = (λ h. (refl, λ e k. cc), λ h. refl)
merge_run_and_shutdown_error-none none (some s) = (λ h. cc, λ h. cc h.0)
merge_run_and_shutdown_error-none (some e) none =
    (λ h. (refl, λ e' k. ground arith), λ h. ground (arith, h.1 e refl))
merge_run_and_shutdown_error-none (some e) (some s) = (λ h. ground arith, λ h. cc h.0)

-- The wait ends by a signal, by the cancellation of the context, or with a server that was closed.
abbrev pub IsGraceful : Wakeup → Type 0
IsGraceful (ctx_done e) = is_canceled e ≡ true
IsGraceful signal = Unit
IsGraceful (server_exit none) = Unit
IsGraceful (server_exit (some e)) = (is_server_closed e ≡ true) ⊎ (is_canceled e ≡ true)

run_error-IsGraceful :
    (wakeup : Wakeup)
    → ((e : Err) → run_error wakeup ≡ some e → is_canceled e ≡ true) ↔ IsGraceful wakeup
unfolding run_error
run_error-IsGraceful (ctx_done e) = (λ h. h e refl, λ h e' k. ground arith)
run_error-IsGraceful signal = (λ h. tt, λ h e' k. cc)
run_error-IsGraceful (server_exit none) = (λ h. tt, λ h e' k. cc)
run_error-IsGraceful (server_exit (some e)) = elim (Bool-cases (is_server_closed e)) [
  | inl closed ↦ (λ h. inl closed, λ h e' k. absurd (closed_none e closed e' k))
  | inr other ↦ (λ h. inr (h e (rw other)), λ h e' k. ground arith)
]
  where
    closed_none :
        (e : Err) → is_server_closed e ≡ true → (e' : Err) → unless_closed (some e) ≢ some e'
    closed_none e closed e' k = ground arith

head_error-none : (es : List Err) → (head_error es ≡ none) ↔ (es ≡ [])
head_error-none [] = (λ h. refl, λ h. refl)
head_error-none (e ∷ es) = (λ h. cc, λ h. cc)

module _ {W : Type 0} where
  join_after-state : (e : Err) (s : W × Option Err) → (join_after e s).0 ≡ s.0
  join_after-state e (w, none) = refl
  join_after-state e (w, some s) = refl

  join_after-error : (e : Err) (s : W × Option Err) → (join_after e s).1 ≢ none
  join_after-error e (w, none) h = cc
  join_after-error e (w, some s) h = cc

module _ {W : Type 0} (await : Await W) (r : Runner W) (ctx : Option Context) (w : W) where
  -- The state behind the startup hooks, and the state and the event that end the wait.
  abbrev started : W × Option Err
  started = run_startup_hooks r.opts.startup_hooks (or_background ctx) w

  abbrev woken : W × Wakeup
  woken = await (or_background ctx) (start_servers r started.0)

  run_blocking_failed :
      (e : Err)
      → started.1 ≡ some e
      → run_blocking await r ctx w ≡ join_after e (shutdown r (shutdown_context r) started.0)
  unfolding run_blocking
  run_blocking_failed e h = rw (h, run_blocking)

  run_blocking_served :
      started.1 ≡ none
      → run_blocking await r ctx w ≡ (
        (shutdown r (shutdown_context r) woken.0).0,
        merge_run_and_shutdown_error
            (run_error woken.1)
            (shutdown r (shutdown_context r) woken.0).1,
      )
  unfolding run_blocking
  run_blocking_served h = rw (h, run_blocking)

  -- Whichever way RunBlocking ends, it has run every shutdown action under the shutdown timeout: behind
  -- the startup hooks, the servers not having been started, where one of them fails, and behind the
  -- wait otherwise.
  pub run_blocking-final_state :
      ((started.1 ≢ none)
        × ((run_blocking await r ctx w).0
            ≡ final_state (shutdown_actions r) (shutdown_context r) started.0))
      ⊎ ((started.1 ≡ none)
          × ((run_blocking await r ctx w).0
              ≡ final_state (shutdown_actions r) (shutdown_context r) woken.0))
  run_blocking-final_state = elim (Option-cases started.1) [
    | inl fine ↦ inr (
      fine,
      ap (λ s. s.0) (run_blocking_served fine)
          ∙ ap (λ s. s.0) (shutdown-outcome r (shutdown_context r) woken.0),
    )
    | inr (e, failed) ↦ inl (
      λ none'. cc,
      ap (λ s. s.0) (run_blocking_failed e failed)
          ∙ join_after-state e (shutdown r (shutdown_context r) started.0)
          ∙ ap (λ s. s.0) (shutdown-outcome r (shutdown_context r) started.0),
    )
  ]

  -- RunBlocking returns nil exactly when no startup hook fails, the wait ends gracefully, and no
  -- shutdown action fails.
  pub run_blocking-none : ((run_blocking await r ctx w).1 ≡ none) ↔ (
      (started.1 ≡ none)
      × IsGraceful woken.1
      × (errors (shutdown_actions r) (shutdown_context r) woken.0 ≡ []))
  run_blocking-none = elim (Option-cases started.1) [
    | inl fine ↦
        let merged =
          merge_run_and_shutdown_error-none (run_error woken.1)
            (shutdown r (shutdown_context r) woken.0).1 in
        let ends = run_error-IsGraceful woken.1 in
        let clean = head_error-none (errors (shutdown_actions r) (shutdown_context r) woken.0) in
        let served = ap (λ s. s.1) (run_blocking_served fine) in
        let first = ap (λ s. s.1) (shutdown-outcome r (shutdown_context r) woken.0) in
        (
          λ h. let m = merged.0 (sym served ∙ h) in (fine, ends.0 m.1, clean.0 (sym first ∙ m.0)),
          λ h. served ∙ merged.1 (first ∙ clean.1 h.2, ends.1 h.1),
        )
    | inr (e, failed) ↦ (
      λ h. absurd (join_after-error e _ (sym (ap (λ s. s.1) (run_blocking_failed e failed)) ∙ h)),
      λ h. cc,
    )
  ]
