-- ===== src/Server/Health/Invariant.antt =====
-- What every registry of go/server/health.go satisfies, whatever calls are made on it.
use dense_cloud.Golang.Contexts.{Duration}
use dense_cloud.Prelude.{
  str_eq, Bool-cases, is_some, All, All-append, ℕ, suc, ◌≤◌, ◌<◌, String, ◌≡◌, refl, inl, inr, Bool,
  true, false, ◌||◌, Option, none, some, List, [], ◌∷◌, arith,
}
use dense_cloud.Server.Health.Registry.{
  phase_live, phase_ready, phase_startup, HealthCheckEntry, HealthRegistry, is_positive,
  with_health_check_timeout, apply_options, new_health_registry, mark_started, mark_shutting_down,
  set_health_check_timeout, Target, live, ready, start, checks_of, register, register_liveness,
  register_readiness, register_startup, register_phase, register_phases, or_ready, register_check,
  register_dependency,
}
use dense_cloud.Server.Health.Registration.{
  is_target, when_list, register-checks, register-Kept, register_phase-Kept, new_entry, allocate,
  allocate-checks,
}

-- A registered entry can be run: it has a name, a function and an allocated execution object.
pub record EntryIsValid (bound : ℕ) (entry : HealthCheckEntry) : Type 0 where
  pub named : str_eq entry.name "" ≡ false
  pub has_fn : is_some entry.fn ≡ true
  pub has_execution : (k : ℕ) × (entry.execution ≡ some k) × (k < bound)

pub record IsValid (r : HealthRegistry) : Type 0 where
  pub entries : (t : Target) → All (EntryIsValid r.next_execution) (checks_of t r)
  pub timeout : is_positive r.check_timeout ≡ true

EntryIsValid-mono :
    {m n : ℕ} (entries : List HealthCheckEntry)
    → m ≤ n
    → All (EntryIsValid m) entries
    → All (EntryIsValid n) entries
EntryIsValid-mono [] h v = tt
EntryIsValid-mono (entry ∷ entries) h (v, vs) = (
  record {
    named = v.named;
    has_fn = v.has_fn;
    has_execution = (v.has_execution.0, v.has_execution.1, omega (arith, v.has_execution.2));
  },
  EntryIsValid-mono entries h vs,
)

All-when_list :
    {n : ℕ} (b : Bool) (entry : HealthCheckEntry)
    → EntryIsValid n entry
    → All (EntryIsValid n) (when_list b entry)
All-when_list true entry v = (v, tt)
All-when_list false entry v = tt

register-IsValid :
    (target : Target) (entry : HealthCheckEntry) (r : HealthRegistry)
    → EntryIsValid r.next_execution entry
    → IsValid r
    → IsValid (register target entry r)
register-IsValid target entry r e v = record {
  entries = λ t.
      rw (register-checks target t entry r (e.named, e.has_fn), (register-Kept target entry r).1)
        (All-append (EntryIsValid r.next_execution) (checks_of t r) _ (v.entries t)
          (All-when_list (is_target target t) entry e));
  timeout = rw ((register-Kept target entry r).0.0) v.timeout;
}

allocate-IsValid : (r : HealthRegistry) → IsValid r → IsValid (allocate r)
allocate-IsValid r v = record {
  entries =
      λ t. rw (allocate-checks t r) (EntryIsValid-mono (checks_of t r) (omega arith) (v.entries t));
  timeout = v.timeout;
}

register_phase-IsValid :
    (phase : String) (entry : HealthCheckEntry) (r : HealthRegistry)
    → EntryIsValid r.next_execution entry
    → IsValid r
    → IsValid (register_phase phase entry r)
unfolding register_phase
register_phase-IsValid phase entry r e v = elim (Bool-cases (str_eq phase phase_live)) [
  | inl h ↦ rw h (register-IsValid live entry r e v)
  | inr h ↦ rw h (elim (Bool-cases (str_eq phase phase_ready)) [
    | inl k ↦ rw k (register-IsValid ready entry r e v)
    | inr k ↦ rw k (elim (Bool-cases (str_eq phase phase_startup)) [
      | inl l ↦ rw l (register-IsValid start entry r e v)
      | inr l ↦ rw l v
    ])
  ])
]

-- The calls that change a registry.
pub data Op : Type 0 where
  liveness_op readiness_op startup_op : String → Option ℕ → Op
  check_op dependency_op : String → Option ℕ → List String → Op
  timeout_op : Duration → Op
  started_op shutting_down_op : Op

unfoldable pub apply_op : Op → HealthRegistry → HealthRegistry
apply_op (liveness_op name fn) r = register_liveness name fn r
apply_op (readiness_op name fn) r = register_readiness name fn r
apply_op (startup_op name fn) r = register_startup name fn r
apply_op (check_op name fn phases) r = register_check name fn phases r
apply_op (dependency_op name fn phases) r = register_dependency name fn phases r
apply_op (timeout_op timeout) r = set_health_check_timeout timeout r
apply_op started_op r = mark_started r
apply_op shutting_down_op r = mark_shutting_down r

unfoldable pub apply_ops : List Op → HealthRegistry → HealthRegistry
apply_ops [] r = r
apply_ops (op ∷ ops) r = apply_ops ops (apply_op op r)

register_phases-IsValid :
    (phases : List String) (entry : HealthCheckEntry) (r : HealthRegistry)
    → EntryIsValid r.next_execution entry
    → IsValid r
    → IsValid (register_phases phases entry r)
unfolding register_phases
register_phases-IsValid [] entry r e v = v
register_phases-IsValid (phase ∷ phases) entry r e v =
    register_phases-IsValid phases entry (register_phase phase entry r)
      (rw ((register_phase-Kept phase entry r).1) e) (register_phase-IsValid phase entry r e v)

new_entry-IsValid :
    (name : String) (fn : ℕ) (r : HealthRegistry)
    → str_eq name "" ≡ false
    → EntryIsValid (suc r.next_execution) (new_entry name fn r)
new_entry-IsValid name fn r h = record {
  named = h;
  has_fn = refl;
  has_execution = (r.next_execution, refl, omega arith);
}

register_new-IsValid :
    (target : Target) (name : String) (fn : Option ℕ) (r : HealthRegistry)
    → IsValid r
    → IsValid (
        register target
          (record { name = name; fn = fn; execution = some r.next_execution })
          (allocate r))
unfolding register
register_new-IsValid target name none r v = rw (rejected name) (allocate-IsValid r v)
  where
    rejected : (name : String) → (str_eq name "" || true) ≡ true
    rejected name = ground arith
register_new-IsValid target name (some fn) r v = elim (Bool-cases (str_eq name "")) [
  | inl h ↦ rw h (allocate-IsValid r v)
  | inr h ↦
      register-IsValid target (new_entry name fn r) (allocate r) (new_entry-IsValid name fn r h)
        (allocate-IsValid r v)
]

register_check-IsValid :
    (name : String) (fn : Option ℕ) (phases : List String) (r : HealthRegistry)
    → IsValid r
    → IsValid (register_check name fn phases r)
unfolding register_check
register_check-IsValid name none phases r v = v
register_check-IsValid name (some fn) phases r v = elim (Bool-cases (str_eq name "")) [
  | inl h ↦ rw h v
  | inr h ↦ rw h (
      register_phases-IsValid (or_ready phases) (new_entry name fn r) (allocate r)
        (new_entry-IsValid name fn r h) (allocate-IsValid r v))
]

apply_op-IsValid : (op : Op) (r : HealthRegistry) → IsValid r → IsValid (apply_op op r)
unfolding apply_op register_liveness register_readiness register_startup register_dependency
    set_health_check_timeout mark_started mark_shutting_down
apply_op-IsValid (liveness_op name fn) r v = register_new-IsValid live name fn r v
apply_op-IsValid (readiness_op name fn) r v = register_new-IsValid ready name fn r v
apply_op-IsValid (startup_op name fn) r v = register_new-IsValid start name fn r v
apply_op-IsValid (check_op name fn phases) r v = register_check-IsValid name fn phases r v
apply_op-IsValid (dependency_op name none phases) r v = v
apply_op-IsValid (dependency_op name (some fn) phases) r v =
    register_check-IsValid name (some fn) phases r v
apply_op-IsValid (timeout_op timeout) r v = elim (Bool-cases (is_positive timeout)) [
  | inl h ↦ rw h (record {
    entries = elim [ live ↦ v.entries live | ready ↦ v.entries ready | start ↦ v.entries start ];
    timeout = h;
  })
  | inr h ↦ rw h v
]
apply_op-IsValid started_op r v = record {
  entries = elim [ live ↦ v.entries live | ready ↦ v.entries ready | start ↦ v.entries start ];
  timeout = v.timeout;
}
apply_op-IsValid shutting_down_op r v = record {
  entries = elim [ live ↦ v.entries live | ready ↦ v.entries ready | start ↦ v.entries start ];
  timeout = v.timeout;
}

apply_ops-IsValid : (ops : List Op) (r : HealthRegistry) → IsValid r → IsValid (apply_ops ops r)
unfolding apply_ops
apply_ops-IsValid [] r v = v
apply_ops-IsValid (op ∷ ops) r v = apply_ops-IsValid ops (apply_op op r) (apply_op-IsValid op r v)

-- The options of a new registry: nil, or a timeout.
abbrev pub timeout_options :
    List (Option Duration) → List (Option (HealthRegistry → HealthRegistry))
timeout_options [] = []
timeout_options (none ∷ options) = none ∷ timeout_options options
timeout_options (some d ∷ options) = some (with_health_check_timeout d) ∷ timeout_options options

apply_options-IsValid :
    (options : List (Option Duration)) (r : HealthRegistry)
    → IsValid r
    → IsValid (apply_options (timeout_options options) r)
unfolding apply_options with_health_check_timeout apply_op set_health_check_timeout
apply_options-IsValid [] r v = v
apply_options-IsValid (none ∷ options) r v = apply_options-IsValid options r v
apply_options-IsValid (some d ∷ options) r v =
    apply_options-IsValid options _ (apply_op-IsValid (timeout_op d) r v)

-- After any sequence of registrations, timeout changes and lifecycle marks on a new registry, each
-- registered entry has a name, a function and an allocated execution object, so that it can be run,
-- and the timeout of the checks is positive.
pub apply_ops-new_health_registry-IsValid :
    (options : List (Option Duration)) (ops : List Op)
    → IsValid (apply_ops ops (new_health_registry (timeout_options options)))
unfolding new_health_registry
apply_ops-new_health_registry-IsValid options ops = apply_ops-IsValid ops _ (
    apply_options-IsValid options _
      (record { entries = elim [ live ↦ tt | ready ↦ tt | start ↦ tt ]; timeout = refl }))
