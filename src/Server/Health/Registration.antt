-- ===== src/Server/Health/Registration.antt =====
-- What the registration of go/server/health.go keeps, and where it puts a check.
use dense_cloud.Prelude.{
  str_eq, if◌then◌else◌, is_some, ℕ, suc, String, ◌≡◌, refl, sym, ap, ◌∙◌, ◌≢◌, Bool, true, false,
  some, List, [], ◌∷◌, ◌++◌, append_assoc, append-nil, arith, eq_iff,
}
use dense_cloud.Server.Health.Registry.{
  phase_live, phase_ready, phase_startup, HealthCheckEntry, HealthRegistry, Target, live, ready,
  start, checks_of, register, register_phase, register_phases, or_ready, register_check,
}

abbrev pub is_target : Target → Target → Bool
is_target live live = true
is_target ready ready = true
is_target start start = true
is_target _ _ = false

abbrev pub phase_of : Target → String
phase_of live = phase_live
phase_of ready = phase_ready
phase_of start = phase_startup

abbrev pub when_list : Bool → HealthCheckEntry → List HealthCheckEntry
when_list b entry = if b then entry ∷ [] else []

-- The copies of an entry that the phases of a registration call put into one list.
abbrev pub copies : Target → List String → HealthCheckEntry → List HealthCheckEntry
copies t [] entry = []
copies t (phase ∷ phases) entry =
    when_list (str_eq phase (phase_of t)) entry ++ copies t phases entry

abbrev pub IsUsable : HealthCheckEntry → Type 0
IsUsable entry = (str_eq entry.name "" ≡ false) × (is_some entry.fn ≡ true)

-- What registration never touches.
abbrev pub Kept : HealthRegistry → HealthRegistry → Type 0
Kept r s =
    (s.check_timeout ≡ r.check_timeout)
    × (s.started ≡ r.started)
    × (s.shutting_down ≡ r.shutting_down)

pub register-checks :
    (target t : Target) (entry : HealthCheckEntry) (r : HealthRegistry)
    → IsUsable entry
    → checks_of t (register target entry r) ≡ checks_of t r ++ when_list (is_target target t) entry
unfolding register
register-checks live live entry r u = ground arith
register-checks live ready entry r u = ground (arith, append-nil r.readiness)
register-checks live start entry r u = ground (arith, append-nil r.startup)
register-checks ready live entry r u = ground (arith, append-nil r.liveness)
register-checks ready ready entry r u = ground arith
register-checks ready start entry r u = ground (arith, append-nil r.startup)
register-checks start live entry r u = ground (arith, append-nil r.liveness)
register-checks start ready entry r u = ground (arith, append-nil r.readiness)
register-checks start start entry r u = ground arith

pub register-Kept :
    (target : Target) (entry : HealthCheckEntry) (r : HealthRegistry)
    → Kept r (register target entry r)
      × ((register target entry r).next_execution ≡ r.next_execution)
unfolding register
register-Kept live entry r = ground arith
register-Kept ready entry r = ground arith
register-Kept start entry r = ground arith

pub register_phase-Kept :
    (phase : String) (entry : HealthCheckEntry) (r : HealthRegistry)
    → Kept r (register_phase phase entry r)
      × ((register_phase phase entry r).next_execution ≡ r.next_execution)
unfolding register_phase
register_phase-Kept phase entry r =
    ground
      (arith, register-Kept live entry r, register-Kept ready entry r, register-Kept start entry r)

live-ne-ready : phase_live ≢ phase_ready
live-ne-ready = ground (arith, eq_iff phase_live phase_ready)

live-ne-startup : phase_live ≢ phase_startup
live-ne-startup = ground (arith, eq_iff phase_live phase_startup)

ready-ne-startup : phase_ready ≢ phase_startup
ready-ne-startup = ground (arith, eq_iff phase_ready phase_startup)

register_phase-checks :
    (t : Target) (phase : String) (entry : HealthCheckEntry) (r : HealthRegistry)
    → IsUsable entry
    → checks_of t (register_phase phase entry r)
      ≡ checks_of t r ++ when_list (str_eq phase (phase_of t)) entry
unfolding register_phase
register_phase-checks live phase entry r u = ground (
  arith,
  append-nil r.liveness,
  register-checks live live entry r u,
  register-checks ready live entry r u,
  register-checks start live entry r u,
)
register_phase-checks ready phase entry r u = ground (
  arith,
  live-ne-ready,
  eq_iff phase phase_live,
  eq_iff phase phase_ready,
  append-nil r.readiness,
  register-checks live ready entry r u,
  register-checks ready ready entry r u,
  register-checks start ready entry r u,
)
register_phase-checks start phase entry r u = ground (
  arith,
  live-ne-startup,
  ready-ne-startup,
  eq_iff phase phase_live,
  eq_iff phase phase_ready,
  eq_iff phase phase_startup,
  append-nil r.startup,
  register-checks live start entry r u,
  register-checks ready start entry r u,
  register-checks start start entry r u,
)

register_phases-checks :
    (t : Target) (phases : List String) (entry : HealthCheckEntry) (r : HealthRegistry)
    → IsUsable entry
    → checks_of t (register_phases phases entry r) ≡ checks_of t r ++ copies t phases entry
unfolding register_phases
register_phases-checks t [] entry r u = sym (append-nil _)
register_phases-checks t (phase ∷ phases) entry r u =
    register_phases-checks t phases entry (register_phase phase entry r) u
    ∙ ap (λ l. l ++ copies t phases entry) (register_phase-checks t phase entry r u)
    ∙ append_assoc (checks_of t r) _ _

pub register_phases-Kept :
    (phases : List String) (entry : HealthCheckEntry) (r : HealthRegistry)
    → Kept r (register_phases phases entry r)
      × ((register_phases phases entry r).next_execution ≡ r.next_execution)
unfolding register_phases
register_phases-Kept [] entry r = ((refl, refl, refl), refl)
register_phases-Kept (phase ∷ phases) entry r = ground (
  arith,
  register_phase-Kept phase entry r,
  register_phases-Kept phases entry (register_phase phase entry r),
)

abbrev pub new_entry : String → ℕ → HealthRegistry → HealthCheckEntry
new_entry name fn r = record { name = name; fn = some fn; execution = some r.next_execution }

abbrev pub allocate : HealthRegistry → HealthRegistry
allocate r = record r { next_execution = suc r.next_execution }

pub allocate-checks : (t : Target) (r : HealthRegistry) → checks_of t (allocate r) ≡ checks_of t r
allocate-checks live r = refl
allocate-checks ready r = refl
allocate-checks start r = refl

pub register_check-register_phases :
    (name : String) (fn : ℕ) (phases : List String) (r : HealthRegistry)
    → name ≢ ""
    → register_check name (some fn) phases r
      ≡ register_phases (or_ready phases) (new_entry name fn r) (allocate r)
unfolding register_check
register_check-register_phases name fn phases r h = ground (arith, eq_iff name "")

pub new_entry-IsUsable :
    (name : String) (fn : ℕ) (r : HealthRegistry) → name ≢ "" → IsUsable (new_entry name fn r)
new_entry-IsUsable name fn r h = ground (arith, eq_iff name "")

register_check-checks :
    (t : Target) (name : String) (fn : ℕ) (phases : List String) (r : HealthRegistry)
    → name ≢ ""
    → checks_of t (register_check name (some fn) phases r)
      ≡ checks_of t r ++ copies t (or_ready phases) (new_entry name fn r)
register_check-checks t name fn phases r h =
    ap (checks_of t) (register_check-register_phases name fn phases r h)
    ∙ register_phases-checks t (or_ready phases) _ _ (new_entry-IsUsable name fn r h)
    ∙ ap (λ l. l ++ copies t (or_ready phases) (new_entry name fn r)) (allocate-checks t r)

-- RegisterCheck with a name and a function puts one and the same new entry, with a new execution
-- object, at the end of the list of each phase that it names, once for each mention, and of readiness
-- alone where it names none; it changes neither the flags nor the timeout.
pub register_check_lem :
    (name : String) (fn : ℕ) (phases : List String) (r : HealthRegistry)
    → name ≢ ""
    → ((t : Target)
        → checks_of t (register_check name (some fn) phases r)
          ≡ checks_of t r ++ copies t (or_ready phases) (new_entry name fn r))
      × Kept r (register_check name (some fn) phases r)
      × ((register_check name (some fn) phases r).next_execution ≡ suc r.next_execution)
register_check_lem name fn phases r h = (
  λ t. register_check-checks t name fn phases r h,
  rw (register_check-register_phases name fn phases r h) kept.0,
  rw (register_check-register_phases name fn phases r h) kept.1,
)
  where
    kept :
        Kept r (register_phases (or_ready phases) (new_entry name fn r) (allocate r))
        × ((register_phases (or_ready phases) (new_entry name fn r) (allocate r)).next_execution
            ≡ suc r.next_execution)
    kept = register_phases-Kept (or_ready phases) (new_entry name fn r) (allocate r)
