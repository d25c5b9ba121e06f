-- ===== src/Server/Health/Registry.antt =====
-- HealthRegistry of go/server/health.go: its state, its options and the registration of checks.
use dense_cloud.Prelude.{
  str_eq, if◌then◌else◌, is_some, ℤ, pos, ltb_ℤ, ℕ, suc, String, Bool, true, false, not, ◌||◌,
  Option, none, some, List, [], ◌∷◌, ◌++◌,
}
use dense_cloud.Golang.Contexts.{Duration, seconds}

-- HealthPhase is a string; any other value than these three is ignored.
abbrev pub phase_live : String
phase_live = "live"

abbrev pub phase_ready : String
phase_ready = "ready"

abbrev pub phase_startup : String
phase_startup = "startup"

abbrev pub default_health_check_timeout : Duration
default_health_check_timeout = seconds 2

-- `fn` names a check function, none is nil. `execution` is the number of the entry's execution
-- object: entries with one number share it.
pub record HealthCheckEntry : Type 0 where
  pub name : String
  pub fn : Option ℕ
  pub execution : Option ℕ

-- `next_execution` counts the execution objects that have been allocated.
pub record HealthRegistry : Type 0 where
  pub liveness : List HealthCheckEntry
  pub readiness : List HealthCheckEntry
  pub startup : List HealthCheckEntry
  pub check_timeout : Duration
  pub started : Bool
  pub shutting_down : Bool
  pub next_execution : ℕ

-- timeout > 0
abbrev pub is_positive : ℤ → Bool
is_positive d = ltb_ℤ (pos 0) d

unfoldable pub with_health_check_timeout : Duration → HealthRegistry → HealthRegistry
with_health_check_timeout timeout r =
    if is_positive timeout then record r { check_timeout = timeout } else r

abbrev empty_registry : HealthRegistry
empty_registry = record {
  liveness = [];
  readiness = [];
  startup = [];
  check_timeout = default_health_check_timeout;
  started = false;
  shutting_down = false;
  next_execution = 0;
}

-- An option may be nil.
unfoldable pub apply_options :
    List (Option (HealthRegistry → HealthRegistry)) → HealthRegistry → HealthRegistry
apply_options [] r = r
apply_options (none ∷ options) r = apply_options options r
apply_options (some option ∷ options) r = apply_options options (option r)

unfoldable pub new_health_registry :
    List (Option (HealthRegistry → HealthRegistry)) → HealthRegistry
unfolding apply_options
new_health_registry options = apply_options options empty_registry

unfoldable pub mark_started : HealthRegistry → HealthRegistry
mark_started r = record r { started = true }

unfoldable pub mark_shutting_down : HealthRegistry → HealthRegistry
mark_shutting_down r = record r { shutting_down = true }

unfoldable pub set_health_check_timeout : Duration → HealthRegistry → HealthRegistry
set_health_check_timeout timeout r =
    if is_positive timeout then record r { check_timeout = timeout } else r

-- The three lists of the registry, as targets of `register`.
pub data Target : Type 0 where
  live ready start : Target

abbrev pub checks_of : Target → HealthRegistry → List HealthCheckEntry
checks_of live r = r.liveness
checks_of ready r = r.readiness
checks_of start r = r.startup

append_to : Target → HealthCheckEntry → HealthRegistry → HealthRegistry
append_to live entry r = record r { liveness = r.liveness ++ entry ∷ [] }
append_to ready entry r = record r { readiness = r.readiness ++ entry ∷ [] }
append_to start entry r = record r { startup = r.startup ++ entry ∷ [] }

unfoldable pub new_health_check_entry :
    String → Option ℕ → HealthRegistry → HealthCheckEntry × HealthRegistry
new_health_check_entry name fn r = (
  record { name = name; fn = fn; execution = some r.next_execution },
  record r { next_execution = suc r.next_execution },
)

unfoldable pub register : Target → HealthCheckEntry → HealthRegistry → HealthRegistry
unfolding append_to
register target entry r =
    if str_eq entry.name "" || not (is_some entry.fn) then r else append_to target entry r

register_in : Target → String → Option ℕ → HealthRegistry → HealthRegistry
unfolding new_health_check_entry register
register_in target name fn r =
    let (entry, r') = new_health_check_entry name fn r in register target entry r'

unfoldable pub register_liveness : String → Option ℕ → HealthRegistry → HealthRegistry
unfolding register_in
register_liveness name fn r = register_in live name fn r

unfoldable pub register_readiness : String → Option ℕ → HealthRegistry → HealthRegistry
unfolding register_in
register_readiness name fn r = register_in ready name fn r

unfoldable pub register_startup : String → Option ℕ → HealthRegistry → HealthRegistry
unfolding register_in
register_startup name fn r = register_in start name fn r

-- The switch of RegisterCheck.
unfoldable pub register_phase : String → HealthCheckEntry → HealthRegistry → HealthRegistry
register_phase phase entry r =
    if str_eq phase phase_live
    then register live entry r
    else if str_eq phase phase_ready
    then register ready entry r
    else if str_eq phase phase_startup
    then register start entry r
    else r

unfoldable pub register_phases : List String → HealthCheckEntry → HealthRegistry → HealthRegistry
register_phases [] entry r = r
register_phases (phase ∷ phases) entry r =
    register_phases phases entry (register_phase phase entry r)

-- phases, or readiness alone where none is given
abbrev pub or_ready : List String → List String
or_ready [] = phase_ready ∷ []
or_ready (phase ∷ phases) = phase ∷ phases

unfoldable pub register_check : String → Option ℕ → List String → HealthRegistry → HealthRegistry
unfolding new_health_check_entry
register_check name fn phases r =
    if not (is_some fn) || str_eq name ""
    then r
    else let (entry, r') = new_health_check_entry name fn r in
      register_phases (or_ready phases) entry r'

-- `dependency` names the HealthCheck method of a dependency, none is nil.
unfoldable pub register_dependency :
    String → Option ℕ → List String → HealthRegistry → HealthRegistry
register_dependency name none phases r = r
register_dependency name (some check) phases r = register_check name (some check) phases r
