-- ===== src/App/Launch/Started.antt =====
-- src/app/launch/start.rs: what a launch leaves with the manager.
use devstack.Common.{
  String, ◌≡◌, refl, sym, ap, ◌∙◌, subst, ◌≢◌, Bool, true, false, Option, none, some, List, [], ◌∷◌,
  if◌then◌else◌, str_key, nat_key, ◌==◌, beq_refl, All,
}
use devstack.Common.BTreeMap.{get}
use devstack.Common.Outcome.{ok}
use devstack.Model.InstanceScope.{InstanceScope, run, global}
use devstack.App.Lifecycle.{is_exit}
use devstack.Units.{
  Child, LocalUnit, Json, Disk, LocalSystemd, new_properties, with_restart, with_remain_after_exit,
}
use devstack.Units.Command.{
  command_args, has_no_equals, command_env-env_items, ChildCommand, child_command,
}
use devstack.Units.Stop.{wait_error}
use devstack.Units.Manager.{started_unit, Managed, start_transient_service}
use devstack.Units.Started.{start_transient_service-ok, start_transient_service-get, new_unit}
use devstack.App.Launch.{
  shim_args, scope_identifier, PreparedService, LaunchAnswers, exec_of, properties_of,
  start_prepared_service,
}

-- The value that follows an option among a command's options, each of which has one.
abbrev pub option_value : String → List String → Option String
option_value option [] = none
option_value option (_ ∷ []) = none
option_value option (given ∷ value ∷ options) =
    if given == option then some value else option_value option options

-- What tells a run or a global from the others.
abbrev pub identifier_of : InstanceScope → String
identifier_of (run run_id stack) = run_id
identifier_of (global key project_dir name) = key

-- A command that runs a service: the binary's `__shim` with the options for the service, in the service's
-- directory and with its environment.
abbrev pub RunsService : String → InstanceScope → PreparedService → ChildCommand → Type 0
RunsService binary scope p command =
    (command.program ≡ binary)
    × ((options : List String) × (command.args ≡ "__shim" ∷ options)
        × (option_value "--run-id" options ≡ some (identifier_of scope))
        × (option_value "--service" options ≡ some p.name)
        × (option_value "--cmd" options ≡ some p.cmd)
        × (option_value "--cwd" options ≡ some p.cwd)
        × (option_value "--log-file" options ≡ some p.log_path))
    × (command.current_dir ≡ p.cwd)
    × (command.env ≡ p.env)

abbrev tail : List String → List String
tail [] = []
tail (x ∷ xs) = xs

properties_of-RunsService :
    (binary : String) (scope : InstanceScope) (p : PreparedService)
    → All (λ (entry : String × String). has_no_equals entry.0 ≡ true) p.env
    → RunsService binary scope p (child_command (properties_of binary scope p))
unfolding properties_of new_properties with_restart with_remain_after_exit exec_of command_args
    child_command scope_identifier
properties_of-RunsService binary scope p h = (
  refl,
  (
    tail (shim_args scope p),
    rw (beq_refl binary) refl,
    ap some (same scope),
    refl,
    refl,
    refl,
    refl,
  ),
  refl,
  command_env-env_items p.env h,
)
  where
    same : (s : InstanceScope) → scope_identifier s ≡ identifier_of s
    same (run run_id stack) = refl
    same (global key project_dir name) = refl

module _ {Bytes : Type 0} (json : Json Bytes) (disk : Disk) (scope : InstanceScope)
    (p : PreparedService) (binary : String) (a : LaunchAnswers) (child : Child)
    (spawns : a.spawn (child_command (properties_of binary scope p)) ≡ some child)
    (waits : a.start.wait ≢ wait_error)
    (names : All (λ (entry : String × String). has_no_equals entry.0 ≡ true) p.env) where
  -- The unit of the service after its start.
  abbrev pub Launched : Managed Bytes → Type 0
  Launched m =
      (m.result ≡ ok tt)
      × ((unit : LocalUnit) × (get p.unit_name m.state.units ≡ some unit)
          × (unit.child ≡ some child)
          × (a.spawn (child_command unit.props) ≡ some child)
          × RunsService binary scope p (child_command unit.props)
          × (unit.props.remain_after_exit ≡ is_exit p.readiness.kind))

  start-Launched :
      (st : LocalSystemd Bytes)
      → Launched (
          start_transient_service json disk a.start
            (a.spawn (child_command (properties_of binary scope p)))
            p.unit_name
            (properties_of binary scope p)
            st)
  unfolding started_unit properties_of new_properties with_restart with_remain_after_exit
  start-Launched st =
      let props = properties_of binary scope p in
      subst
        (λ spawned.
          Launched (start_transient_service json disk a.start spawned p.unit_name props st))
        (sym spawns)
        (let done = start_transient_service-ok json disk a.start child p.unit_name props st waits in
          (
            done,
            (
              started_unit props child,
              start_transient_service-get json disk p.unit_name p.unit_name a.start (some child)
                    props st
                  ∙ rw (beq_refl p.unit_name) (ap (new_unit props (some child)) done),
              refl,
              spawns,
              properties_of-RunsService binary scope p names,
              refl,
            ),
          ))

  -- A launch succeeds, whether or not an old unit is stopped first, where the operating system starts a child
  -- for its command, waiting for an old child does not fail, and no name in the environment has an equals
  -- sign. The unit of the service has then the child that was started for the unit's command. That is the
  -- shim, with the service's name, command, directory and log file and its run or global, in the service's
  -- directory and environment. The unit remains after its exit exactly when the service is ready by its exit.
  pub start_prepared_service_lem :
      (restart_existing : Bool) (st : LocalSystemd Bytes)
      → Launched (start_prepared_service json disk a binary scope p restart_existing st)
  unfolding start_prepared_service
  start_prepared_service_lem true st = start-Launched _
  start_prepared_service_lem false st = start-Launched st
