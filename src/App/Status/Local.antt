-- ===== src/App/Status/Local.antt =====
-- src/app/queries/status.rs with the units of src/systemd.rs: what the status query says of a service
-- that has crashed, before and after the reaper has seen the unit.

use devstack.Common.{String, Option, some, str_key, nat_key}
use devstack.Units.{Json, Disk, LocalSystemd}
use devstack.Units.Reaper.{World, unit_status}
use devstack.Model.Service.{ServiceState}
use devstack.App.Status.{SystemdStatus, answered}

-- The unit's status as the query takes it from the manager.
abbrev pub unit_of :
    {Bytes : Type 0}
    → Json Bytes
    → Disk
    → World
    → String
    → LocalSystemd Bytes
    → Option SystemdStatus
unit_of json disk world name st = answered (unit_status json disk world name st).0

-- What the test on a unit makes of an exit without success.
abbrev crashed : SystemdStatus
crashed = record { active_state = "inactive"; sub_state = "exited"; result = some "exit-code" }

-- What is reported of a service in a state whose unit has crashed.
abbrev pub crash_report : ServiceState → ServiceState
crash_report ServiceState.ready = ServiceState.degraded
crash_report ServiceState.degraded = ServiceState.degraded
crash_report ServiceState.stopped = ServiceState.stopped
crash_report ServiceState.starting = ServiceState.failed
crash_report ServiceState.failed = ServiceState.failed
