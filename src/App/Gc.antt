-- ===== src/App/Gc.antt =====
-- src/app/commands/gc.rs: old stopped runs are removed, and with `all` the directories of old globals.
-- Durations and times are read by humantime and time, which are parameters, like the clock.
pub mod Removed
use devstack.Common.{
  ℕ, ◌*◌, String, Bool, true, false, not, ◌&&◌, Option, none, some, List, [], ◌∷◌, map,
  if◌then◌else◌, str_key, nat_key, option_map,
}
use devstack.Common.BTreeMap.{get, remove, keys}
use devstack.Common.Outcome.{Result, ok, err, panic, out_of_fuel, ◌>>=◌}
use devstack.Model.Run.{RunLifecycle, RunRecord, same_lifecycle}
use devstack.Model.Event.{DaemonEvent, run_removed_event}
use devstack.Stores.Runs.{RunStore}

pub record GcRequest : Type 0 where
  pub older_than : Option String
  pub all_globals : Bool

pub record GcResponse : Type 0 where
  pub removed_runs : List String
  pub removed_globals : List String

-- Durations are in seconds; `ago` is `SystemTime::now().checked_sub`.
pub record GcEnv (Time : Type 0) : Type 0 where
  pub parse_duration : String → Option ℕ
  pub ago : ℕ → Option Time
  pub parse_time : String → Option Time
  pub is_after : Time → Time → Bool

pub data GcError : Type 0 where
  invalid_duration duration_too_large globals_unreadable : GcError

unfoldable pub older_than_secs : {Time : Type 0} → GcEnv Time → GcRequest → Result GcError ℕ
older_than_secs env request = elim request.older_than [
  | none ↦ ok (7 * 24 * 3600)
  | some text ↦ elim (env.parse_duration text) [ none ↦ err invalid_duration | some secs ↦ ok secs ]
]

unfoldable pub gc_threshold : {Time : Type 0} → GcEnv Time → GcRequest → Result GcError Time
gc_threshold env request = do
  secs ← older_than_secs env request
  elim (env.ago secs) [ none ↦ err duration_too_large | some time ↦ ok time ]

-- Stopped before the threshold, or at a time that is not known; a time that cannot be read keeps it.
unfoldable pub is_expired :
    {Time : Type 0} → GcEnv Time → Time → RunLifecycle → Option String → Bool
is_expired env threshold state stopped_at =
    same_lifecycle state RunLifecycle.stopped && (elim stopped_at [
      | none ↦ true
      | some text ↦ elim (env.parse_time text) [
        | none ↦ false
        | some time ↦ not (env.is_after time threshold)
      ]
    ])

abbrev pub run_expired : {Time : Type 0} → GcEnv Time → Time → RunRecord → Bool
run_expired env threshold run = is_expired env threshold run.state run.stopped_at

abbrev pub expired_entry : {Time : Type 0} → GcEnv Time → Time → Option RunRecord → Bool
expired_entry env threshold none = false
expired_entry env threshold (some run) = run_expired env threshold run

abbrev then_removed : String → List String × RunStore → List String × RunStore
then_removed id (removed, runs) = (id ∷ removed, runs)

-- The loop over the ids that the store had.
unfoldable pub gc_each :
    {Time : Type 0} → GcEnv Time → Time → List String → RunStore → List String × RunStore
gc_each env threshold [] runs = ([], runs)
gc_each env threshold (id ∷ ids) runs = elim (expired_entry env threshold (get id runs)) [
  | true ↦ then_removed id (gc_each env threshold ids (remove id runs))
  | false ↦ gc_each env threshold ids runs
]

unfoldable pub gc_runs : {Time : Type 0} → GcEnv Time → Time → RunStore → List String × RunStore
gc_runs env threshold runs = gc_each env threshold (keys runs) runs

-- The manifest of a global's directory, if there is one that can be read.
pub record GlobalManifest : Type 0 where
  pub state : RunLifecycle
  pub stopped_at : Option String

abbrev manifest_expired : {Time : Type 0} → GcEnv Time → Time → Option GlobalManifest → Bool
manifest_expired env threshold none = false
manifest_expired env threshold (some m) = is_expired env threshold m.state m.stopped_at

unfoldable pub gc_globals :
    {Time : Type 0} → GcEnv Time → Time → List (String × Option GlobalManifest) → List String
gc_globals env threshold [] = []
gc_globals env threshold ((name, manifest) ∷ entries) =
    let rest = gc_globals env threshold entries in
    if manifest_expired env threshold manifest then name ∷ rest else rest

-- The result, the runs, and the events.
pub record GcOutcome : Type 0 where
  pub result : Result GcError GcResponse
  pub runs : RunStore
  pub events : List DaemonEvent

abbrev pub removed_globals_of :
    {Time : Type 0}
    → GcEnv Time
    → Time
    → Bool
    → Option (List (String × Option GlobalManifest))
    → Option (List String)
removed_globals_of env threshold false entries = some []
removed_globals_of env threshold true entries = option_map (gc_globals env threshold) entries

unfoldable pub gc_answer : List String × RunStore → Option (List String) → GcOutcome
gc_answer (removed, left) none = record {
  result = err globals_unreadable;
  runs = left;
  events = [];
}
gc_answer (removed, left) (some globals) = record {
  result = ok (record { removed_runs = removed; removed_globals = globals });
  runs = left;
  events = map run_removed_event removed;
}

abbrev failed_gc : Result GcError GcResponse → RunStore → GcOutcome
failed_gc result runs = record { result = result; runs = runs; events = [] }

-- `entries` are the directories under the globals' root, `none` when they cannot be read. The events come
-- after the globals.
unfoldable pub gc_from :
    {Time : Type 0}
    → GcEnv Time
    → GcRequest
    → Option (List (String × Option GlobalManifest))
    → RunStore
    → Result GcError Time
    → GcOutcome
gc_from env request entries runs (err e) = failed_gc (err e) runs
gc_from env request entries runs panic = failed_gc panic runs
gc_from env request entries runs out_of_fuel = failed_gc out_of_fuel runs
gc_from env request entries runs (ok threshold) =
    gc_answer (gc_runs env threshold runs)
      (removed_globals_of env threshold request.all_globals entries)

unfoldable pub run_gc :
    {Time : Type 0}
    → GcEnv Time
    → GcRequest
    → Option (List (String × Option GlobalManifest))
    → RunStore
    → GcOutcome
run_gc env request entries runs = gc_from env request entries runs (gc_threshold env request)
