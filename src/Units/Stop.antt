-- ===== src/Units/Stop.antt =====
-- src/systemd.rs: how `LocalSystemd` signals a unit, waits for it and kills it, and the clean-up of the
-- registry of a daemon that is gone. What the operating system answers stands in `StopAnswers`; a
-- wait's polls are the answers it got before its deadline, and the one after it.
use devstack.Common.{
  ℕ, ◌≡◌, refl, sym, ◌∙◌, ◌⊎◌, inl, inr, Bool, true, false, not, ◌||◌, Option, none, some, List, [],
  ◌∷◌, ◌++◌, if◌then◌else◌, str_key, nat_key, Bool-cases, Option-cases, filter, all,
}
use devstack.Common.BTreeMap.{values}
use devstack.Common.Outcome.{Result, ok, err}
use devstack.Common.Int.{ℤ}
use devstack.Ports.{KillReply}
use devstack.Units.{LocalUnit, LocalExitStatus, Child, Json, as_i32, load_units, group_exists}

pub data ManagerError : Type 0 where
  wait_failed spawn_failed : ManagerError

abbrev pub sigterm : ℕ
sigterm = 15

abbrev pub sigkill : ℕ
sigkill = 9

-- A signal to a process group, `kill(-pgid, signal)`, or to a process.
pub data Kill : Type 0 where
  to_group : (pgid : ℤ) (signal : ℕ) → Kill
  to_process : (pid : ℤ) (signal : ℕ) → Kill

abbrev pub child_pid : Option Child → Option ℕ
child_pid none = none
child_pid (some child) = child.id

unfoldable pub signal_unit : LocalUnit → ℕ → List Kill
signal_unit unit signal = elim unit.pgid [
  | some pgid ↦ to_group pgid signal ∷ []
  | none ↦ elim (child_pid unit.child) [
    | none ↦ []
    | some pid ↦ to_process (as_i32 pid) signal ∷ []
  ]
]

-- What `timeout(.., child.wait())` answers.
pub data Wait : Type 0 where
  exited : (status : LocalExitStatus) → Wait
  wait_error elapsed : Wait

-- Each poll tells whether the process group exists.
pub record Polls : Type 0 where
  pub before : List Bool
  pub after : Bool

pub record StopAnswers : Type 0 where
  pub wait : Wait
  pub wait_again : Wait
  pub polls : Polls
  pub polls_again : Polls

poll_exit : List Bool → Bool → Bool
poll_exit [] after = not after
poll_exit (exists ∷ before) after =
    let rest = poll_exit before after in if exists then rest else true

unfoldable pub wait_for_process_group_exit : Polls → Bool
unfolding poll_exit
wait_for_process_group_exit polls = poll_exit polls.before polls.after

-- The signals that are sent, the result, and the unit, which its callers drop.
pub record Stopped : Type 0 where
  pub kills : List Kill
  pub result : Result ManagerError (Unit {0})
  pub unit : LocalUnit

abbrev kill_group : Option ℤ → List Kill
kill_group none = []
kill_group (some pgid) = to_group pgid sigkill ∷ []

abbrev with_exit : Wait → LocalUnit → LocalUnit
with_exit (exited status) unit = record unit { last_status = some status }
with_exit wait_error unit = unit
with_exit elapsed unit = unit

unfoldable pub reap_child : StopAnswers → ℕ → LocalUnit → Stopped
reap_child a signal unit = elim a.wait [
  | exited status ↦ record {
    kills = signal_unit unit signal;
    result = ok tt;
    unit = record unit { last_status = some status };
  }
  | wait_error ↦ record { kills = signal_unit unit signal; result = err wait_failed; unit = unit }
  | elapsed ↦ record {
    kills = signal_unit unit signal ++ kill_group unit.pgid;
    result = ok tt;
    unit = with_exit a.wait_again unit;
  }
]

unfoldable pub stop_and_reap : StopAnswers → ℕ → LocalUnit → Stopped
stop_and_reap a signal unit = elim unit.child [
  | some child ↦ reap_child a signal unit
  | none ↦ record {
    kills = elim unit.pgid [
      | none ↦ signal_unit unit signal
      | some pgid ↦
          if wait_for_process_group_exit a.polls
          then signal_unit unit signal
          else signal_unit unit signal ++ signal_unit unit sigkill
    ];
    result = ok tt;
    unit = unit;
  }
]

signal_units : List LocalUnit → ℕ → List Kill
signal_units [] signal = []
signal_units (unit ∷ units) signal = signal_unit unit signal ++ signal_units units signal

-- `probe` is what the operating system answers when the wait is over. The file is gone then.
unfoldable pub cleanup_registry :
    {Bytes : Type 0} → Json Bytes → (ℤ → KillReply) → Option Bytes → List Kill
unfolding signal_units
cleanup_registry json probe file =
    let units = values (load_units json file) in
    signal_units units sigterm ++ signal_units (filter (group_exists probe) units) sigkill

-- Whether the wait for a unit has come to an end before its time was up.
abbrev pub saw_end : StopAnswers → LocalUnit → Bool
saw_end a unit = elim unit.child [
  | none ↦ not (all (λ exists. exists) a.polls.before) || not a.polls.after
  | some child ↦ elim a.wait [ exited status ↦ true | wait_error ↦ true | elapsed ↦ false ]
]

poll_exit_lem :
    (before : List Bool) (after : Bool)
    → poll_exit before after ≡ (not (all (λ exists. exists) before) || not after)
unfolding poll_exit
poll_exit_lem [] after = refl
poll_exit_lem (true ∷ before) after = poll_exit_lem before after
poll_exit_lem (false ∷ before) after = refl

pub Wait-cases :
    (w : Wait)
    → ((status : LocalExitStatus) × (w ≡ exited status)) ⊎ (w ≡ wait_error) ⊎ (w ≡ elapsed)
Wait-cases (exited status) = inl (status, refl)
Wait-cases wait_error = inr (inl refl)
Wait-cases elapsed = inr (inr refl)

signal_unit-group :
    (unit : LocalUnit) (pgid : ℤ) (signal : ℕ)
    → unit.pgid ≡ some pgid
    → signal_unit unit signal ≡ to_group pgid signal ∷ []
unfolding signal_unit
signal_unit-group unit pgid signal h = rw h refl

-- A unit with a process group is sent the signal, to the whole group, and SIGKILL after it exactly when
-- the wait for its end has run out of time.
pub stop_and_reap_lem :
    (a : StopAnswers) (signal : ℕ) (unit : LocalUnit) (pgid : ℤ)
    → unit.pgid ≡ some pgid
    → (stop_and_reap a signal unit).kills
      ≡ to_group pgid signal ∷ (if saw_end a unit then [] else to_group pgid sigkill ∷ [])
unfolding stop_and_reap reap_child wait_for_process_group_exit
stop_and_reap_lem a signal unit pgid h = elim (Option-cases unit.child) [
  | inr (child, there) ↦ elim (Wait-cases a.wait) [
    | inl (status, e) ↦ rw (there, e) (signal_unit-group _ pgid signal h)
    | inr (inl e) ↦ rw (there, e) (signal_unit-group _ pgid signal h)
    | inr (inr e) ↦
        rw (there, e)
          (rw (signal_unit-group (record unit { child = some child }) pgid signal h, h) refl)
  ]
  | inl alone ↦
      let seen = poll_exit_lem a.polls.before a.polls.after in
      elim (Bool-cases (poll_exit a.polls.before a.polls.after)) [
        | inl t ↦ rw (alone, h, t, sym seen ∙ t) (signal_unit-group _ pgid signal h)
        | inr f ↦
            rw (alone, h, f, sym seen ∙ f)
              (rw
                (
                  signal_unit-group (record unit { child = none }) pgid signal h,
                  signal_unit-group (record unit { child = none }) pgid sigkill h,
                )
                refl)
      ]
]
