-- ===== src/Stores/AgentSessions.antt =====
-- src/stores/agent_sessions.rs and src/model/agent_session.rs: the agents that are connected to the
-- daemon, and the messages that wait for them. `kill` is what `kill(pid, 0)` answers during a call.
pub mod Calls
pub mod Delivery
use devstack.Common.{
  ℕ, ◌-◌, String, Bool, true, false, ◌&&◌, ◌||◌, Option, none, some, List, [], ◌∷◌, ◌++◌, map, ltb,
  eqb, if◌then◌else◌, str_key, nat_key, ◌==◌, length, filter, option_map,
}
use devstack.Common.BTreeMap.{BTreeMap, get, contains_key, insert, remove, values, retain, modify}
use devstack.Common.Outcome.{Result, ok, err}
use devstack.Ports.{KillReply, delivered, not_permitted, no_process, i32_max}
use devstack.Stores.Runs.{StoreError, not_found}

-- `pending_messages` from the front of the queue.
pub record AgentSessionState : Type 0 where
  pub agent_id : String
  pub project_dir : String
  pub stack : Option String
  pub command : String
  pub pid : ℕ
  pub created_at : String
  pub pending_messages : List String

pub record AgentSession : Type 0 where
  pub agent_id : String
  pub project_dir : String
  pub stack : Option String
  pub command : String
  pub pid : ℕ
  pub created_at : String

unfoldable pub new_session :
    (now agent_id project_dir : String) → Option String → String → ℕ → AgentSessionState
new_session now agent_id project_dir stack command pid = record {
  agent_id = agent_id;
  project_dir = project_dir;
  stack = stack;
  command = command;
  pid = pid;
  created_at = now;
  pending_messages = [];
}

unfoldable pub push_message : String → AgentSessionState → ℕ × AgentSessionState
push_message message s =
    let messages = s.pending_messages ++ (message ∷ []) in
    (length messages, record s { pending_messages = messages })

unfoldable pub drain_messages : AgentSessionState → List String × AgentSessionState
drain_messages s = (s.pending_messages, record s { pending_messages = [] })

unfoldable pub update_session :
    String → Option String → String → ℕ → AgentSessionState → AgentSessionState
update_session project_dir stack command pid s = record s {
  project_dir = project_dir;
  stack = stack;
  command = command;
  pid = pid;
}

unfoldable pub convert_to_api_session : AgentSessionState → AgentSession
convert_to_api_session s = record {
  agent_id = s.agent_id;
  project_dir = s.project_dir;
  stack = s.stack;
  command = s.command;
  pid = s.pid;
  created_at = s.created_at;
}

unfoldable pub is_pid_alive : (ℕ → KillReply) → ℕ → Bool
is_pid_alive kill pid =
    if eqb pid 0 || ltb i32_max pid
    then false
    else elim (kill pid) [ delivered ↦ true | not_permitted ↦ true | no_process ↦ false ]

abbrev pub AgentSessionStore : Type 0
AgentSessionStore = BTreeMap String AgentSessionState

-- `cleanup_stale_sessions_internal`
unfoldable pub cleanup_stale_sessions_internal :
    (ℕ → KillReply) → AgentSessionStore → AgentSessionStore
cleanup_stale_sessions_internal kill sessions = retain (λ agent s. is_pid_alive kill s.pid) sessions

-- `entry(agent_id).or_insert_with(…)`
abbrev pub or_new : AgentSessionState → Option AgentSessionState → AgentSessionState
or_new fresh none = fresh
or_new fresh (some s) = s

unfoldable pub register_session :
    (ℕ → KillReply)
    → (now agent_id project_dir : String) → Option String
    → String
    → ℕ
    → AgentSessionStore
    → AgentSession × AgentSessionStore
register_session kill now agent_id project_dir stack command pid store =
    let live = cleanup_stale_sessions_internal kill store in
    let entry =
      update_session project_dir stack command pid
        (or_new (new_session now agent_id project_dir stack command pid) (get agent_id live)) in
    (convert_to_api_session entry, insert agent_id entry live)

unfoldable pub unregister_session :
    (ℕ → KillReply) → String → AgentSessionStore → Bool × AgentSessionStore
unregister_session kill agent_id store =
    let live = cleanup_stale_sessions_internal kill store in
    (contains_key agent_id live, remove agent_id live)

unfoldable pub queue_message :
    (ℕ → KillReply) → String → String → AgentSessionStore → Result StoreError ℕ × AgentSessionStore
queue_message kill agent_id message store =
    let live = cleanup_stale_sessions_internal kill store in
    elim (get agent_id live) [
      | none ↦ (err not_found, live)
      | some s ↦
          (ok (push_message message s).0, modify agent_id (λ x. (push_message message x).1) live)
    ]

unfoldable pub poll_messages :
    (ℕ → KillReply)
    → String
    → AgentSessionStore
    → Result StoreError (List String) × AgentSessionStore
poll_messages kill agent_id store =
    let live = cleanup_stale_sessions_internal kill store in
    elim (get agent_id live) [
      | none ↦ (err not_found, live)
      | some s ↦ (ok (drain_messages s).0, modify agent_id (λ x. (drain_messages x).1) live)
    ]

-- `Ord` on the pair of the time of creation and the id: whether the first is after the second.
abbrev later : AgentSessionState → AgentSessionState → Bool
later a b =
    str_key.lt b.created_at a.created_at
    || (a.created_at == b.created_at) && str_key.lt b.agent_id a.agent_id

-- `max_by`: of equal sessions the last.
unfoldable pub latest : List AgentSessionState → Option AgentSessionState
latest [] = none
latest (s ∷ sessions) = elim (latest sessions) [
  | none ↦ some s
  | some best ↦ if later s best then some s else some best
]

unfoldable pub find_latest_for_project :
    (ℕ → KillReply) → String → AgentSessionStore → Option AgentSession × AgentSessionStore
find_latest_for_project kill project_dir store =
    let live = cleanup_stale_sessions_internal kill store in
    (
      option_map convert_to_api_session
          (latest (filter (λ s. s.project_dir == project_dir) (values live))),
      live,
    )

unfoldable pub list_sessions :
    (ℕ → KillReply) → AgentSessionStore → List AgentSession × AgentSessionStore
list_sessions kill store =
    let live = cleanup_stale_sessions_internal kill store in
    (map convert_to_api_session (values live), live)

unfoldable pub cleanup_stale_sessions : (ℕ → KillReply) → AgentSessionStore → ℕ × AgentSessionStore
cleanup_stale_sessions kill store =
    let live = cleanup_stale_sessions_internal kill store in (length store - length live, live)
