-- ===== src/Stores/AgentSessions/Calls.antt =====
-- src/stores/agent_sessions.rs: sequences of calls, and what they accept for an agent and hand to it.

use devstack.Common.{
  ℕ, String, ◌≡◌, Bool, true, false, Option, none, some, List, [], ◌∷◌, ◌++◌, if◌then◌else◌,
  str_key, nat_key, ◌==◌,
}
use devstack.Common.BTreeMap.{get}
use devstack.Common.Outcome.{Result, ok}
use devstack.Ports.{KillReply}
use devstack.Stores.Runs.{StoreError}
use devstack.Stores.AgentSessions.{
  AgentSessionStore, AgentSessionState, queue_message, is_pid_alive, cleanup_stale_sessions,
  find_latest_for_project, list_sessions, poll_messages, register_session, unregister_session,
}

-- A call of the store.
pub data Call : Type 0 where
  register :
      (now agent_id project_dir : String) (stack : Option String) (command : String) (pid : ℕ)
      → Call
  unregister : (agent_id : String) → Call
  queue : (agent_id message : String) → Call
  poll : (agent_id : String) → Call
  find_latest : (project_dir : String) → Call
  list clean_up : Call

unfoldable pub after : (ℕ → KillReply) → Call → AgentSessionStore → AgentSessionStore
after kill (register now agent_id project_dir stack command pid) store =
    (register_session kill now agent_id project_dir stack command pid store).1
after kill (unregister agent_id) store = (unregister_session kill agent_id store).1
after kill (queue agent_id message) store = (queue_message kill agent_id message store).1
after kill (poll agent_id) store = (poll_messages kill agent_id store).1
after kill (find_latest project_dir) store = (find_latest_for_project kill project_dir store).1
after kill list store = (list_sessions kill store).1
after kill clean_up store = (cleanup_stale_sessions kill store).1

abbrev pub if_ok : {A : Type 0} → Result StoreError A → List String → List String
if_ok (ok a) messages = messages
if_ok _ messages = []

abbrev pub or_empty : Result StoreError (List String) → List String
or_empty (ok messages) = messages
or_empty _ = []

-- The message that a call accepts for an agent, and the messages that a call hands to it.
unfoldable pub accepted : String → (ℕ → KillReply) → Call → AgentSessionStore → List String
accepted a kill (queue b message) store =
    if b == a then if_ok (queue_message kill b message store).0 (message ∷ []) else []
accepted a kill _ store = []

unfoldable pub handed : String → (ℕ → KillReply) → Call → AgentSessionStore → List String
handed a kill (poll b) store = if b == a then or_empty (poll_messages kill b store).0 else []
handed a kill _ store = []

abbrev pub messages_of : Option AgentSessionState → List String
messages_of none = []
messages_of (some s) = s.pending_messages

-- The messages that wait for an agent.
unfoldable pub pending : String → AgentSessionStore → List String
pending a store = messages_of (get a store)

abbrev pub leaves : String → Call → Bool
leaves a (unregister b) = b == a
leaves a _ = false

-- Calls in a row, during which the agent's process lives and the agent does not leave; with the
-- messages that they accept for it and those that they hand to it.
pub data Calls (a : String)
    : AgentSessionStore → (accepted_all handed_all : List String) → AgentSessionStore → Type 0 where
  done : {store : AgentSessionStore} → Calls a store [] [] store
  call_then :
      {store last : AgentSessionStore} {later_accepted later_handed : List String}
      (kill : ℕ → KillReply) (call : Call) (s : AgentSessionState)
      → get a store ≡ some s
      → is_pid_alive kill s.pid ≡ true
      → leaves a call ≡ false
      → Calls a (after kill call store) later_accepted later_handed last
      → Calls a store
          (accepted a kill call store ++ later_accepted)
          (handed a kill call store ++ later_handed)
          last
