-- ===== src/Stores/AgentSessions/Delivery.antt =====
-- src/stores/agent_sessions.rs: each message is delivered once, in the order in which it was queued.
use mathlib.Core.List.{append-nil, append_assoc}
use devstack.Common.{
  ℕ, String, ◌≡◌, refl, sym, ap, ◌∙◌, subst, inl, inr, true, false, none, some, List, [], ◌∷◌, ◌++◌,
  if◌then◌else◌, str_key, nat_key, ◌==◌, Option-cases, key_cases,
}
use devstack.Common.BTreeMap.{
  get, IsUnique, get-insert, get-remove, IsUnique-insert, IsUnique-retain, get-retain, modify,
  get-modify, IsUnique-modify, IsUnique-remove,
}
use devstack.Common.Outcome.{Result, ok, err}
use devstack.Ports.{KillReply}
use devstack.Stores.Runs.{StoreError, not_found}
use devstack.Stores.AgentSessions.Calls.{
  Call, register, unregister, queue, poll, find_latest, list, clean_up, after, if_ok, or_empty,
  accepted, handed, pending, leaves, Calls, done, call_then,
}
use devstack.Stores.AgentSessions.{
  AgentSessionStore, AgentSessionState, queue_message, is_pid_alive, cleanup_stale_sessions,
  cleanup_stale_sessions_internal, drain_messages, find_latest_for_project, list_sessions,
  poll_messages, push_message, register_session, unregister_session, update_session,
}

module _ (a : String) (kill : ℕ → KillReply) (store : AgentSessionStore) (s : AgentSessionState)
    (u : IsUnique store) (there : get a store ≡ some s)
    (alive : is_pid_alive kill s.pid ≡ true) where
  abbrev live : AgentSessionStore
  live = cleanup_stale_sessions_internal kill store

  live-get : get a live ≡ some s
  unfolding cleanup_stale_sessions_internal
  live-get = get-retain (λ agent x. is_pid_alive kill x.pid) a store u ∙ rw there (rw alive refl)

  here : (b : String) → b ≡ a → get b live ≡ some s
  here b e = subst (λ z. get z live ≡ some s) (sym e) live-get

  queue_found :
      (b message : String) (x : AgentSessionState)
      → get b live ≡ some x
      → queue_message kill b message store
        ≡ (ok (push_message message x).0, modify b (λ y. (push_message message y).1) live)
  unfolding queue_message
  queue_found b message x g = rw (g, queue_message) refl

  queue_lost :
      (b message : String)
      → get b live ≡ none
      → queue_message kill b message store ≡ (err not_found, live)
  unfolding queue_message
  queue_lost b message g = rw (g, queue_message) refl

  poll_found :
      (b : String) (x : AgentSessionState)
      → get b live ≡ some x
      → poll_messages kill b store
        ≡ (ok x.pending_messages, modify b (λ y. (drain_messages y).1) live)
  unfolding poll_messages drain_messages
  poll_found b x g = rw (g, poll_messages) refl

  poll_lost : (b : String) → get b live ≡ none → poll_messages kill b store ≡ (err not_found, live)
  unfolding poll_messages
  poll_lost b g = rw (g, poll_messages) refl

  pending-store : pending a store ≡ s.pending_messages
  unfolding pending
  pending-store = rw there refl

  pending-live : pending a live ≡ s.pending_messages
  unfolding pending
  pending-live = rw live-get refl

  -- An edit of another agent's session.
  pending-modify_other :
      (b : String) (f : AgentSessionState → AgentSessionState)
      → (b == a) ≡ false
      → pending a (modify b f live) ≡ s.pending_messages
  unfolding pending
  pending-modify_other b f n = rw (get-modify b a f live, n) (rw live-get refl)

  pending-modify_own :
      (b : String) (f : AgentSessionState → AgentSessionState)
      → (b == a) ≡ true
      → pending a (modify b f live) ≡ (f s).pending_messages
  unfolding pending
  pending-modify_own b f t = rw (get-modify b a f live, t) (rw live-get refl)

  Queued : String → String → Result StoreError ℕ × AgentSessionStore → Type 0
  Queued b message (reply, left) =
      pending a store ++ (if b == a then if_ok reply (message ∷ []) else []) ≡ pending a left

  queue-pending : (b message : String) → Queued b message (queue_message kill b message store)
  unfolding Queued push_message
  queue-pending b message = elim (key_cases b a) [
    | inl (t, e) ↦
        subst (Queued b message) (sym (queue_found b message s (here b e)))
          (rw (t, pending-store) (sym (pending-modify_own b _ t)))
    | inr (f, n) ↦ elim (Option-cases (get b live)) [
      | inl lost ↦
          subst (Queued b message) (sym (queue_lost b message lost))
            (rw (f, pending-store) (append-nil s.pending_messages ∙ sym pending-live))
      | inr (x, g) ↦
          subst (Queued b message) (sym (queue_found b message x g)) (
            rw (f, pending-store)
              (append-nil s.pending_messages ∙ sym (pending-modify_other b _ f)))
    ]
  ]

  Polled : String → Result StoreError (List String) × AgentSessionStore → Type 0
  Polled b (reply, left) =
      pending a store ++ [] ≡ (if b == a then or_empty reply else []) ++ pending a left

  poll-pending : (b : String) → Polled b (poll_messages kill b store)
  unfolding Polled drain_messages
  poll-pending b = elim (key_cases b a) [
    | inl (t, e) ↦
        subst (Polled b) (sym (poll_found b s (here b e))) (
          rw (t, pending-store)
            (ap (λ z. s.pending_messages ++ z) (sym (pending-modify_own b _ t))))
    | inr (f, n) ↦ elim (Option-cases (get b live)) [
      | inl lost ↦
          subst (Polled b) (sym (poll_lost b lost))
            (rw (f, pending-store) (append-nil s.pending_messages ∙ sym pending-live))
      | inr (x, g) ↦
          subst (Polled b) (sym (poll_found b x g)) (
            rw (f, pending-store)
              (append-nil s.pending_messages ∙ sym (pending-modify_other b _ f)))
    ]
  ]

  call-pending :
      (call : Call)
      → leaves a call ≡ false
      → pending a store ++ accepted a kill call store
        ≡ handed a kill call store ++ pending a (after kill call store)
  unfolding after accepted handed pending register_session unregister_session
      find_latest_for_project list_sessions cleanup_stale_sessions update_session Queued Polled
  call-pending (register now b project_dir stack command pid) stays = elim (key_cases b a) [
    | inl (t, e) ↦
        rw (there, get-insert b a _ live, t) (append-nil s.pending_messages ∙ rw (here b e) refl)
    | inr (f, n) ↦
        rw (there, get-insert b a _ live, f) (rw live-get (append-nil s.pending_messages))
  ]
  call-pending (unregister b) stays =
      rw (there, get-remove b a live, stays) (rw live-get (append-nil s.pending_messages))
  call-pending (queue b message) stays = queue-pending b message
  call-pending (poll b) stays = poll-pending b
  call-pending (find_latest project_dir) stays =
      rw (there, live-get) (append-nil s.pending_messages)
  call-pending list stays = rw (there, live-get) (append-nil s.pending_messages)
  call-pending clean_up stays = rw (there, live-get) (append-nil s.pending_messages)

  live-IsUnique : IsUnique live
  unfolding cleanup_stale_sessions_internal
  live-IsUnique = IsUnique-retain _ store u

  IsUnique-after : (call : Call) → IsUnique (after kill call store)
  unfolding after register_session unregister_session find_latest_for_project list_sessions
      cleanup_stale_sessions
  IsUnique-after (register now b project_dir stack command pid) =
      IsUnique-insert b _ live live-IsUnique
  IsUnique-after (unregister b) = IsUnique-remove b live live-IsUnique
  IsUnique-after (queue b message) = elim (Option-cases (get b live)) [
    | inl lost ↦
        subst (λ (p : Result StoreError ℕ × AgentSessionStore). IsUnique p.1)
          (sym (queue_lost b message lost)) live-IsUnique
    | inr (x, g) ↦
        subst (λ (p : Result StoreError ℕ × AgentSessionStore). IsUnique p.1)
          (sym (queue_found b message x g)) (IsUnique-modify b _ live live-IsUnique)
  ]
  IsUnique-after (poll b) = elim (Option-cases (get b live)) [
    | inl lost ↦
        subst (λ (p : Result StoreError (List String) × AgentSessionStore). IsUnique p.1)
          (sym (poll_lost b lost)) live-IsUnique
    | inr (x, g) ↦
        subst (λ (p : Result StoreError (List String) × AgentSessionStore). IsUnique p.1)
          (sym (poll_found b x g)) (IsUnique-modify b _ live live-IsUnique)
  ]
  IsUnique-after (find_latest project_dir) = live-IsUnique
  IsUnique-after list = live-IsUnique
  IsUnique-after clean_up = live-IsUnique

-- While an agent's process lives and the agent does not leave, the messages that were waiting for it
-- and those accepted since are, in this order, those handed to it and those that still wait: none is
-- lost, doubled or reordered.
-- Each agent has one entry in the store at first.
pub Calls-delivery :
    {a : String} {store last : AgentSessionStore} {accepted_all handed_all : List String}
    → IsUnique store
    → Calls a store accepted_all handed_all last
    → pending a store ++ accepted_all ≡ handed_all ++ pending a last
Calls-delivery {a} {store} u done = append-nil (pending a store)
Calls-delivery {a} {store} {last} u
      (call_then {later_accepted = acc} {later_handed = hand} kill call s there alive stays rest) =
    let one = call-pending a kill store s u there alive call stays in
    let more = Calls-delivery (IsUnique-after a kill store s u there alive call) rest in
    sym (append_assoc (pending a store) (accepted a kill call store) acc)
    ∙ ap (λ z. z ++ acc) one
    ∙ append_assoc (handed a kill call store) (pending a (after kill call store)) acc
    ∙ ap (λ z. handed a kill call store ++ z) more
    ∙ sym (append_assoc (handed a kill call store) hand (pending a last))
