-- ===== src/Ui/Registry/Delivery.antt =====
-- The delivery of commands to agents over a sequence of events, for internal/ui/agents.go.
use mathlib.Core.List.{append_assoc, append-nil}
use mocking_box.Prelude.{
  ◌≡◌, refl, sym, ap, ◌∙◌, ℕ, false, List, [], ◌∷◌, ◌++◌, Option, none, some, if◌then◌else◌,
  GoString, str, eqs, eqs→eq, get, get-put, get-put_other, Bool-cases, Option-cases, inl, inr,
}
use mocking_box.Diff.Value.{Numerics}
use mocking_box.Ui.Registry.{
  Command, Report, AgentRecord, Registry, heartbeat, agent_command, command_id, delete, hand_off,
  enqueue, reported, queued,
}

-- A heartbeat that is authorized, or a command from the dashboard.
pub data Event (N : Numerics) : Type 0 where
  beats : GoString → Report N → ℕ → Event N
  commands : Command N → Event N

module _ {N : Numerics} where
  unfoldable pub step : Event N → Registry N → List (Command N) × Registry N
  unfolding heartbeat agent_command
  step (beats id report now) r = heartbeat id report now r
  step (commands cmd) r = ([], (agent_command cmd r).1)

  abbrev agent_of : Event N → GoString
  agent_of (beats id report now) = id
  agent_of (commands cmd) = command_id cmd

  -- The registry after a sequence of events.
  unfoldable pub final : List (Event N) → Registry N → Registry N
  unfolding step
  final [] r = r
  final (e ∷ es) r = final es ((step e r).1)

  -- The commands in the answers to the heartbeats of an agent.
  unfoldable pub delivered : GoString → List (Event N) → Registry N → List (Command N)
  unfolding step
  delivered id [] r = []
  delivered id (e ∷ es) r =
      let (out, r') = step e r in
      let rest = delivered id es r' in if eqs (agent_of e) id then out ++ rest else rest

  -- The commands that the dashboard sent to an agent, without their ids.
  unfoldable pub queued_for : GoString → List (Event N) → List (Command N)
  unfolding delete
  queued_for id [] = []
  queued_for id (beats k report now ∷ es) = queued_for id es
  queued_for id (commands cmd ∷ es) =
      let rest = queued_for id es in
      if eqs (command_id cmd) id then delete (str "id") cmd ∷ rest else rest

  commands_of : Option (AgentRecord N) → List (Command N)
  commands_of none = []
  commands_of (some a) = a.commands

  -- The commands that wait for an agent's next heartbeat.
  unfoldable pub pending : GoString → Registry N → List (Command N)
  unfolding get commands_of
  pending id r = commands_of (get id (r.agents))

  beat-hit :
      (id : GoString) (report : Report N) (now : ℕ) (r : Registry N) (a : AgentRecord N)
      → get id (r.agents) ≡ some a
      → ((heartbeat id report now r).0 ≡ a.commands)
        × (get id ((heartbeat id report now r).1.agents) ≡ some (reported report now a))
  unfolding heartbeat hand_off
  beat-hit id report now r a e = rw e (refl, get-put id (reported report now a) (r.agents))

  beat-on :
      (id k : GoString) (report : Report N) (now : ℕ) (r : Registry N) (a : AgentRecord N)
      → k ≡ id
      → get id (r.agents) ≡ some a
      → ((heartbeat k report now r).0 ≡ a.commands)
        × (get id ((heartbeat k report now r).1.agents) ≡ some (reported report now a))
  beat-on id k report now r a c e = rw c (beat-hit id report now r a e)

  beat-miss :
      (id k : GoString) (report : Report N) (now : ℕ) (r : Registry N)
      → eqs k id ≡ false
      → get id ((heartbeat k report now r).1.agents) ≡ get id (r.agents)
  unfolding heartbeat hand_off
  beat-miss id k report now r h = elim (Option-cases (get k (r.agents))) [
    | inl e ↦ rw e
    | inr (a, e) ↦ rw e (get-put_other id k (reported report now a) (r.agents) h)
  ]

  command-hit :
      (id : GoString) (cmd : Command N) (r : Registry N) (a : AgentRecord N)
      → command_id cmd ≡ id
      → get id (r.agents) ≡ some a
      → get id ((agent_command cmd r).1.agents) ≡ some (queued (delete (str "id") cmd) a)
  unfolding agent_command enqueue
  command-hit id cmd r a c e = rw (c, e) (get-put id (queued (delete (str "id") cmd) a) (r.agents))

  command-miss :
      (id : GoString) (cmd : Command N) (r : Registry N)
      → eqs (command_id cmd) id ≡ false
      → get id ((agent_command cmd r).1.agents) ≡ get id (r.agents)
  unfolding agent_command enqueue
  command-miss id cmd r h = elim (Option-cases (get (command_id cmd) (r.agents))) [
    | inl e ↦ rw e
    | inr (a, e) ↦
        rw e (get-put_other id (command_id cmd) (queued (delete (str "id") cmd) a) (r.agents) h)
  ]

  -- An agent that is registered receives, over any sequence of heartbeats and commands of all agents,
  -- each command that was sent to it once and in the order of sending: what its heartbeats were
  -- answered with, and then what still waits, is what waited before and then what was sent.
  pub delivered-pending :
      (id : GoString) (es : List (Event N)) (r : Registry N) (a : AgentRecord N)
      → get id (r.agents) ≡ some a
      → delivered id es r ++ pending id (final es r) ≡ a.commands ++ queued_for id es
  unfolding delivered final queued_for pending commands_of reported
  delivered-pending id [] r a h = rw h (sym (append-nil (a.commands)))
  delivered-pending id (beats k report now ∷ es) r a h = elim (Bool-cases (eqs k id)) [
    | inl t ↦
        let hb = heartbeat k report now r in
        let (o, g) = beat-on id k report now r a (eqs→eq k id t) h in
        rw t (
          append_assoc (hb.0) (delivered id es (hb.1)) (pending id (final es (hb.1)))
          ∙ rw o
              (ap (◌++◌ (a.commands)) (delivered-pending id es (hb.1) (reported report now a) g)))
    | inr f ↦ rw f (
        delivered-pending id es ((heartbeat k report now r).1) a
          (beat-miss id k report now r f ∙ h))
  ]
  delivered-pending id (commands cmd ∷ es) r a h = elim (Bool-cases (eqs (command_id cmd) id)) [
    | inl t ↦ rw t (
        delivered-pending id es ((agent_command cmd r).1) (queued (delete (str "id") cmd) a)
          (command-hit id cmd r a (eqs→eq (command_id cmd) id t) h)
        ∙ append_assoc (a.commands) (delete (str "id") cmd ∷ []) (queued_for id es))
    | inr f ↦
        rw f (delivered-pending id es ((agent_command cmd r).1) a (command-miss id cmd r f ∙ h))
  ]
