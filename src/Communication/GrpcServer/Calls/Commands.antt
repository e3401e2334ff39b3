-- ===== src/Communication/GrpcServer/Calls/Commands.antt =====
-- The way of the commands through grpc_server.py, from `SendControlCommand` to an event stream.
use neuro_pipeline.Prelude.{
  ℕ, zero, suc, ◌≡◌, refl, ◌∙◌, sym, ap, String, List, [], ◌∷◌, ◌++◌, map, Option, length, min,
  arith,
}
use mathlib.Core.List.{append_assoc, append-nil}
use neuro_pipeline.Pipeline.VlmPipeline.{ControlCommand}
use neuro_pipeline.Pipeline.CentralOrchestrator.{
  CentralOrchestrator, get_pending_command, next_command, send_command,
}
use neuro_pipeline.Communication.GrpcServer.{Servicer}
use neuro_pipeline.Communication.GrpcServer.Calls.{
  CentralEvent, forward_commands, events_for, event_for, send_control_command,
}

pub send_all : List ControlCommand → Servicer → Servicer
send_all [] s = s
send_all (c ∷ cs) s = send_all cs (send_control_command c s).0

send_all-queue :
    (cs : List ControlCommand) (s : Servicer)
    → (send_all cs s).orchestrator.command_queue ≡ s.orchestrator.command_queue ++ cs
unfolding send_all send_control_command send_command
send_all-queue [] s = sym (append-nil s.orchestrator.command_queue)
send_all-queue (c ∷ cs) s =
    send_all-queue cs (send_control_command c s).0
    ∙ append_assoc s.orchestrator.command_queue (c ∷ []) cs

abbrev pub commands_of : List CentralEvent → List ControlCommand
commands_of = map (λ e. e.command)

-- What a stream has sent and what still waits, over a queue of these commands.
pub record IsSplit (n : ℕ) (cs sent waiting : List ControlCommand) : Type 0 where
  pub in_order : sent ++ waiting ≡ cs
  pub count : length sent ≡ min n (length cs)

module _ (decimal : ℕ → String) where
  -- A turn after a fetch.
  abbrev turn :
      ℕ → Servicer → CentralOrchestrator × Option ControlCommand → Servicer × List CentralEvent
  turn n s fetched =
      let more = forward_commands decimal n (record s { orchestrator = fetched.0 }) in
      (more.0, events_for decimal fetched.1 ++ more.1)

  forward_commands-suc :
      (n : ℕ) (cs : List ControlCommand) (s : Servicer)
      → s.orchestrator.command_queue ≡ cs
      → forward_commands decimal (suc n) s ≡ turn n s (next_command cs s.orchestrator)
  unfolding forward_commands get_pending_command
  forward_commands-suc n cs s h = ap (λ q. turn n s (next_command q s.orchestrator)) h

  IsForwarded : ℕ → List ControlCommand → Servicer × List CentralEvent → Type 0
  IsForwarded n cs r = IsSplit n cs (commands_of r.1) r.0.orchestrator.command_queue

  one_more :
      (n : ℕ) (c : ControlCommand) (cs sent waiting : List ControlCommand)
      → IsSplit n cs sent waiting
      → IsSplit (suc n) (c ∷ cs) (c ∷ sent) waiting
  one_more n c cs sent waiting h = record {
    in_order = ap (λ x. c ∷ x) h.in_order;
    count = ground (arith, h.count);
  }

  forward_commands-zero :
      (cs : List ControlCommand) (s : Servicer)
      → s.orchestrator.command_queue ≡ cs
      → IsForwarded 0 cs (forward_commands decimal 0 s)
  unfolding IsForwarded forward_commands
  forward_commands-zero cs s h = record { in_order = h; count = ground arith }

  forward_commands_lem :
      (n : ℕ) (cs : List ControlCommand) (s : Servicer)
      → s.orchestrator.command_queue ≡ cs
      → IsForwarded n cs (forward_commands decimal n s)
  unfolding IsForwarded next_command events_for event_for
  forward_commands_lem zero cs s h = forward_commands-zero cs s h
  forward_commands_lem (suc n) [] s h =
      let more = forward_commands_lem n [] s h in
      rw (forward_commands-suc n [] s h)
        (record { in_order = more.in_order; count = ground (arith, more.count) })
  forward_commands_lem (suc n) (c ∷ cs) s h =
      let o' = record s.orchestrator { command_queue = cs } in
      let more = forward_commands_lem n cs (record s { orchestrator = o' }) refl in
      rw (forward_commands-suc n (c ∷ cs) s h) (one_more n c cs _ _ more)

  -- The commands that were given to `SendControlCommand` go out on the event stream in their order,
  -- none twice and none lost: what the turns of the loop have sent, and then what still waits, are
  -- the commands that waited before, and then those that were given. Each turn sends a command while
  -- there is one.
  pub forward_commands-send_all :
      (n : ℕ) (cs : List ControlCommand) (s : Servicer)
      → let r = forward_commands decimal n (send_all cs s) in
        IsSplit n
          (s.orchestrator.command_queue ++ cs)
          (commands_of r.1)
          r.0.orchestrator.command_queue
  unfolding IsForwarded
  forward_commands-send_all n cs s = forward_commands_lem n _ (send_all cs s) (send_all-queue cs s)
