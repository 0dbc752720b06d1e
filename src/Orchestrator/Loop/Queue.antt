-- ===== src/Orchestrator/Loop/Queue.antt =====
-- The command channel of the coordinator: orchestrator_api.go and orchestrator_loop.go.
use web3_indexer_go.Base.{ℕ, ◌≤◌, Bool, false, List, [], ◌∷◌, arith, length, length-append}
use web3_indexer_go.Orchestrator.State.{MsgType, Payload, Message, Floats, Orchestrator}
use web3_indexer_go.Orchestrator.Evaluate.{
  evaluate_eco_mode, evaluate_system_state, flush_pending_height_update,
}
use web3_indexer_go.Orchestrator.Loop.{
  Label, drawn, sent, received, decided, merged, pulsed, receive, loop_step, loop, draw, send,
}
use web3_indexer_go.Orchestrator.Loop.Commits.{process-channel}

module _ {F L B T : Type 0} (fl : Floats F) where
  send-length :
      (b : Bool) (t : MsgType) (d : Payload L B T) (n : ℕ) (o : Orchestrator F L B T)
      → length o.cmd_chan ≤ 50000
      → length (send b t d n o).cmd_chan ≤ 50000
  unfolding send
  send-length b t d n o h =
      let m : Message L B T = record { type = t; payload = d; reply = false; sequence = n } in
      ground (arith, h, length-append o.cmd_chan (m ∷ []))

  receive-length :
      (now : ℕ) (o : Orchestrator F L B T) (ms : List (Message L B T))
      → length o.cmd_chan ≤ 50000
      → length ms ≤ 50000
      → length (receive fl now o ms).cmd_chan ≤ 50000
  unfolding receive
  receive-length now o [] h k = h
  receive-length now o (m ∷ ms) h k =
      rw (process-channel fl now (record o { cmd_chan = ms }) m).0 (omega (arith, k))

  loop_step-length :
      (l : Label L B T) (o : Orchestrator F L B T)
      → length o.cmd_chan ≤ 50000
      → length (loop_step fl l o).cmd_chan ≤ 50000
  unfolding loop_step draw flush_pending_height_update evaluate_system_state evaluate_eco_mode
  loop_step-length drawn o h = h
  loop_step-length (sent b t d n) o h = send-length b t d n o h
  loop_step-length (received now) o h = receive-length now o o.cmd_chan h h
  loop_step-length (decided now) o h = h
  loop_step-length merged o h = h
  loop_step-length pulsed o h = h

  -- The command channel never holds more than its 50000 places.
  pub loop-length :
      (ls : List (Label L B T)) (o : Orchestrator F L B T)
      → length o.cmd_chan ≤ 50000
      → length (loop fl ls o).cmd_chan ≤ 50000
  unfolding loop
  loop-length [] o h = h
  loop-length (l ∷ ls) o h = loop-length ls (loop_step fl l o) (loop_step-length l o h)
