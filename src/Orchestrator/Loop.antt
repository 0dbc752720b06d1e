-- ===== src/Orchestrator/Loop.antt =====
-- orchestrator_loop.go: `loop`; orchestrator_api.go: `Dispatch` and its wrappers. The channel's
-- place in a `select` and the clock are given by the label of a step.
use web3_indexer_go.Base.{ℕ, ◌+◌, Bool, false, List, [], ◌∷◌, ◌++◌, ltb, if◌then◌else◌, length}
use web3_indexer_go.Orchestrator.State.{
  MsgType, update_chain_height, commit_disk, set_system_state, Payload, height, system_state,
  SystemState, Message, Floats, Orchestrator, u64,
}
use web3_indexer_go.Orchestrator.Process.{process}
use web3_indexer_go.Orchestrator.Evaluate.{
  evaluate_eco_mode, evaluate_system_state, flush_pending_height_update,
}
pub mod Invariant
pub mod Commits
pub mod Queue

abbrev pub cmd_cap : ℕ
cmd_cap = 50000

module _ {F L B T : Type 0} where
  -- The first half of `Dispatch`: the atomic addition, and the number it gives.
  unfoldable pub draw : Orchestrator F L B T → Orchestrator F L B T × ℕ
  draw o = let seq = u64 (o.msg_seq + 1) in (record o { msg_seq = seq }, seq)

  -- The second half: the message with the number drawn is sent, unless the channel is full. When the
  -- context is done and the channel has room, `select` may take either case: `sends` is its choice.
  unfoldable pub send :
      Bool → MsgType → Payload L B T → ℕ → Orchestrator F L B T → Orchestrator F L B T
  send sends t d seq o =
      let m : Message L B T = record { type = t; payload = d; reply = false; sequence = seq } in
      record o {
        cmd_chan =
            if ltb (length o.cmd_chan) cmd_cap
            then (if o.cancelled
                then (if sends then o.cmd_chan ++ m ∷ [] else o.cmd_chan)
                else o.cmd_chan ++ m ∷ [])
            else o.cmd_chan;
      }

  -- `Dispatch` of a goroutine that nothing interrupts, with the number it returns. In the loop below
  -- the two halves are steps of their own, between which other goroutines draw and send.
  unfoldable pub dispatch :
      Bool → MsgType → Payload L B T → Orchestrator F L B T → Orchestrator F L B T × ℕ
  dispatch sends t d o = let (p, seq) = draw o in (send sends t d seq p, seq)

  unfoldable pub update_chain_head : Bool → ℕ → Orchestrator F L B T → Orchestrator F L B T
  update_chain_head sends h o = (dispatch sends update_chain_height (height h) o).0

  unfoldable pub advance_db_cursor : Bool → ℕ → Orchestrator F L B T → Orchestrator F L B T
  advance_db_cursor sends h o = (dispatch sends commit_disk (height h) o).0

  unfoldable pub dispatch_system_state :
      Bool → SystemState → Orchestrator F L B T → Orchestrator F L B T
  dispatch_system_state sends s o = (dispatch sends set_system_state (system_state s) o).0

-- What one iteration of `loop` may take from its `select`, and the two halves of a
-- `Dispatch` by other goroutines: one draws a number, one sends a message with a number drawn before.
-- The telemetry ticker only logs.
pub data Label (L B T : Type 0) : Type 0 where
  drawn : Label L B T
  sent : Bool → MsgType → Payload L B T → ℕ → Label L B T
  received : ℕ → Label L B T
  decided : ℕ → Label L B T
  merged : Label L B T
  pulsed : Label L B T

module _ {F L B T : Type 0} (fl : Floats F) where
  -- A receive on an empty channel waits: the state stays as it is.
  unfoldable pub receive : ℕ → Orchestrator F L B T → List (Message L B T) → Orchestrator F L B T
  receive now o [] = o
  receive now o (m ∷ ms) = (process fl now (record o { cmd_chan = ms }) m).0

  unfoldable pub loop_step : Label L B T → Orchestrator F L B T → Orchestrator F L B T
  loop_step drawn o = (draw o).0
  loop_step (sent b t d n) o = send b t d n o
  loop_step (received now) o = receive now o o.cmd_chan
  loop_step (decided now) o = evaluate_system_state (evaluate_eco_mode now o)
  loop_step merged o = flush_pending_height_update o
  loop_step pulsed o = o

  unfoldable pub loop : List (Label L B T) → Orchestrator F L B T → Orchestrator F L B T
  loop [] o = o
  loop (l ∷ ls) o = loop ls (loop_step l o)
