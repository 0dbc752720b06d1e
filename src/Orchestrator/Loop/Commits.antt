-- ===== src/Orchestrator/Loop/Commits.antt =====
-- The cursor of the coordinator's loop when nothing resets it: orchestrator_loop.go.
use web3_indexer_go.Base.{
  ℕ, ◌≤◌, ◌≡◌, refl, Bool, true, false, List, [], ◌∷◌, ◌++◌, All, ltb, if◌then◌else◌, arith, length,
  Bool-cases, inl, inr, sym, ap, subst,
}
use web3_indexer_go.Orchestrator.State.{MsgType, Payload, Message, Floats, Orchestrator}
use web3_indexer_go.Orchestrator.Process.{process, update_progress_and_snapshot, broadcast}
use web3_indexer_go.Orchestrator.Evaluate.{
  evaluate_eco_mode, evaluate_system_state, flush_pending_height_update,
}
use web3_indexer_go.Orchestrator.Loop.{
  Label, drawn, sent, received, decided, merged, pulsed, receive, loop_step, loop, draw, send,
  cmd_cap,
}
use web3_indexer_go.Orchestrator.Process.Effects.{is_reset, handle-synced, handle-channel}

module _ {L B T : Type 0} where
  -- No message of the channel resets the cursor.
  abbrev pub Unreset : List (Message L B T) → Type 0
  Unreset ms = All (λ m. is_reset m.type ≡ false) ms

  -- No label sends a reset.
  abbrev pub sends_reset : List (Label L B T) → Bool
  sends_reset [] = false
  sends_reset (sent b t d n ∷ ls) = if is_reset t then true else sends_reset ls
  sends_reset (l ∷ ls) = sends_reset ls

  Unreset-append :
      (ms : List (Message L B T)) (m : Message L B T)
      → Unreset ms
      → is_reset m.type ≡ false
      → Unreset (ms ++ m ∷ [])
  Unreset-append [] m u h = (h, tt)
  Unreset-append (n ∷ ms) m (a, u) h = (a, Unreset-append ms m u h)

module _ {F L B T : Type 0} where
  send-Unreset :
      (b : Bool) (t : MsgType) (d : Payload L B T) (n : ℕ) (o : Orchestrator F L B T)
      → is_reset t ≡ false
      → Unreset o.cmd_chan
      → Unreset (send b t d n o).cmd_chan
  unfolding send
  send-Unreset b t d n o h u = elim (Bool-cases (ltb (length o.cmd_chan) cmd_cap)) [
    | inl e ↦ rw e (elim (Bool-cases o.cancelled) [
      | inl c ↦
          rw c (elim (Bool-cases b) [
            | inl k ↦ rw k (Unreset-append o.cmd_chan _ u h)
            | inr k ↦ rw k u
          ])
      | inr c ↦ rw c (Unreset-append o.cmd_chan _ u h)
    ])
    | inr e ↦ rw e u
  ]

  send-synced :
      (b : Bool) (t : MsgType) (d : Payload L B T) (n : ℕ) (o : Orchestrator F L B T)
      → (send b t d n o).state ≡ o.state
  unfolding send
  send-synced b t d n o = refl

module _ {F L B T : Type 0} (fl : Floats F) where
  process-synced :
      (now : ℕ) (o : Orchestrator F L B T) (m : Message L B T)
      → is_reset m.type ≡ false
      → o.state.synced_cursor ≤ (process fl now o m).0.state.synced_cursor
  unfolding process update_progress_and_snapshot broadcast
  process-synced now o m h = handle-synced m.type m.payload now o h

  pub process-channel :
      (now : ℕ) (o : Orchestrator F L B T) (m : Message L B T)
      → ((process fl now o m).0.cmd_chan ≡ o.cmd_chan)
        × ((process fl now o m).0.msg_seq ≡ o.msg_seq)
  unfolding process update_progress_and_snapshot broadcast
  process-channel now o m = handle-channel m.type m.payload now o

  abbrev Held : Orchestrator F L B T → Orchestrator F L B T → Type 0
  Held o p = (o.state.synced_cursor ≤ p.state.synced_cursor) × Unreset p.cmd_chan

  receive-Held :
      (now : ℕ) (o : Orchestrator F L B T) (ms : List (Message L B T))
      → Unreset o.cmd_chan
      → Unreset ms
      → Held o (receive fl now o ms)
  unfolding receive
  receive-Held now o [] u v = (omega arith, u)
  receive-Held now o (m ∷ ms) u (a, v) = (
    process-synced now (record o { cmd_chan = ms }) m a,
    subst Unreset (sym (process-channel now (record o { cmd_chan = ms }) m).0) v,
  )

  loop_step-Held :
      (l : Label L B T) (o : Orchestrator F L B T)
      → sends_reset (l ∷ []) ≡ false
      → Unreset o.cmd_chan
      → Held o (loop_step fl l o)
  unfolding loop_step draw flush_pending_height_update evaluate_system_state evaluate_eco_mode
  loop_step-Held drawn o h u = (omega arith, u)
  loop_step-Held (sent b t d n) o h u = elim (Bool-cases (is_reset t)) [
    | inl e ↦ ground (arith, h, e)
    | inr e ↦ (
      omega (arith, ap (λ s. s.synced_cursor) (send-synced b t d n o)),
      send-Unreset b t d n o e u,
    )
  ]
  loop_step-Held (received now) o h u = receive-Held now o o.cmd_chan u u
  loop_step-Held (decided now) o h u = (omega arith, u)
  loop_step-Held merged o h u = (omega arith, u)
  loop_step-Held pulsed o h u = (omega arith, u)

  sends_reset-head :
      (l : Label L B T) (ls : List (Label L B T))
      → sends_reset (l ∷ ls) ≡ false
      → (sends_reset (l ∷ []) ≡ false) × (sends_reset ls ≡ false)
  sends_reset-head drawn ls h = (refl, h)
  sends_reset-head (sent b t d n) ls h = ground arith
  sends_reset-head (received now) ls h = (refl, h)
  sends_reset-head (decided now) ls h = (refl, h)
  sends_reset-head merged ls h = (refl, h)
  sends_reset-head pulsed ls h = (refl, h)

  -- When no waiting and no sent message resets the cursor, the synced cursor never decreases,
  -- whatever is sent and in whatever order the loop takes messages and ticks.
  pub loop-synced_cursor :
      (ls : List (Label L B T)) (o : Orchestrator F L B T)
      → sends_reset ls ≡ false
      → Unreset o.cmd_chan
      → o.state.synced_cursor ≤ (loop fl ls o).state.synced_cursor
  unfolding loop
  loop-synced_cursor [] o h u = omega arith
  loop-synced_cursor (l ∷ ls) o h u =
      let (a, b) = sends_reset-head l ls h in
      let (c, v) = loop_step-Held l o a u in
      omega (arith, c, loop-synced_cursor ls (loop_step fl l o) b v)
