-- ===== src/AsyncWriter/Tests.antt =====
-- The writer on concrete tasks, and the theorems at concrete inputs.
use web3_indexer_go.Base.{ℕ, ◌≡◌, refl, Bool, true, false, not, List, [], ◌∷◌, ◌++◌}
use web3_indexer_go.AsyncWriter.{PersistTask, enqueue}
use web3_indexer_go.AsyncWriter.Run.{
  Run, Database, Label, enqueued, received, ticked, done, dropped, step, run, take_task, receive,
  flush_batch, flush, after_commit, max_height,
}
use web3_indexer_go.AsyncWriter.Run.Accounts.{taken, accepted, run-taken}
use web3_indexer_go.AsyncWriter.Run.Reports.{IsHonest, run-IsHonest}
use web3_indexer_go.AsyncWriter.Run.Shutdown.{shutdown_drops}

abbrev task : ℕ → PersistTask ℕ ℕ
task h = record { height = h; block = h; transfers = []; sequence = h }

-- A transaction commits while the context is not done.
abbrev database : Database ℕ ℕ
database fs cancelled b = not cancelled

abbrev fresh : Bool → List (PersistTask ℕ ℕ) → Run ℕ ℕ
fresh cancelled batch = record {
  writer = record {
    task_chan = [];
    task_cap = 4;
    batch_size = 2;
    ephemeral_mode = false;
    disk_watermark = 0;
    drain_cooldown = false;
  };
  batch = batch;
  cancelled = cancelled;
  returned = false;
  flushes = [];
  dispatched = [];
}

abbrev labels : List (Label ℕ ℕ)
labels =
    enqueued (task 7)
    ∷ enqueued (task 8)
    ∷ received
    ∷ received
    ∷ enqueued (task 9)
    ∷ received
    ∷ ticked
    ∷ []

watermark_nine : (run database labels (fresh false [])).writer.disk_watermark ≡ 9
unfolding run step enqueue take_task receive flush_batch flush after_commit max_height
watermark_nine = refl

run-taken_example :
    taken (run database labels (fresh false []))
    ≡ taken (fresh false []) ++ accepted database labels (fresh false [])
run-taken_example = run-taken database labels (fresh false [])

run-IsHonest_example : IsHonest (run database labels (fresh false []))
run-IsHonest_example = run-IsHonest database labels (fresh false []) refl

shutdown_drops_example :
    (run database
      (enqueued (task 9) ∷ received ∷ [])
      (step database done (fresh true (task 7 ∷ [])))).flushes
    ≡ dropped (task 7 ∷ []) ∷ []
shutdown_drops_example =
    shutdown_drops database (λ fs b. refl) (fresh true (task 7 ∷ [])) (task 7) []
      (enqueued (task 9) ∷ received ∷ []) refl refl refl refl
