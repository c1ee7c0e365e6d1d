-- ===== src/Cleanup/Tests.antt =====
-- Runs and instances for the cleanup of method pools.
use dong_tai_server.Prelude.{
  ℕ, ◌+◌, ◌*◌, ◌≤◌, ◌<◌, ◌≡◌, ◌↔◌, ◌⊎◌, refl, some, List, [], ◌∷◌, ◌∈◌, inl, arith,
}
use dong_tai_server.Cleanup.{
  PoolRow, batch_clean, chunk_range, range, zip, loop_main, data_clean_batch, data_cleanup,
  old_rows, last_id, first_id, clean_between,
}
use dong_tai_server.Cleanup.Batches.{Reaches, batch_clean_exact}
use dong_tai_server.Cleanup.Old.{data_cleanup_leaves}

abbrev row : ℕ → ℕ → PoolRow
row id time = record { id = id; update_time = time }

abbrev rows : List PoolRow
rows = row 1 5 ∷ row 4 6 ∷ row 5 900000 ∷ row 7 900000 ∷ []

batch_clean_exact_example :
    (n : ℕ) × Reaches 4 1 2 n
    × ((r : PoolRow)
        → (r ∈ batch_clean 4 1 2 rows) ↔ (r ∈ rows) × ((r.id < 1) ⊎ (1 + n * 2 ≤ r.id)))
batch_clean_exact_example = batch_clean_exact 4 1 2 rows (omega arith)

-- The row with the upper id goes with the batch that reaches over it.
batches_run : batch_clean 4 1 2 rows ≡ row 5 900000 ∷ row 7 900000 ∷ []
unfolding batch_clean chunk_range range zip loop_main data_clean_batch
batches_run = refl

-- With one old row nothing is deleted.
abbrev single : List PoolRow
single = row 1 5 ∷ row 2 900000 ∷ []

single_run : data_cleanup 86405 1 single ≡ single
unfolding data_cleanup old_rows last_id first_id clean_between batch_clean chunk_range range zip
    loop_main
single_run = refl

single_old : row 1 5 ∈ old_rows 86405 1 single
unfolding old_rows
single_old = inl refl

-- The batch reaches over the old rows, and new ones behind them are deleted too.
newer_run : data_cleanup 86410 1 rows ≡ []
unfolding data_cleanup old_rows last_id first_id clean_between batch_clean chunk_range range zip
    loop_main data_clean_batch
newer_run = refl

data_cleanup_leaves_example : last_id (old_rows 86405 1 single) ≡ some 1
data_cleanup_leaves_example =
    data_cleanup_leaves 86405 1 single (row 1 5) (omega arith, (omega arith, tt)) single_old
      (rw single_run (inl refl))
