-- ===== src/Cleanup.antt =====
-- dongtai_engine/plugins/data_clean.py, data_cleanup without Elasticsearch: method pools that have not
-- been updated for some days are deleted, in batches of ids.
pub mod Batches
pub mod Old
mod Tests
use dong_tai_server.Prelude.{
  ℕ, zero, suc, ◌+◌, ◌-◌, ◌*◌, Bool, true, false, not, ◌&&◌, ◌||◌, Option, none, some, List, [],
  ◌∷◌, filter, if◌then◌else◌, ltb, leb,
}

pub record PoolRow : Type 0 where
  pub id : ℕ
  pub update_time : ℕ

-- `range(start, stop, step)`, with fuel
pub range : ℕ → ℕ → ℕ → ℕ → List ℕ
range zero start stop step = []
range (suc fuel) start stop step =
    let rest = range fuel (start + step) stop step in if ltb start stop then start ∷ rest else []

pub zip : List ℕ → List ℕ → List (ℕ × ℕ)
zip [] bs = []
zip (a ∷ as_) [] = []
zip (a ∷ as_) (b ∷ bs) = (a, b) ∷ zip as_ bs

-- `chunk_range`: the upper and the lower id of each batch
pub chunk_range : ℕ → ℕ → ℕ → List (ℕ × ℕ)
unfolding zip range
chunk_range upper_id lower_id batch_size =
    let fuel = upper_id - lower_id in
    zip (range fuel (lower_id + batch_size) (upper_id + batch_size) batch_size)
      (range fuel lower_id upper_id batch_size)

abbrev pub is_between : ℕ × ℕ → PoolRow → Bool
is_between (upper_id, lower_id) r = ltb r.id upper_id && leb lower_id r.id

-- The delete of data_clean_batch
pub data_clean_batch : ℕ × ℕ → List PoolRow → List PoolRow
data_clean_batch ids rows = filter (λ r. not (is_between ids r)) rows

-- loop_main: gather runs the batches in some order, here in that of the list.
pub loop_main : List (ℕ × ℕ) → List PoolRow → List PoolRow
loop_main [] rows = rows
loop_main (ids ∷ ranges) rows = loop_main ranges (data_clean_batch ids rows)

pub batch_clean : ℕ → ℕ → ℕ → List PoolRow → List PoolRow
unfolding chunk_range
batch_clean upper_id lower_id batch_size rows =
    loop_main (chunk_range upper_id lower_id batch_size) rows

pub last_id : List PoolRow → Option ℕ
last_id [] = none
last_id (r ∷ rows) = elim (last_id rows) [
  | none ↦ some r.id
  | some i ↦ some (if ltb i r.id then r.id else i)
]

pub first_id : List PoolRow → Option ℕ
first_id [] = none
first_id (r ∷ rows) = elim (first_id rows) [
  | none ↦ some r.id
  | some i ↦ some (if ltb r.id i then r.id else i)
]

-- Both ids are found and not 0.
pub clean_between : Option ℕ → Option ℕ → List PoolRow → List PoolRow
clean_between (some (suc upper)) (some (suc lower)) rows =
    batch_clean (suc upper) (suc lower) 10000 rows
clean_between _ _ rows = rows

abbrev pub seconds_per_day : ℕ
seconds_per_day = 86400

-- The rows with `update_time__lte=delete_time_stamp`; a negative time stamp finds none.
pub old_rows : ℕ → ℕ → List PoolRow → List PoolRow
old_rows now days rows =
    if leb (seconds_per_day * days) now
    then filter (λ r. leb r.update_time (now - seconds_per_day * days)) rows
    else []

pub data_cleanup : ℕ → ℕ → List PoolRow → List PoolRow
unfolding old_rows
data_cleanup now days rows =
    let old = old_rows now days rows in clean_between (last_id old) (first_id old) rows
