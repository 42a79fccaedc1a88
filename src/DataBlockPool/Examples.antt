-- ===== src/DataBlockPool/Examples.antt =====
-- Runs of src/core/datablockpool.cpp.
use cbftp.Common.{ℕ, ◌+◌, ◌*◌, ◌<◌, ◌≡◌, refl, [], ◌∷◌, times, arith, Returns}
use cbftp.DataBlockPool.{DataBlockPool, empty_pool, allocate_rounds, get_block}
use cbftp.DataBlockPool
use cbftp.DataBlockPool.InUse.{Reach, starts, gets, get_block_unused}

-- Blocks that lie one behind the other.
abbrev malloc : ℕ → ℕ
malloc n = 4096 + n * 16384

abbrev rest : DataBlockPool
rest = record (DataBlockPool.new malloc) {
  availableblocks =
      malloc 8
      ∷ malloc 7
      ∷ malloc 6
      ∷ malloc 5
      ∷ malloc 4
      ∷ malloc 3
      ∷ malloc 2
      ∷ malloc 1
      ∷ malloc 0
      ∷ [];
}

one_out : Reach malloc rest (malloc 9 ∷ [])
unfolding DataBlockPool.new allocate_rounds get_block
one_out = gets (DataBlockPool.new malloc) rest (malloc 9) [] refl starts

get_block_unused_example :
    Returns
      (λ r. (times r.0 (malloc 9 ∷ []) ≡ 0) × ((i : ℕ) × (i < r.1.totalblocks) × (malloc i ≡ r.0)))
      (get_block malloc rest)
get_block_unused_example =
    get_block_unused malloc (λ i j e. omega (arith, e)) rest (malloc 9 ∷ []) one_out
