-- ===== src/DataBlockPool.antt =====
-- src/core/datablockpool.{h,cpp}: blocks of memory that are handed out and returned. `malloc n` is the address
-- of the block that the n-th call of malloc allocates; it does not fail. What is left out is the lock.
pub mod InUse
mod Examples
use cbftp.Common.{ℕ, zero, suc, ◌+◌, Option, none, some, List, [], ◌∷◌, ◌>>=◌}

-- The back of `availableblocks` is the head of the list.
pub record DataBlockPool : Type 0 where
  pub blocks : List ℕ
  pub availableblocks : List ℕ
  pub totalblocks : ℕ

abbrev pub empty_pool : DataBlockPool
empty_pool = record { blocks = []; availableblocks = []; totalblocks = 0 }

-- The last block of `availableblocks`, taken out.
abbrev pub pop_block : DataBlockPool → List ℕ → Option (ℕ × DataBlockPool)
pop_block p [] = none
pop_block p (b ∷ bs) = some (b, record p { availableblocks = bs })

unfoldable pub return_block : ℕ → DataBlockPool → DataBlockPool
return_block b p = record p { availableblocks = b ∷ p.availableblocks }

module _ (malloc : ℕ → ℕ) where
  -- A round of `allocateNewBlocks`, and its rounds.
  abbrev pub allocate_block : DataBlockPool → DataBlockPool
  allocate_block p = record {
    blocks = malloc p.totalblocks ∷ p.blocks;
    availableblocks = malloc p.totalblocks ∷ p.availableblocks;
    totalblocks = p.totalblocks + 1;
  }

  unfoldable pub allocate_rounds : ℕ → DataBlockPool → DataBlockPool
  allocate_rounds zero p = p
  allocate_rounds (suc n) p = allocate_rounds n (allocate_block p)

  abbrev pub allocate_new_blocks : DataBlockPool → DataBlockPool
  allocate_new_blocks p = allocate_rounds 10 p

  unfoldable pub new : DataBlockPool
  new = allocate_new_blocks empty_pool

  abbrev pub ready : List ℕ → DataBlockPool → DataBlockPool
  ready [] p = allocate_new_blocks p
  ready (b ∷ bs) p = p

  unfoldable pub get_block : DataBlockPool → Option (ℕ × DataBlockPool)
  get_block p = let r = ready p.availableblocks p in pop_block r r.availableblocks
