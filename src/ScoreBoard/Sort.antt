-- ===== src/ScoreBoard/Sort.antt =====
-- The radix sort of src/scoreboard.cpp. An element is an address; `score` is the score of the element there,
-- an `unsigned short`. A write out of an array's bounds is a fault; `count` and `bucketpositions` have a
-- place for each score.
pub mod Counting
pub mod Buckets
pub mod Order
pub mod Placing
pub mod Sorted
use cbftp.Common.{
  ℕ, zero, suc, ◌+◌, Option, none, some, List, [], ◌∷◌, ◌++◌, take, drop, if◌then◌else◌, ◌==◌, ltb,
  ◌>>=◌, length, set, u32, sub32,
}
use cbftp.ScoreBoard.{ScoreBoard, ScoreBoardElement}

-- USHORT_MAX
abbrev pub ushort_max : ℕ
ushort_max = 0x10000

abbrev pub write : (ℕ → ℕ) → ℕ → ℕ → ℕ → ℕ
write array i v j = if j == i then v else array j

abbrev pub write_element : List ℕ → ℕ → ℕ → Option (List ℕ)
write_element elements i e = if ltb i (length elements) then some (set elements i e) else none

module _ (score : ℕ → ℕ) where
  -- The first loop of `sort`, over the elements that are shown.
  abbrev pub count_scores : List ℕ → (ℕ → ℕ) → ℕ → ℕ
  count_scores [] count = count
  count_scores (e ∷ es) count = count_scores es (write count (score e) (u32 (count (score e) + 1)))

  -- The third loop of `sort`.
  abbrev pub place : List ℕ → (ℕ → ℕ) → List ℕ → Option ((ℕ → ℕ) × List ℕ)
  place [] bucketpositions elementstmp = some (bucketpositions, elementstmp)
  place (e ∷ es) bucketpositions elementstmp =
      write_element elementstmp (bucketpositions (score e)) e >>= λ placed.
      place es (write bucketpositions (score e) (sub32 (bucketpositions (score e)) 1)) placed

-- The second loop of `sort`, from a score on, for a number of rounds.
abbrev pub positions : ℕ → ℕ → ℕ → (ℕ → ℕ) → (ℕ → ℕ) → ℕ → ℕ
positions zero i currentpos count bucketpositions = bucketpositions
positions (suc n) i currentpos count bucketpositions =
    positions n (i + 1) (sub32 currentpos (count i)) count (write bucketpositions i currentpos)

-- `getScore` of the element at an address.
abbrev pub score_at : (ℕ → ScoreBoardElement) → ℕ → ℕ
score_at objects e = (objects e).score

unfoldable pub sort : ScoreBoard → Option ScoreBoard
sort b =
    let score = score_at b.objects in
    let shown = take b.showsize b.elements in
    let count = count_scores score shown (λ i. 0) in
    let bucketpositions = positions ushort_max 0 (sub32 b.showsize 1) count b.bucketpositions in
    place score shown bucketpositions b.elementstmp >>= λ placed. some (record b {
      count = count;
      bucketpositions = placed.0;
      elementstmp = placed.1;
      elements = take b.showsize placed.1 ++ drop b.showsize b.elements;
    })
