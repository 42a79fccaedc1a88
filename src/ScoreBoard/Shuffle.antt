-- ===== src/ScoreBoard/Shuffle.antt =====
-- The random order of elements with the same score in src/scoreboard.cpp. `rand` has the values of the calls
-- of `rand`, which are counted. An access out of the array's bounds is `none`.
pub mod Kept
use cbftp.Common.{
  ℕ, zero, suc, ◌+◌, ◌-◌, ◌%◌, ◌==◌, Bool, true, false, Option, none, some, List, [], ◌∷◌,
  if◌then◌else◌, ltb, length, get_elem?, set, ◌>>=◌,
}
use cbftp.ScoreBoard.{ScoreBoard}
use cbftp.ScoreBoard.Sort.{score_at}

-- What changes in the loops: the array, the number of calls of `rand` so far and the variables `equalstart`
-- and `lastscore`.
pub record Shuffling : Type 0 where
  pub elements : List ℕ
  pub calls : ℕ
  pub equalstart : ℕ
  pub lastscore : ℕ

-- The three assignments of a round of `shuffle`.
abbrev pub swap : ℕ → ℕ → List ℕ → Option (List ℕ)
swap i swappos elements = get_elem? elements i >>= λ tmp.
    get_elem? elements swappos >>= λ other. some (set (set elements i other) swappos tmp)

module _ (rand : ℕ → ℕ) where
  -- The loop of `shuffle`, for the rounds that are left.
  abbrev pub shuffle_rounds : ℕ → ℕ → ℕ → Shuffling → Option Shuffling
  shuffle_rounds zero i lastpos t = some t
  shuffle_rounds (suc n) i lastpos t =
      swap i (i + rand t.calls % (lastpos - i + 1)) t.elements >>= λ elements.
      shuffle_rounds n (i + 1) lastpos (record t { elements = elements; calls = t.calls + 1 })

  abbrev pub shuffle : ℕ → ℕ → Shuffling → Option Shuffling
  shuffle firstpos lastpos t = shuffle_rounds (lastpos - firstpos) firstpos lastpos t

  -- A round of `shuffleEquals`, on the score at `i`.
  abbrev pub see_score : ℕ → ℕ → Shuffling → Option Shuffling
  see_score i score t =
      if score == t.lastscore
      then some t
      else (if ltb 0 i then shuffle t.equalstart (i - 1) t else some t) >>= λ u.
          some (record u { equalstart = i; lastscore = score })

  module _ (score : ℕ → ℕ) where
    -- The loop of `shuffleEquals`, for the rounds that are left.
    abbrev pub equal_rounds : ℕ → ℕ → Shuffling → Option Shuffling
    equal_rounds zero i t = some t
    equal_rounds (suc n) i t =
        get_elem? t.elements i >>= λ a. see_score i (score a) t >>= equal_rounds n (i + 1)

    abbrev pub shuffle_runs : ℕ → List ℕ → Option Shuffling
    shuffle_runs showsize elements =
        equal_rounds showsize 0
          (record { elements = elements; calls = 0; equalstart = 0; lastscore = 0 })
        >>= λ t. shuffle t.equalstart (showsize - 1) t

  unfoldable pub shuffle_equals : ScoreBoard → Option ScoreBoard
  shuffle_equals b =
      if b.showsize == 0
      then some b
      else shuffle_runs (score_at b.objects) b.showsize b.elements >>= λ t.
          some (record b { elements = t.elements })
