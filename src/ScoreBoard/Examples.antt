-- ===== src/ScoreBoard/Examples.antt =====
-- Runs of src/scoreboard.cpp on concrete boards.
use cbftp.Common.{ℕ, ◌<◌, ◌≡◌, refl, false, Option, none, some, [], codes, length, arith, Returns}
use cbftp.ScoreBoard.{ScoreBoard, ScoreBoardElement, Key, key_of, PrioType}
use cbftp.ScoreBoard
use cbftp.ScoreBoard.Operations.{update, remove, wipe_list, add, grow, show}
use cbftp.ScoreBoard.Sort.{score_at, ushort_max}
use cbftp.ScoreBoard.Ranked.{rank_elements, IsRanked, rank_elements-IsRanked}
use cbftp.ScoreBoard.Located.Removals.{Removed, remove-Removed}
use cbftp.ScoreBoard.Located.Wiping.{Wiped, wipe_list-Wiped}
use cbftp.ScoreBoard.Located.{IsLocated}
use cbftp.ScoreBoard.Located.Updates.{Updated, update-Updated}
use cbftp.ScoreBoard.Located.Run.{
  Reach, starts, calls, updates, removes, step, Reach-IsLocated, run-IsLocated,
}

abbrev first : ScoreBoardElement
first = record {
  filename = codes "a.rar";
  src = some 1;
  dst = some 2;
  fls = 11;
  fld = 12;
  srcsr = none;
  dstsr = none;
  race = none;
  score = 700;
  priotype = PrioType.normal;
  attempted = false;
  subdir = [];
  filesize = 5;
  skipchecked = false;
}

abbrev second : ScoreBoardElement
second = record first { filename = codes "a.sfv"; score = 9000 }

abbrev empty_board : ScoreBoard
empty_board = ScoreBoard.new (λ a. first)

abbrev board_of : Option ScoreBoard → ScoreBoard
board_of none = empty_board
board_of (some b) = b

abbrev one : ScoreBoard
one = board_of (update first empty_board)

abbrev two : ScoreBoard
two = board_of (update second one)

updated_one : update first empty_board ≡ some one
unfolding update add grow show ScoreBoard.new
updated_one = refl

updated_two : update second one ≡ some two
unfolding update add grow show ScoreBoard.new
updated_two = refl

one_size : one.showsize ≡ 1
unfolding update add grow show ScoreBoard.new
one_size = refl

two_size : two.showsize ≡ 2
unfolding update add grow show ScoreBoard.new
two_size = refl

two_arrays : (length two.elements ≡ 1000) × (length two.elementstmp ≡ 1000)
unfolding update add grow show ScoreBoard.new
two_arrays = (refl, refl)

two_scores : (a : ℕ) → score_at two.objects a < ushort_max
unfolding update add grow show ScoreBoard.new
two_scores a = ground arith

reached_one : Reach one
unfolding step ScoreBoard.new
reached_one = calls (updates first) empty_board one (omega arith) updated_one (starts (λ a. first))

reached_two : Reach two
unfolding step
reached_two = calls (updates second) one two (omega (arith, one_size)) updated_two reached_one

-- The values of `rand`.
abbrev sevens : ℕ → ℕ
sevens n = 7

rank_elements-IsRanked_example : Returns (IsRanked two) (rank_elements sevens two)
rank_elements-IsRanked_example =
    rank_elements-IsRanked sevens two (omega (arith, two_size, two_arrays.0))
      (omega (arith, two_size, two_arrays.1)) (omega (arith, two_size)) two_scores

update-Updated_example : Returns (λ c. IsLocated c × Updated second one c) (update second one)
update-Updated_example =
    update-Updated second one (omega (arith, one_size)) (Reach-IsLocated one reached_one)

remove-Removed_example :
    Returns (λ r. IsLocated r.1 × Removed (key_of first) two r.0 r.1) (remove (key_of first) two)
remove-Removed_example = remove-Removed (key_of first) two (Reach-IsLocated two reached_two)

wipe_list-Wiped_example : Returns (λ c. IsLocated c × Wiped 11 two c) (wipe_list 11 two)
wipe_list-Wiped_example = wipe_list-Wiped 11 two (Reach-IsLocated two reached_two)

run-IsLocated_example : Returns IsLocated (step (removes (key_of first)) two)
run-IsLocated_example = run-IsLocated (removes (key_of first)) two tt reached_two
