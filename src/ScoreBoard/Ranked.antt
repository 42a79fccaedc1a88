-- ===== src/ScoreBoard/Ranked.antt =====
-- What src/engine.cpp does with the board of src/scoreboard.cpp before it goes over it: `sort`, then
-- `shuffleEquals`.
use cbftp.Common.{
  ℕ, zero, suc, ◌≤◌, ◌<◌, ◌≡◌, refl, sym, ap, ◌∙◌, subst, Option, List, [], ◌∷◌, length, get_or,
  map, take, drop, Returns, Returns-bind, Returns-map, ◌>>=◌, arith, u32_mod,
}
use cbftp.ScoreBoard.{ScoreBoard}
use cbftp.ScoreBoard.Sort.{sort, score_at, ushort_max}
use cbftp.ScoreBoard.Sort.Order.{AtMost, Descending}
use cbftp.ScoreBoard.Sort.Sorted.{IsSorted, sort-IsSorted}
use cbftp.ScoreBoard.Shuffle.{shuffle_equals}
use cbftp.ScoreBoard.Shuffle.Kept.{Kept, shuffle_equals-Kept}
use cbftp.ScoreBoard.Shown.{times, times-perm}

unfoldable pub rank_elements : (ℕ → ℕ) → ScoreBoard → Option ScoreBoard
rank_elements rand b = sort b >>= shuffle_equals rand

module _ (score : ℕ → ℕ) where
  AtMost-scores :
      (n : ℕ) (es fs : List ℕ) → map score es ≡ map score fs → AtMost score n es → AtMost score n fs
  AtMost-scores n [] [] e a = tt
  AtMost-scores n [] (f ∷ fs) e a = absurd (omega (arith, ap length e))
  AtMost-scores n (x ∷ es) [] e a = absurd (omega (arith, ap length e))
  AtMost-scores n (x ∷ es) (f ∷ fs) e a =
      let q : score x ≡ score f = ap (λ l. get_or l 0 0) e in
      (omega (arith, q, a.0), AtMost-scores n es fs (ap (drop 1) e) a.1)

  Descending-scores :
      (es fs : List ℕ) → map score es ≡ map score fs → Descending score es → Descending score fs
  Descending-scores [] [] e a = tt
  Descending-scores [] (f ∷ fs) e a = absurd (omega (arith, ap length e))
  Descending-scores (x ∷ es) [] e a = absurd (omega (arith, ap length e))
  Descending-scores (x ∷ es) (f ∷ fs) e a =
      let q : score x ≡ score f = ap (λ l. get_or l 0 0) e in
      (
        subst (λ n. AtMost score n fs) q (AtMost-scores (score x) es fs (ap (drop 1) e) a.0),
        Descending-scores es fs (ap (drop 1) e) a.1,
      )

  map-take : (n : ℕ) (es : List ℕ) → map score (take n es) ≡ take n (map score es)
  map-take zero es = refl
  map-take (suc n) [] = refl
  map-take (suc n) (x ∷ es) = ap (λ l. score x ∷ l) (map-take n es)

-- The elements that are shown, from the highest score to the lowest.
pub record IsRanked (b c : ScoreBoard) : Type 0 where
  pub descending : Descending (score_at b.objects) (take b.showsize c.elements)
  pub same_elements :
      (x : ℕ) → times x (take b.showsize c.elements) ≡ times x (take b.showsize b.elements)
  pub same_size : c.showsize ≡ b.showsize
  pub same_objects : c.objects ≡ b.objects

shuffled-IsRanked :
    (b s c : ScoreBoard)
    → IsSorted b s
    → Kept (score_at s.objects) s.showsize s.elements c.elements
    → c ≡ record s { elements = c.elements }
    → IsRanked b c
shuffled-IsRanked b s c i k e =
    let n = b.showsize in
    let score = score_at b.objects in
    let scores : map score c.elements ≡ map score s.elements =
      subst (λ o. map (score_at o) c.elements ≡ map (score_at o) s.elements) i.same_objects.0
        k.scores in
    let first : (x : ℕ) → times x (take n c.elements) ≡ times x (take n s.elements) =
      subst (λ m. (x : ℕ) → times x (take m c.elements) ≡ times x (take m s.elements)) i.same_size
        k.first in
    record {
      descending =
          Descending-scores score (take n s.elements) (take n c.elements)
            (map-take score n s.elements
              ∙ (ap (take n) (sym scores) ∙ sym (map-take score n c.elements)))
            i.descending;
      same_elements =
          λ x. first x ∙ times-perm x (take n s.elements) (take n b.elements) i.same_elements;
      same_size = ap (λ d. d.showsize) e ∙ i.same_size;
      same_objects = ap (λ d. d.objects) e ∙ i.same_objects.0;
    }

-- Whatever `rand` returns, `sort` followed by `shuffleEquals` leaves the elements that are shown in an order
-- in which none stands before one with a higher score, each as often as before, if the arrays hold what is
-- shown, less than 2 ^ 32 elements, and scores are of 16 bits.
pub rank_elements-IsRanked :
    (rand : ℕ → ℕ) (b : ScoreBoard)
    → b.showsize ≤ length b.elements
    → b.showsize ≤ length b.elementstmp
    → b.showsize < u32_mod
    → ((a : ℕ) → score_at b.objects a < ushort_max)
    → Returns (IsRanked b) (rank_elements rand b)
unfolding rank_elements
rank_elements-IsRanked rand b h k w s =
    Returns-bind (IsSorted b) (IsRanked b) (sort b) (shuffle_equals rand) (sort-IsSorted b h k w s)
      (λ d i.
        Returns-map
          (λ c.
            Kept (score_at d.objects) d.showsize d.elements c.elements
            × (c ≡ record d { elements = c.elements }))
          (IsRanked b) (shuffle_equals rand d)
          (shuffle_equals-Kept rand d (omega (arith, h, i.same_size, i.same_arrays.1)))
          (λ c q. shuffled-IsRanked b d c i q.0 q.1))
