-- ===== src/ScoreBoard/Sort/Sorted.antt =====
-- The sort of src/scoreboard.cpp as a whole.
use cbftp.Common.{
  ℕ, ◌+◌, ◌≤◌, ◌<◌, ◌≡◌, refl, sym, ap, ◌∙◌, some, List, [], ◌∷◌, ◌++◌, length, take, drop, arith,
  sub32, u32_mod, Returns, Returns-bind, length-append, length-take, length-drop,
}
use mathlib.Core.List.{Perm}
use cbftp.ScoreBoard.{ScoreBoard}
use cbftp.ScoreBoard.Sort.{count_scores, positions, place, score_at, sort, ushort_max}
use cbftp.ScoreBoard.Sort.Placing.{place-by_score, length-order, order-perm}
use cbftp.ScoreBoard.Sort.Order.{reverse_onto, by_score, by_score-Descending, Descending}

take-append_left : (a b : List ℕ) → take (length a) (a ++ b) ≡ a
take-append_left [] b = refl
take-append_left (x ∷ a) b = ap (λ l. x ∷ l) (take-append_left a b)

drop-append_left : (a b : List ℕ) → drop (length a) (a ++ b) ≡ b
drop-append_left [] b = refl
drop-append_left (x ∷ a) b = drop-append_left a b

-- The elements that are shown, from the highest score to the lowest; the others stay.
pub record IsSorted (b m : ScoreBoard) : Type 0 where
  pub same_elements : Perm (take b.showsize m.elements) (take b.showsize b.elements)
  pub descending : Descending (score_at b.objects) (take b.showsize m.elements)
  pub rest : drop b.showsize m.elements ≡ drop b.showsize b.elements
  pub same_size : m.showsize ≡ b.showsize
  pub same_objects : (m.objects ≡ b.objects) × (m.created ≡ b.created)
  pub same_arrays :
      (length m.elementstmp ≡ length b.elementstmp) × (length m.elements ≡ length b.elements)
  pub same_locators :
      (m.elementlocator ≡ b.elementlocator) × (m.destinationlocator ≡ b.destinationlocator)

-- What the copy back of the sorted elements leaves.
sorted :
    (b : ScoreBoard) (array order : List ℕ) (count bucketpositions : ℕ → ℕ)
    → b.showsize ≤ length b.elements
    → b.showsize ≤ length b.elementstmp
    → array ≡ order ++ drop b.showsize b.elementstmp
    → length order ≡ b.showsize
    → Perm order (take b.showsize b.elements)
    → Descending (score_at b.objects) order
    → IsSorted b (record b {
      count = count;
      bucketpositions = bucketpositions;
      elementstmp = array;
      elements = take b.showsize array ++ drop b.showsize b.elements;
    })
sorted b array order count bucketpositions h k e l p d =
    let n = b.showsize in
    let t : take n array ≡ order =
      ap (take n) e ∙ (rw l at (take-append_left order (drop n b.elementstmp))) in
    let u : take n (take n array ++ drop n b.elements) ≡ order =
      rw t (rw l at (take-append_left order (drop n b.elements))) in
    let v : drop n (take n array ++ drop n b.elements) ≡ drop n b.elements =
      rw t (rw l at (drop-append_left order (drop n b.elements))) in
    let c : length array ≡ length order + length (drop n b.elementstmp) =
      ap length e ∙ length-append order (drop n b.elementstmp) in
    record {
      same_elements = rw u p;
      descending = rw u d;
      rest = v;
      same_size = refl;
      same_objects = (refl, refl);
      same_arrays = (
        omega (arith, c, l, k, length-drop n b.elementstmp),
        omega (
          arith,
          c,
          l,
          k,
          h,
          length-append (take n array) (drop n b.elements),
          length-take n array,
          length-drop n b.elements,
          length-drop n b.elementstmp,
        ),
      );
      same_locators = (refl, refl);
    }

-- If the arrays hold what is shown, less than 2 ^ 32 elements, and each score is an `unsigned short`, `sort`
-- writes within their bounds, and afterwards the elements that are shown are those of before, in an order
-- in which none stands before one with a higher score; nothing else has changed but the auxiliary arrays.
pub sort-IsSorted :
    (b : ScoreBoard)
    → b.showsize ≤ length b.elements
    → b.showsize ≤ length b.elementstmp
    → b.showsize < u32_mod
    → ((e : ℕ) → score_at b.objects e < ushort_max)
    → Returns (IsSorted b) (sort b)
unfolding sort
sort-IsSorted b h k w s =
    let score = score_at b.objects in
    let n = b.showsize in
    let shown = take n b.elements in
    let l : n ≡ length shown = omega (arith, h, length-take n b.elements) in
    let order = by_score score ushort_max (reverse_onto shown []) in
    let o : length order ≡ n = length-order score ushort_max s shown ∙ sym l in
    let count = count_scores score shown (λ i. 0) in
    Returns-bind (λ r. r.1 ≡ order ++ drop n b.elementstmp) (IsSorted b)
      (place score shown (positions ushort_max 0 (sub32 n 1) count b.bucketpositions) b.elementstmp)
      (λ placed. some (record b {
        count = count;
        bucketpositions = placed.0;
        elementstmp = placed.1;
        elements = take n placed.1 ++ drop n b.elements;
      }))
      (place-by_score score ushort_max s n shown b.elementstmp b.bucketpositions l w k)
      (λ r e.
        sorted b r.1 order count r.0 h k e o (order-perm score ushort_max s shown)
          (by_score-Descending score ushort_max (reverse_onto shown [])))
