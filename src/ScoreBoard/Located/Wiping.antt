-- ===== src/ScoreBoard/Located/Wiping.antt =====
-- `wipe` of a file list in src/scoreboard.cpp removes what is from or to it, and keeps the maps right.
use cbftp.Common.{
  ℕ, ◌<◌, ◌≡◌, refl, sym, ap, ◌∙◌, ◌==◌, Bool, true, false, ◌||◌, inl, inr, none, some, List, ◌++◌,
  if◌then◌else◌, ltb, Bool-cases, Option-cases, arith, Returns, Returns-bind,
}
use cbftp.ScoreBoard.{ScoreBoard, Key, key_of, is_in}
use cbftp.ScoreBoard.Operations.{
  find, wipe, keys_from, keys_to, remove_all, erase_source, erase_destination, wipe_list,
}
use cbftp.ScoreBoard.Shown.{times}
use cbftp.ScoreBoard.Located.Collected.{
  has_key, StillFound, AllRemoved, has_key-append, remove_all-AllRemoved, has_key-keys_from,
  has_key-keys_to, find_key-erase_source, erase_source-Distinct, keys_from-source,
  keys_to-destination, is_in-erase_destination,
}
use cbftp.ScoreBoard.Located.{IsLocated, shown}

-- A key from or to a list.
abbrev pub touches : ℕ → Key → Bool
touches fl l = (l.source == fl) || (l.destination == fl)

abbrev keys_of : ℕ → ScoreBoard → List Key
keys_of fl b = keys_from fl b.objects b.elementlocator ++ keys_to fl b.objects b.destinationlocator

keys_of-found :
    (fl : ℕ) (b : ScoreBoard) (l : Key) (a : ℕ)
    → IsLocated b
    → find l b ≡ some a
    → touches fl l ≡ true
    → has_key l (keys_of fl b) ≡ true
keys_of-found fl b l a v f t =
    let r = v.found l a f in
    let h =
      has_key-append l (keys_from fl b.objects b.elementlocator)
        (keys_to fl b.objects b.destinationlocator) in
    elim (Bool-cases (l.source == fl)) [
      | inl s ↦ h ∙ rw (has_key-keys_from fl b.objects b.elementlocator l a f s r.1)
      | inr s ↦
          let o : ((b.objects a).fld == fl) ≡ true =
            ap (λ i. i.destination == fl) r.1 ∙ rw s at t in
          let i : is_in fl a b.destinationlocator ≡ true =
            ground (arith, v.destinations fl a, r.0, o) in
          h ∙ ground (arith, has_key-keys_to fl b.objects b.destinationlocator l a i r.1)
    ]

keys_of-touches :
    (fl : ℕ) (b : ScoreBoard) (l : Key)
    → IsLocated b
    → has_key l (keys_of fl b) ≡ true
    → touches fl l ≡ true
keys_of-touches fl b l v h =
    let e =
      sym (
        has_key-append l (keys_from fl b.objects b.elementlocator)
          (keys_to fl b.objects b.destinationlocator))
      ∙ h in
    elim (Bool-cases (has_key l (keys_from fl b.objects b.elementlocator))) [
      | inl t ↦ rw (
          keys_from-source fl b.objects b.elementlocator l v.distinct (λ k a f. (v.found k a f).1)
            t)
      | inr t ↦
          let i =
            keys_to-destination fl b.objects b.destinationlocator l
              (λ a p. ground (arith, v.destinations fl a, p)) (rw t at e) in
          ground (arith, i)
    ]

-- Nothing is from or to the list, so its entries may go.
abbrev erased : ℕ → ScoreBoard → ScoreBoard
erased fl c = record c {
  elementlocator = erase_source fl c.elementlocator;
  destinationlocator = erase_destination fl c.destinationlocator;
}

not_touched :
    (fl : ℕ) (c : ScoreBoard) (l : Key) (a : ℕ)
    → ((k : Key) → touches fl k ≡ true → find k c ≡ none)
    → find l c ≡ some a
    → touches fl l ≡ false
not_touched fl c l a n e = elim (Bool-cases (touches fl l)) [ inl t ↦ cc (n l t, e) | inr t ↦ t ]

find-erased :
    (fl : ℕ) (c : ScoreBoard) (l : Key)
    → ((k : Key) → touches fl k ≡ true → find k c ≡ none)
    → find l (erased fl c) ≡ find l c
find-erased fl c l n =
    let r = find_key-erase_source fl l c.elementlocator in
    elim (Bool-cases (l.source == fl)) [
      | inl s ↦ let t : touches fl l ≡ true = rw s in rw s at r ∙ sym (n l t)
      | inr s ↦ rw s at r
    ]

erased-IsLocated :
    (fl : ℕ) (c : ScoreBoard)
    → ((k : Key) → touches fl k ≡ true → find k c ≡ none)
    → IsLocated c
    → IsLocated (erased fl c)
erased-IsLocated fl c n v = record {
  word = v.word;
  sized = v.sized;
  sized_tmp = v.sized_tmp;
  unique = v.unique;
  made = v.made;
  finds = λ a p. find-erased fl c (key_of (c.objects a)) n ∙ v.finds a p;
  found = λ k a f. v.found k a (sym (find-erased fl c k n) ∙ f);
  distinct = erase_source-Distinct fl c.elementlocator v.distinct;
  destinations = λ f a.
      let r = is_in-erase_destination fl f a c.destinationlocator in
      elim (Bool-cases (ltb 0 (times a (shown c)))) [
        | inl p ↦
            let t = not_touched fl c (key_of (c.objects a)) a n (v.finds a (ground (arith, p))) in
            ground (arith, r, v.destinations f a, t, p)
        | inr p ↦ ground (arith, r, v.destinations f a, p)
      ];
}

pub wipe-IsLocated : (b : ScoreBoard) → IsLocated b → IsLocated (wipe b)
unfolding wipe
wipe-IsLocated b v = record {
  word = omega arith;
  sized = omega arith;
  sized_tmp = v.sized_tmp;
  unique = v.unique;
  made = v.made;
  finds = λ a p. absurd (omega (arith, p));
  found = λ k a e. cc;
  distinct = tt;
  destinations = λ f a. refl;
}

-- Nothing is found from or to the list, and nothing new; the rest is still found.
pub record Wiped (fl : ℕ) (b c : ScoreBoard) : Type 0 where
  pub gone : (l : Key) → touches fl l ≡ true → find l c ≡ none
  pub none_new : (l : Key) → find l b ≡ none → find l c ≡ none
  pub others : (l : Key) → touches fl l ≡ false → StillFound l b c

removed-Wiped :
    (fl : ℕ) (b c : ScoreBoard) → IsLocated b → AllRemoved (keys_of fl b) b c → Wiped fl b c
removed-Wiped fl b c v w = record {
  gone = λ l t. elim (Option-cases (find l b)) [
    | inl n ↦ w.none_new l n
    | inr (a, f) ↦ w.gone l (keys_of-found fl b l a v f t)
  ];
  none_new = w.none_new;
  others = λ l t. elim (Bool-cases (has_key l (keys_of fl b))) [
    | inl h ↦ cc (keys_of-touches fl b l v h, t)
    | inr h ↦ w.others l h
  ];
}

nothing_shown : (c : ScoreBoard) (y : ℕ) → c.showsize ≡ 0 → 0 < times y (shown c) → ⊥
nothing_shown c y z p = let t : times y (shown c) ≡ 0 = rw z in omega (arith, t, p)

-- What is found is shown, so nothing is found where nothing is shown.
wipe_empty :
    (fl : ℕ) (b c : ScoreBoard) → c.showsize ≡ 0 → IsLocated c → Wiped fl b c → Wiped fl b (wipe c)
unfolding wipe
wipe_empty fl b c z v w = record {
  gone = λ l t. refl;
  none_new = λ l n. refl;
  others =
      λ l t x p. let (y, e, s) = w.others l t x p in absurd (nothing_shown c y z (v.found l y e).0);
}

-- After `wipe` of a file list each element has an object of its own and the maps find those that are shown
-- and no others, if it was so before; no key from or to the list is found any more, no key is found that was
-- not, and for every other key an element is found if one was before, with the same values up to its two
-- marks.
pub wipe_list-Wiped :
    (fl : ℕ) (b : ScoreBoard)
    → IsLocated b
    → Returns (λ c. IsLocated c × Wiped fl b c) (wipe_list fl b)
unfolding wipe_list
wipe_list-Wiped fl b v =
    Returns-bind (AllRemoved (keys_of fl b) b) (λ c. IsLocated c × Wiped fl b c)
      (remove_all (keys_of fl b) b)
      (λ c. some (if (erased fl c).showsize == 0 then wipe (erased fl c) else erased fl c))
      (remove_all-AllRemoved (keys_of fl b) b v)
      (λ c q.
        let r = removed-Wiped fl b c v q in
        let i = erased-IsLocated fl c r.gone q.located in
        let w : Wiped fl b (erased fl c) = record {
          gone = λ l t. find-erased fl c l r.gone ∙ r.gone l t;
          none_new = λ l n. find-erased fl c l r.gone ∙ r.none_new l n;
          others =
              λ l t x p. let (y, e, s) = r.others l t x p in (y, find-erased fl c l r.gone ∙ e, s);
        } in
        elim (Bool-cases (c.showsize == 0)) [
          | inl z ↦ rw z (
            wipe-IsLocated (erased fl c) i,
            wipe_empty fl b (erased fl c) (ground (arith, z)) i w,
          )
          | inr z ↦ rw z (i, w)
        ])
