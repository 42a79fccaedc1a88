-- ===== src/ScoreBoard/Located/Moving.antt =====
-- What a removal in src/scoreboard.cpp leaves, where the last element takes the place of another one.
use cbftp.Common.{
  ℕ, suc, ◌+◌, ◌<◌, ◌≡◌, ◌≢◌, sym, ap, ◌∙◌, subst, ◌==◌, true, false, ◌&&◌, inl, inr, some,
  if◌then◌else◌, take, get_elem?, ltb, Bool-cases, arith, ℕ_discrete,
}
use mathlib.Core.Option.{some-injective}
use cbftp.ScoreBoard.{
  ScoreBoard, ScoreBoardElement, Key, key_of, same_key, find_key, erase_key, is_in, put_object,
  reset_element, assign_key, insert_pair, erase_pair,
}
use cbftp.ScoreBoard.Operations.{find}
use cbftp.ScoreBoard.Maps.{
  assign_key-Distinct, erase_key-Distinct, find_key-assign_self, find_key-assign_ne,
  find_key-erase_self, find_key-erase_ne, is_in-insert, is_in-erase, same_key_iff,
}
use cbftp.ScoreBoard.Shown.{times, times-take-drop, times-take-suc}
use cbftp.ScoreBoard.Located.{IsLocated, shown}

-- The element at `a`, under the key `k`, is removed, and the last one that is shown is at `last`.
module _ (b : ScoreBoard) (k : Key) (a last s : ℕ) (v : IsLocated b) (f : find k b ≡ some a)
    (e : b.showsize ≡ suc s) (g : get_elem? b.elements s ≡ some last) where
  fewer : (x : ℕ) → times x (shown b) ≡ times x (take s b.elements) + (if last == x then 1 else 0)
  fewer x = rw e (times-take-suc x s last b.elements g)

  last_gone : times last (take s b.elements) ≡ 0
  last_gone =
      let d = times-take-drop last b.showsize b.elements in
      ground (arith, fewer last, d, v.unique last)

  -- The keys of other elements.
  other_key : (x : ℕ) → 0 < times x (shown b) → a ≢ x → k ≢ key_of (b.objects x)
  other_key x p h q =
      h (some-injective _ _ (sym f ∙ (ap (λ l. find_key l b.elementlocator) q ∙ v.finds x p)))

  pub other_found : (l : Key) (x : ℕ) → find l b ≡ some x → k ≢ l → a ≢ x
  other_found l x p h q =
      h (sym (v.found k a f).1 ∙ (ap (λ i. key_of (b.objects i)) q ∙ (v.found l x p).1))

  -- What is left when the removed element is the last one.
  abbrev pub without : ScoreBoard
  without = record b {
    elementlocator = erase_key k b.elementlocator;
    destinationlocator = erase_pair (b.objects a).fld a b.destinationlocator;
    showsize = s;
  }

  pub without-IsLocated : a ≡ last → IsLocated without
  without-IsLocated q = record {
    word = omega (arith, v.word, e);
    sized = omega (arith, v.sized, e);
    sized_tmp = v.sized_tmp;
    unique = v.unique;
    made = v.made;
    finds = λ x p.
        let h : 0 < times x (shown b) = omega (arith, p, fewer x) in
        let n : a ≢ x = λ i.
          let z : times x (take s b.elements) ≡ 0 =
            ap (λ j. times j (take s b.elements)) (sym i ∙ q) ∙ last_gone in
          omega (arith, p, z) in
        find_key-erase_ne k (key_of (b.objects x)) b.elementlocator (other_key x h n) ∙ v.finds x h;
    found = λ l x p. elim (Bool-cases (same_key k l)) [
      | inl r ↦
          let i = (same_key_iff k l).0 r in
          cc (
            ap (λ j. find_key l (erase_key j b.elementlocator)) i
                ∙ find_key-erase_self l b.elementlocator,
            p,
          )
      | inr r ↦
          let n : k ≢ l = λ i. cc ((same_key_iff k l).1 i, r) in
          let h : find l b ≡ some x = sym (find_key-erase_ne k l b.elementlocator n) ∙ p in
          let o = other_found l x h n in
          let y = v.found l x h in (ground (arith, y.0, fewer x, o, q), y.1)
    ];
    distinct = erase_key-Distinct k b.elementlocator v.distinct;
    destinations = λ d x.
        is_in-erase (b.objects a).fld a d x b.destinationlocator ∙ elim (ℕ_discrete a x) [
          | yes r ↦
              let z : times x (take s b.elements) ≡ 0 =
                ap (λ j. times j (take s b.elements)) (sym r ∙ q) ∙ last_gone in
              let o : (b.objects x).fld ≡ (b.objects a).fld = ap (λ i. (b.objects i).fld) (sym r) in
              ground (arith, r, z, o, v.destinations d x)
          | no r ↦
              let n : (last == x) ≡ false = ground (arith, r, q) in
              ground (arith, r, n, fewer x, v.destinations d x)
        ];
  }

  -- What is left when the last element takes the place of another one.
  abbrev moved_objects : ℕ → ScoreBoardElement
  moved_objects = put_object b.objects a (reset_element (b.objects last))

  abbrev pub moved : ScoreBoard
  moved = record b {
    objects = moved_objects;
    elementlocator = assign_key (key_of (b.objects last)) a (erase_key k b.elementlocator);
    destinationlocator = insert_pair (b.objects last).fld a (
        erase_pair (b.objects last).fld last (erase_pair (b.objects a).fld a b.destinationlocator));
    showsize = s;
  }

  pub at_place : moved_objects a ≡ reset_element (b.objects last)
  at_place = let t : (a == a) ≡ true = ground arith in rw t

  pub at_other : (x : ℕ) → a ≢ x → moved_objects x ≡ b.objects x
  at_other x h = let t : (x == a) ≡ false = ground (arith, h) in rw t

  pub last_shown : 0 < times last (shown b)
  last_shown = ground (arith, fewer last)

  last_key :
      (x : ℕ) → 0 < times x (shown b) → last ≢ x → key_of (b.objects last) ≢ key_of (b.objects x)
  last_key x p h q = h (
      some-injective _ _
        (sym (v.finds last last_shown) ∙ (ap (λ l. find_key l b.elementlocator) q ∙ v.finds x p)))

  moved-finds :
      (x : ℕ)
      → 0 < times x (take s b.elements)
      → find_key (key_of (moved_objects x)) moved.elementlocator ≡ some x
  moved-finds x p = elim (ℕ_discrete a x) [
    | yes r ↦
        ap (λ i. find_key (key_of (moved_objects i)) moved.elementlocator) (sym r)
        ∙ (ap (λ y. find_key (key_of y) moved.elementlocator) at_place
            ∙ (find_key-assign_self (key_of (b.objects last)) a (erase_key k b.elementlocator)
                ∙ ap some r))
    | no r ↦
        let h : 0 < times x (shown b) = omega (arith, p, fewer x) in
        let n : last ≢ x = λ i.
          let z : times x (take s b.elements) ≡ 0 =
            ap (λ j. times j (take s b.elements)) (sym i) ∙ last_gone in
          omega (arith, p, z) in
        ap (λ y. find_key (key_of y) moved.elementlocator) (at_other x r)
        ∙ (find_key-assign_ne (key_of (b.objects last)) (key_of (b.objects x)) a
              (erase_key k b.elementlocator) (last_key x h n)
            ∙ (find_key-erase_ne k (key_of (b.objects x)) b.elementlocator (other_key x h r)
                ∙ v.finds x h))
  ]

  -- What the map finds for another key than the last one's, in the map as it was.
  moved-before :
      (l : Key) (x : ℕ)
      → key_of (b.objects last) ≢ l
      → find_key l moved.elementlocator ≡ some x
      → (find l b ≡ some x) × (k ≢ l)
  moved-before l x h p =
      let i =
        sym (find_key-assign_ne (key_of (b.objects last)) l a (erase_key k b.elementlocator) h)
        ∙ p in
      elim (Bool-cases (same_key k l)) [
        | inl r ↦
            let j = (same_key_iff k l).0 r in
            cc (
              ap (λ y. find_key l (erase_key y b.elementlocator)) j
                  ∙ find_key-erase_self l b.elementlocator,
              i,
            )
        | inr r ↦
            let n : k ≢ l = λ j. cc ((same_key_iff k l).1 j, r) in
            (sym (find_key-erase_ne k l b.elementlocator n) ∙ i, n)
      ]

  moved-found :
      (l : Key) (x : ℕ)
      → a ≢ last
      → find_key l moved.elementlocator ≡ some x
      → (0 < times x (take s b.elements)) × (key_of (moved_objects x) ≡ l)
  moved-found l x q p = elim (Bool-cases (same_key (key_of (b.objects last)) l)) [
    | inl r ↦
        let j = (same_key_iff (key_of (b.objects last)) l).0 r in
        let y : a ≡ x = some-injective _ _ (
          sym (
            ap (λ i. find_key i moved.elementlocator) (sym j)
            ∙ find_key-assign_self (key_of (b.objects last)) a (erase_key k b.elementlocator))
          ∙ p) in
        let z = fewer a in
        let w = (v.found k a f).0 in
        (
          subst (λ i. 0 < times i (take s b.elements)) y (ground (arith, z, w, q)),
          ap (λ i. key_of (moved_objects i)) (sym y) ∙ (ap key_of at_place ∙ j),
        )
    | inr r ↦
        let n : key_of (b.objects last) ≢ l =
          λ j. cc ((same_key_iff (key_of (b.objects last)) l).1 j, r) in
        let h = moved-before l x n p in
        let y = v.found l x h.0 in
        let o = other_found l x h.0 h.1 in
        let m : last ≢ x = λ j. n (ap (λ i. key_of (b.objects i)) j ∙ y.1) in
        (ground (arith, y.0, fewer x, m), ap key_of (at_other x o) ∙ y.1)
  ]

  moved-destinations :
      (d x : ℕ)
      → a ≢ last
      → is_in d x moved.destinationlocator
        ≡ ltb 0 (times x (take s b.elements)) && ((moved_objects x).fld == d)
  moved-destinations d x q =
      let rest = erase_pair (b.objects a).fld a b.destinationlocator in
      let i = is_in-insert (b.objects last).fld a d x (erase_pair (b.objects last).fld last rest) in
      let j = is_in-erase (b.objects last).fld last d x rest in
      let m = is_in-erase (b.objects a).fld a d x b.destinationlocator in
      let full = rw (j, m, v.destinations d x) at i in
      full ∙ elim (ℕ_discrete a x) [
        | yes r ↦
            let o : (moved_objects x).fld ≡ (b.objects last).fld =
              ap (λ y. (moved_objects y).fld) (sym r) ∙ ap (λ y. y.fld) at_place in
            let y : 0 < times x (take s b.elements) =
              subst (λ y. 0 < times y (take s b.elements)) r
                (ground (arith, fewer a, (v.found k a f).0, q)) in
            let w : (b.objects x).fld ≡ (b.objects a).fld = ap (λ y. (b.objects y).fld) (sym r) in
            ground (arith, r, o, y, w)
        | no r ↦
            let o : (moved_objects x).fld ≡ (b.objects x).fld = ap (λ y. y.fld) (at_other x r) in
            elim (ℕ_discrete last x) [
              | yes t ↦
                  let y : times x (take s b.elements) ≡ 0 =
                    ap (λ y. times y (take s b.elements)) (sym t) ∙ last_gone in
                  let w : (b.objects x).fld ≡ (b.objects last).fld =
                    ap (λ y. (b.objects y).fld) (sym t) in
                  ground (arith, r, o, y, t, w)
              | no t ↦ ground (arith, r, o, t, fewer x)
            ]
      ]

  pub moved-IsLocated : a ≢ last → IsLocated moved
  moved-IsLocated q = record {
    word = omega (arith, v.word, e);
    sized = omega (arith, v.sized, e);
    sized_tmp = v.sized_tmp;
    unique = v.unique;
    made = v.made;
    finds = moved-finds;
    found = λ l x p. moved-found l x q p;
    distinct =
        assign_key-Distinct (key_of (b.objects last)) a (erase_key k b.elementlocator)
          (erase_key-Distinct k b.elementlocator v.distinct);
    destinations = λ d x. moved-destinations d x q;
  }
