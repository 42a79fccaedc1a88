-- ===== src/ScoreBoard/Located/Adding.antt =====
-- New elements in src/scoreboard.cpp and the maps.
use cbftp.Common.{
  ℕ, zero, suc, ◌+◌, ◌≤◌, ◌<◌, ◌≡◌, ◌≢◌, refl, sym, ap, ◌∙◌, subst, ◌==◌, false, ◌&&◌, inl, inr,
  none, some, List, [], ◌∷◌, ◌++◌, if◌then◌else◌, length, take, get_elem?, ltb, leb, Bool-cases,
  arith, u32, u32_mod, ℕ_discrete, replicate, length-append, length-replicate,
}
use mathlib.Core.Option.{some-injective}
use cbftp.ScoreBoard.{
  ScoreBoard, ScoreBoardElement, Key, key_of, same_key, find_key, reset_element, assign_key,
}
use cbftp.ScoreBoard.Operations.{grow, show, resize_chunk, addresses}
use cbftp.ScoreBoard.Maps.{
  assign_key-Distinct, find_key-assign_self, find_key-assign_ne, is_in-insert, same_key_iff,
}
use cbftp.ScoreBoard.Shown.{
  times, times-append, times-take-drop, times-take-suc, times-addresses, length-addresses,
}
use cbftp.ScoreBoard.Located.{IsLocated, shown, agree-IsLocated}

-- An address that comes next is not shown.
pub next-not_shown :
    (b : ScoreBoard) (a : ℕ)
    → get_elem? b.elements b.showsize ≡ some a
    → IsLocated b
    → times a (shown b) ≡ 0
next-not_shown b a e v =
    let t = times-take-suc a b.showsize a b.elements e in
    let d = times-take-drop a (suc b.showsize) b.elements in ground (arith, t, d, v.unique a)

-- Keys that are found at different addresses differ.
pub keys-differ :
    (k l : Key) (m : List (Key × ℕ)) → find_key k m ≡ none → (a : ℕ) → find_key l m ≡ some a → k ≢ l
keys-differ k l m e a f p = cc (subst (λ x. find_key x m ≡ none) p e, f)

pub show-IsLocated :
    (e : ScoreBoardElement) (a : ℕ) (b : ScoreBoard)
    → key_of (b.objects a) ≡ key_of e
    → find_key (key_of e) b.elementlocator ≡ none
    → get_elem? b.elements b.showsize ≡ some a
    → b.showsize + 1 < u32_mod
    → b.showsize < length b.elements
    → IsLocated b
    → IsLocated (show e a b)
unfolding show
show-IsLocated e a b q n g w h v =
    let m = b.elementlocator in
    let z = next-not_shown b a g v in
    let s : u32 (b.showsize + 1) ≡ suc b.showsize = omega (arith, w) in
    let t : (x : ℕ)
        → times x (take (u32 (b.showsize + 1)) b.elements)
          ≡ times x (shown b) + (if a == x then 1 else 0) =
      λ x. rw s (times-take-suc x b.showsize a b.elements g) in
    record {
      word = omega (arith, s, w);
      sized = omega (arith, s, h);
      sized_tmp = v.sized_tmp;
      unique = v.unique;
      made = v.made;
      finds = λ x p. elim (ℕ_discrete a x) [
        | yes r ↦
            ap (λ y. find_key (key_of (b.objects y)) (assign_key (key_of e) a m)) (sym r)
            ∙ (ap (λ k. find_key k (assign_key (key_of e) a m)) q
                ∙ (find_key-assign_self (key_of e) a m ∙ ap some r))
        | no r ↦
            let f = v.finds x (ground (arith, t x, p, r)) in
            find_key-assign_ne (key_of e) (key_of (b.objects x)) a m
              (keys-differ (key_of e) (key_of (b.objects x)) m n x f)
            ∙ f
      ];
      found = λ k x f. elim (Bool-cases (same_key (key_of e) k)) [
        | inl r ↦
            let p = (same_key_iff (key_of e) k).0 r in
            let y : a ≡ x = some-injective _ _ (rw r at f) in
            (ground (arith, t x, y), ap (λ i. key_of (b.objects i)) (sym y) ∙ (q ∙ p))
        | inr r ↦
            let p : key_of e ≢ k = λ i. cc ((same_key_iff (key_of e) k).1 i, r) in
            let y = v.found k x (sym (find_key-assign_ne (key_of e) k a m p) ∙ f) in
            (omega (arith, t x, y.0), y.1)
      ];
      distinct = assign_key-Distinct (key_of e) a m v.distinct;
      destinations = λ f x. is_in-insert e.fld a f x b.destinationlocator ∙ elim (ℕ_discrete a x) [
        | yes r ↦
            let o : (b.objects x).fld ≡ e.fld =
              ap (λ i. (b.objects i).fld) (sym r) ∙ ap (λ k. k.destination) q in
            let y : times x (shown b) ≡ 0 = ap (λ i. times i (shown b)) (sym r) ∙ z in
            ground (arith, r, o, y, t x, v.destinations f x)
        | no r ↦ ground (arith, r, t x, v.destinations f x)
      ];
    }

-- An element that is shown was made before.
pub shown-made : (b : ScoreBoard) (a : ℕ) → IsLocated b → 0 < times a (shown b) → a < b.created
shown-made b a v p =
    let d = times-take-drop a b.showsize b.elements in
    elim (Bool-cases (leb b.created a)) [
      | inl t ↦ absurd (omega (arith, v.made a (ground (arith, t)), d, p))
      | inr t ↦ ground (arith, t)
    ]

take-append_all : (es fs : List ℕ) (n : ℕ) → n ≡ length es → take n (es ++ fs) ≡ take n es
take-append_all [] fs n h = rw h
take-append_all (x ∷ es) fs zero h = refl
take-append_all (x ∷ es) fs (suc n) h = ap (λ l. x ∷ l) (take-append_all es fs n (omega (arith, h)))

unique-grown :
    (a from n : ℕ) (es : List ℕ)
    → times a es ≤ 1
    → (from ≤ a → times a es ≡ 0)
    → times a (es ++ addresses from n) ≤ 1
unique-grown a from n es u m =
    let t = times-append a es (addresses from n) in
    let d = times-addresses a from n in
    elim (Bool-cases (leb from a)) [
      | inl r ↦ let z : times a es ≡ 0 = m (ground (arith, r)) in ground (arith, t, d, z)
      | inr r ↦ ground (arith, t, rw r at d, u)
    ]

made-grown :
    (a from n : ℕ) (es : List ℕ)
    → (from ≤ a → times a es ≡ 0)
    → from + n ≤ a
    → times a (es ++ addresses from n) ≡ 0
made-grown a from n es m h =
    let t = times-append a es (addresses from n) in
    let d = times-addresses a from n in
    let z : times a es ≡ 0 = m (omega (arith, h)) in
    let o : ltb a (from + n) ≡ false = ground (arith, h) in ground (arith, t, d, z, o)

pub grow-IsLocated :
    (e : ScoreBoardElement) (b : ScoreBoard)
    → b.showsize ≡ length b.elements
    → IsLocated b
    → IsLocated (grow e b)
unfolding grow
grow-IsLocated e b h v =
    let objects = λ (a : ℕ).
      if leb b.created a && ltb a (b.created + resize_chunk)
      then reset_element e
      else b.objects a in
    let g =
      agree-IsLocated b objects
        (λ a p.
          let i : (leb b.created a && ltb a (b.created + resize_chunk)) ≡ false =
            ground (arith, shown-made b a v p) in
          rw i)
        v in
    let l = length-append b.elements (addresses b.created resize_chunk) in
    let t = take-append_all b.elements (addresses b.created resize_chunk) b.showsize h in
    record {
      word = v.word;
      sized = omega (arith, l, v.sized);
      sized_tmp = omega (
        arith,
        l,
        length-append b.elementstmp (replicate resize_chunk 0),
        length-replicate {A = ℕ} resize_chunk 0,
        length-addresses b.created resize_chunk,
        v.sized_tmp,
      );
      unique = λ a. unique-grown a b.created resize_chunk b.elements (v.unique a) (v.made a);
      made = λ a p. made-grown a b.created resize_chunk b.elements (v.made a) p;
      finds = λ a p. g.finds a (rw t at p);
      found = λ k a f. let r = g.found k a f in (rw t r.0, r.1);
      distinct = v.distinct;
      destinations = λ f a. rw t (g.destinations f a);
    }
