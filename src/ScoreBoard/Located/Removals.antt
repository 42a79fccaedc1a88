-- ===== src/ScoreBoard/Located/Removals.antt =====
-- `remove` of src/scoreboard.cpp keeps the maps right.
use cbftp.Common.{
  ℕ, zero, suc, ◌-◌, ◌<◌, ◌≡◌, ◌≢◌, refl, sym, ap, ◌∙◌, ◌==◌, Bool, true, false, inl, inr, none,
  some, List, take, get_elem?, Bool-cases, Option-cases, arith, sub32, ℕ_discrete, Returns, is_set,
}
use mathlib.Core.Option.{some-injective}
use cbftp.ScoreBoard.{ScoreBoard, Key, key_of, find_key, erase_key, reset_element}
use cbftp.ScoreBoard.Operations.{remove, remove_found, take_place, find}
use cbftp.ScoreBoard.Maps.{
  find_key-assign_self, find_key-assign_ne, find_key-erase_self, find_key-erase_ne,
}
use cbftp.ScoreBoard.Shown.{times, get_elem?-some}
use cbftp.ScoreBoard.Located.Moving.{
  other_found, without, without-IsLocated, moved, moved-IsLocated, at_place, at_other, last_shown,
}
use cbftp.ScoreBoard.Located.{IsLocated}

-- The key is gone, and what is found for any other key has the same values, if not the same address; what is
-- left out is whether it was attempted and its skip checked, which a move forgets.
pub record Removed (k : Key) (b : ScoreBoard) (answer : Bool) (c : ScoreBoard) : Type 0 where
  pub answers : answer ≡ is_set (find k b)
  pub gone : find k c ≡ none
  pub none_new : (l : Key) → find l b ≡ none → find l c ≡ none
  pub others :
      (l : Key) (x : ℕ)
      → k ≢ l
      → find l b ≡ some x
      → (y : ℕ) × (find l c ≡ some y) × (reset_element (c.objects y) ≡ reset_element (b.objects x))

-- An element is removed as there.
module _ (b : ScoreBoard) (k : Key) (a last s : ℕ) (v : IsLocated b) (f : find k b ≡ some a)
    (e : b.showsize ≡ suc s) (g : get_elem? b.elements s ≡ some last) where
  found-ne : (l : Key) → find l b ≡ none → k ≢ l
  found-ne l n h = cc (ap (λ i. find i b) h, n, f)

  without-Removed : Removed k b true (without b k a last s v f e g)
  without-Removed = record {
    answers = ap is_set (sym f);
    gone = find_key-erase_self k b.elementlocator;
    none_new = λ l n. find_key-erase_ne k l b.elementlocator (found-ne l n) ∙ n;
    others = λ l x h p. (x, find_key-erase_ne k l b.elementlocator h ∙ p, refl);
  }

  last_key-ne : (l : Key) (x : ℕ) → find l b ≡ some x → last ≢ x → key_of (b.objects last) ≢ l
  last_key-ne l x p h i = h (
      some-injective _ _ (
        sym (v.finds last (last_shown b k a last s v f e g))
        ∙ (ap (λ y. find_key y b.elementlocator) i ∙ p)))

  moved-Removed : a ≢ last → Removed k b true (moved b k a last s v f e g)
  moved-Removed q =
      let m = erase_key k b.elementlocator in
      let key = key_of (b.objects last) in
      record {
        answers = ap is_set (sym f);
        gone =
            find_key-assign_ne key k a m (last_key-ne k a f (λ i. q (sym i)))
            ∙ find_key-erase_self k b.elementlocator;
        none_new = λ l n.
            find_key-assign_ne key l a m (λ i. cc (
              ap (λ y. find_key y b.elementlocator) i,
              n,
              v.finds last (last_shown b k a last s v f e g),
            ))
            ∙ (find_key-erase_ne k l b.elementlocator (found-ne l n) ∙ n);
        others = λ l x h p. elim (ℕ_discrete last x) [
          | yes t ↦
              let w = v.found l x p in
              let i : key ≡ l = ap (λ y. key_of (b.objects y)) t ∙ w.1 in
              (
                a,
                ap (λ y. find_key y (moved b k a last s v f e g).elementlocator) (sym i)
                    ∙ find_key-assign_self key a m,
                ap reset_element (at_place b k a last s v f e g)
                    ∙ ap (λ y. reset_element (b.objects y)) t,
              )
          | no t ↦ (
            x,
            find_key-assign_ne key l a m (last_key-ne l x p t)
                ∙ (find_key-erase_ne k l b.elementlocator h ∙ p),
            ap reset_element
                (at_other b k a last s v f e g x (other_found b k a last s v f e g l x p h)),
          )
        ];
      }

positive : (n a : ℕ) (es : List ℕ) → 0 < times a (take n es) → n ≡ suc (n - 1)
positive zero a es p = absurd (omega (arith, p))
positive (suc n) a es p = omega arith

-- After `remove` each element has an object of its own and the maps find those that are shown and no others,
-- if it was so before; it answers whether the key was found, which it no longer is, and for every other key an
-- element is found if one was before, with the same values up to its two marks.
pub remove-Removed :
    (k : Key) (b : ScoreBoard)
    → IsLocated b
    → Returns (λ r. IsLocated r.1 × Removed k b r.0 r.1) (remove k b)
unfolding remove remove_found take_place
remove-Removed k b v = elim (Option-cases (find k b)) [
  | inl n ↦ rw n (
    v,
    record {
      answers = ap is_set (sym n);
      gone = n;
      none_new = λ l i. i;
      others = λ l x h p. (x, p, refl);
    },
  )
  | inr (a, f) ↦
      let s = b.showsize - 1 in
      let e : b.showsize ≡ suc s = positive b.showsize a b.elements (v.found k a f).0 in
      let z : sub32 b.showsize 1 ≡ s = omega (arith, v.word, e) in
      let (last, g) = get_elem?-some b.elements s (omega (arith, v.sized, e)) in
      let n : (b.showsize == 0) ≡ false = ground (arith, e) in
      elim (Bool-cases (a == last)) [
        | inl t ↦
            rw (f, z, g, n, t)
              (
                without-IsLocated b k a last s v f e g (ground (arith, t)),
                without-Removed b k a last s v f e g,
              )
        | inr t ↦
            let q : a ≢ last = ground (arith, t) in
            rw (f, z, g, n, t)
              (moved-IsLocated b k a last s v f e g q, moved-Removed b k a last s v f e g q)
      ]
]
