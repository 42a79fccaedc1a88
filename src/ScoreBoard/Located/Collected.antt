-- ===== src/ScoreBoard/Located/Collected.antt =====
-- The elements that `wipe` of a file list in src/scoreboard.cpp collects and removes.
use cbftp.Common.{
  ℕ, ◌≡◌, refl, sym, ap, ◌∙◌, ◌==◌, Bool, true, false, ◌&&◌, ◌||◌, not, inl, inr, none, some, List,
  [], ◌∷◌, ◌++◌, if◌then◌else◌, Bool-cases, arith, Returns, Returns-bind, Returns-map,
}
use mathlib.Core.Option.{some-injective}
use cbftp.ScoreBoard.{
  ScoreBoard, ScoreBoardElement, Key, key_of, same_key, find_key, is_in, reset_element,
}
use cbftp.ScoreBoard.Operations.{
  remove, find, keys_from, keys_to, remove_all, erase_source, erase_destination,
}
use cbftp.ScoreBoard.Maps.{same_key_iff, same_key_refl, Distinct}
use cbftp.ScoreBoard.Located.{IsLocated}
use cbftp.ScoreBoard.Located.Removals.{Removed, remove-Removed}

abbrev pub has_key : Key → List Key → Bool
has_key l [] = false
has_key l (k ∷ ks) = same_key k l || has_key l ks

pub has_key-append :
    (l : Key) (ks js : List Key) → has_key l (ks ++ js) ≡ has_key l ks || has_key l js
has_key-append l [] js = refl
has_key-append l (k ∷ ks) js = ground (arith, has_key-append l ks js)

-- An element is found for a key after as before, with the same values up to its two marks.
abbrev pub StillFound : Key → ScoreBoard → ScoreBoard → Type 0
StillFound l b c =
    (x : ℕ)
    → find l b ≡ some x
    → (y : ℕ) × (find l c ≡ some y) × (reset_element (c.objects y) ≡ reset_element (b.objects x))

pub record AllRemoved (ks : List Key) (b c : ScoreBoard) : Type 0 where
  pub located : IsLocated c
  pub gone : (l : Key) → has_key l ks ≡ true → find l c ≡ none
  pub none_new : (l : Key) → find l b ≡ none → find l c ≡ none
  pub others : (l : Key) → has_key l ks ≡ false → StillFound l b c

pub remove_all-AllRemoved :
    (ks : List Key) (b : ScoreBoard) → IsLocated b → Returns (AllRemoved ks b) (remove_all ks b)
unfolding remove_all
remove_all-AllRemoved [] b v = record {
  located = v;
  gone = λ l h. cc;
  none_new = λ l n. n;
  others = λ l h x p. (x, p, refl);
}
remove_all-AllRemoved (k ∷ ks) b v =
    Returns-bind (λ r. IsLocated r.1 × Removed k b r.0 r.1) (AllRemoved (k ∷ ks) b) (remove k b)
      (λ r. remove_all ks r.1) (remove-Removed k b v)
      (λ r q.
        Returns-map (AllRemoved ks r.1) (AllRemoved (k ∷ ks) b) (remove_all ks r.1)
          (remove_all-AllRemoved ks r.1 q.0)
          (λ c w. record {
            located = w.located;
            gone = λ l h. elim (Bool-cases (same_key k l)) [
              | inl t ↦
                  w.none_new l (ap (λ i. find i r.1) (sym ((same_key_iff k l).0 t)) ∙ q.1.gone)
              | inr t ↦ w.gone l (rw t at h)
            ];
            none_new = λ l n. w.none_new l (q.1.none_new l n);
            others = λ l h x p.
                let t : same_key k l ≡ false = ground (arith, h) in
                let u : has_key l ks ≡ false = ground (arith, h) in
                let (y, e, s) = q.1.others l x (λ i. cc ((same_key_iff k l).1 i, t)) p in
                let (z, d, o) = w.others l u y e in (z, d, o ∙ s);
          }))

pub has_key-keys_from :
    (fl : ℕ) (objects : ℕ → ScoreBoardElement) (m : List (Key × ℕ)) (l : Key) (a : ℕ)
    → find_key l m ≡ some a
    → (l.source == fl) ≡ true
    → key_of (objects a) ≡ l
    → has_key l (keys_from fl objects m) ≡ true
has_key-keys_from fl objects [] l a f s e = cc
has_key-keys_from fl objects ((k, x) ∷ m) l a f s e = elim (Bool-cases (same_key k l)) [
  | inl t ↦
      let q = (same_key_iff k l).0 t in
      let y : x ≡ a = some-injective _ _ (rw t at f) in
      let g : (k.source == fl) ≡ true = ap (λ i. i.source == fl) q ∙ s in
      let h : same_key (key_of (objects x)) l ≡ true =
        (same_key_iff (key_of (objects x)) l).1 (ap (λ i. key_of (objects i)) y ∙ e) in
      rw (g, h)
  | inr t ↦
      let r = has_key-keys_from fl objects m l a (rw t at f) s e in
      elim (Bool-cases (k.source == fl)) [ inl g ↦ rw g (ground (arith, r)) | inr g ↦ rw g r ]
]

pub has_key-keys_to :
    (fl : ℕ) (objects : ℕ → ScoreBoardElement) (d : List (ℕ × ℕ)) (l : Key) (a : ℕ)
    → is_in fl a d ≡ true
    → key_of (objects a) ≡ l
    → has_key l (keys_to fl objects d) ≡ true
has_key-keys_to fl objects [] l a f e = cc
has_key-keys_to fl objects ((g, x) ∷ d) l a f e = elim (Bool-cases ((g == fl) && (x == a))) [
  | inl t ↦
      let y : x ≡ a = ground (arith, t) in
      let q : (g == fl) ≡ true = ground (arith, t) in
      let h : same_key (key_of (objects x)) l ≡ true =
        (same_key_iff (key_of (objects x)) l).1 (ap (λ i. key_of (objects i)) y ∙ e) in
      rw (q, h)
  | inr t ↦
      let r = has_key-keys_to fl objects d l a (rw t at f) e in
      elim (Bool-cases (g == fl)) [ inl q ↦ rw q (ground (arith, r)) | inr q ↦ rw q r ]
]

pub find_key-erase_source :
    (fl : ℕ) (l : Key) (m : List (Key × ℕ))
    → find_key l (erase_source fl m) ≡ (if l.source == fl then none else find_key l m)
find_key-erase_source fl l [] = elim (Bool-cases (l.source == fl)) [ inl g ↦ rw g | inr g ↦ rw g ]
find_key-erase_source fl l ((k, a) ∷ m) =
    let r = find_key-erase_source fl l m in
    elim (Bool-cases (same_key k l)) [
      | inl t ↦
          let q = ap (λ i. i.source == fl) ((same_key_iff k l).0 t) in
          elim (Bool-cases (l.source == fl)) [
            | inl g ↦ rw (q ∙ g, g) (rw g at r)
            | inr g ↦ rw (q ∙ g, g, t)
          ]
      | inr t ↦ elim (Bool-cases (k.source == fl)) [ inl g ↦ rw (g, t) r | inr g ↦ rw (g, t) r ]
    ]

pub erase_source-Distinct :
    (fl : ℕ) (m : List (Key × ℕ)) → Distinct m → Distinct (erase_source fl m)
erase_source-Distinct fl [] d = tt
erase_source-Distinct fl ((k, a) ∷ m) d = elim (Bool-cases (k.source == fl)) [
  | inl g ↦ rw g (erase_source-Distinct fl m d.1)
  | inr g ↦ rw g (rw (g, d.0) at (find_key-erase_source fl k m), erase_source-Distinct fl m d.1)
]

-- Only keys from or to the list are collected.
pub keys_from-source :
    (fl : ℕ) (objects : ℕ → ScoreBoardElement) (m : List (Key × ℕ)) (l : Key)
    → Distinct m
    → ((k : Key) (a : ℕ) → find_key k m ≡ some a → key_of (objects a) ≡ k)
    → has_key l (keys_from fl objects m) ≡ true
    → (l.source == fl) ≡ true
keys_from-source fl objects [] l d f h = cc
keys_from-source fl objects ((k, x) ∷ m) l d f h =
    let tail = λ (j : Key) (a : ℕ) (e : find_key j m ≡ some a).
      let n : same_key k j ≡ false = elim (Bool-cases (same_key k j)) [
        | inl t ↦ cc (ap (λ i. find_key i m) ((same_key_iff k j).0 t), d.0, e)
        | inr t ↦ t
      ] in
      f j a (rw n e) in
    elim (Bool-cases (k.source == fl)) [
      | inl g ↦ elim (Bool-cases (same_key (key_of (objects x)) l)) [
        | inl t ↦
            let q : key_of (objects x) ≡ k = f k x (rw (same_key_refl k)) in
            ap (λ i. i.source == fl) (sym ((same_key_iff _ l).0 t) ∙ q) ∙ g
        | inr t ↦ keys_from-source fl objects m l d.1 tail (rw (g, t) at h)
      ]
      | inr g ↦ keys_from-source fl objects m l d.1 tail (rw g at h)
    ]

pub keys_to-destination :
    (fl : ℕ) (objects : ℕ → ScoreBoardElement) (d : List (ℕ × ℕ)) (l : Key)
    → ((a : ℕ) → is_in fl a d ≡ true → ((objects a).fld == fl) ≡ true)
    → has_key l (keys_to fl objects d) ≡ true
    → (l.destination == fl) ≡ true
keys_to-destination fl objects [] l f h = cc
keys_to-destination fl objects ((g, x) ∷ d) l f h =
    let tail = λ (a : ℕ) (e : is_in fl a d ≡ true). f a (ground (arith, e)) in
    elim (Bool-cases (g == fl)) [
      | inl q ↦ elim (Bool-cases (same_key (key_of (objects x)) l)) [
        | inl t ↦
            ap (λ i. i.destination == fl) (sym ((same_key_iff _ l).0 t)) ∙ f x (ground (arith, q))
        | inr t ↦ keys_to-destination fl objects d l tail (rw (q, t) at h)
      ]
      | inr q ↦ keys_to-destination fl objects d l tail (rw q at h)
    ]

pub is_in-erase_destination :
    (fl f a : ℕ) (d : List (ℕ × ℕ))
    → is_in f a (erase_destination fl d) ≡ not (f == fl) && is_in f a d
is_in-erase_destination fl f a [] = ground arith
is_in-erase_destination fl f a ((g, x) ∷ d) = ground (arith, is_in-erase_destination fl f a d)
