-- ===== src/ScoreBoard/Maps.antt =====
-- The maps of src/scoreboard.cpp after a change.
use cbftp.Common.{
  ℕ, ◌≡◌, ◌↔◌, ◌≢◌, refl, sym, ap, subst₂, ◌∙◌, ◌==◌, Bool, true, false, not, ◌&&◌, ◌||◌, inl, inr,
  none, some, List, [], ◌∷◌, same_text, same_text_iff, ==_iff, Bool-cases, arith,
}
use cbftp.ScoreBoard.{
  Key, same_key, find_key, erase_key, assign_key, is_in, erase_pair, insert_pair,
}

key_path :
    (k l : Key) → k.source ≡ l.source → k.destination ≡ l.destination → k.file ≡ l.file → k ≡ l
key_path k l a b c = cc

pub same_key_iff : (k l : Key) → (same_key k l ≡ true) ↔ (k ≡ l)
same_key_iff k l = (
  λ e.
      let a : k.source ≡ l.source = ground (arith, e) in
      let b : k.destination ≡ l.destination = ground (arith, e) in
      let c : same_text k.file l.file ≡ true = ground (arith, e) in
      key_path k l a b ((same_text_iff k.file l.file).0 c),
  λ e.
      let a : (k.source == l.source) ≡ true = (==_iff _ _).1 (ap (λ x. x.source) e) in
      let b : (k.destination == l.destination) ≡ true =
        (==_iff _ _).1 (ap (λ x. x.destination) e) in
      let c : same_text k.file l.file ≡ true = (same_text_iff _ _).1 (ap (λ x. x.file) e) in
      rw (a, b, c),
)

pub same_key_refl : (k : Key) → same_key k k ≡ true
same_key_refl k = (same_key_iff k k).1 refl

different : (k l : Key) → k ≢ l → same_key k l ≡ false
different k l h = elim (Bool-cases (same_key k l)) [
  | inl e ↦ absurd (h ((same_key_iff k l).0 e))
  | inr e ↦ e
]

pub find_key-erase_self : (k : Key) (m : List (Key × ℕ)) → find_key k (erase_key k m) ≡ none
find_key-erase_self k [] = refl
find_key-erase_self k ((l, a) ∷ m) = elim (Bool-cases (same_key l k)) [
  | inl e ↦ rw e (find_key-erase_self k m)
  | inr e ↦ rw (e, e) (find_key-erase_self k m)
]

pub find_key-erase_ne :
    (k l : Key) (m : List (Key × ℕ)) → k ≢ l → find_key l (erase_key k m) ≡ find_key l m
find_key-erase_ne k l [] h = refl
find_key-erase_ne k l ((p, a) ∷ m) h = elim (Bool-cases (same_key p k)) [
  | inl e ↦
      let f : same_key p l ≡ false = different p l (λ q. h (sym ((same_key_iff p k).0 e) ∙ q)) in
      rw (e, f) (find_key-erase_ne k l m h)
  | inr e ↦ elim (Bool-cases (same_key p l)) [
    | inl f ↦ rw (e, f)
    | inr f ↦ rw (e, f) (find_key-erase_ne k l m h)
  ]
]

pub find_key-assign_self :
    (k : Key) (a : ℕ) (m : List (Key × ℕ)) → find_key k (assign_key k a m) ≡ some a
find_key-assign_self k a m = rw (same_key_refl k)

pub find_key-assign_ne :
    (k l : Key) (a : ℕ) (m : List (Key × ℕ)) → k ≢ l → find_key l (assign_key k a m) ≡ find_key l m
find_key-assign_ne k l a m h =
    let f : same_key k l ≡ false = different k l h in rw f (find_key-erase_ne k l m h)

-- Membership of the set of pairs.
abbrev pub same_pair : ℕ → ℕ → ℕ → ℕ → Bool
same_pair f a g b = (f == g) && (a == b)

pub is_in-insert :
    (f a g b : ℕ) (d : List (ℕ × ℕ))
    → is_in g b (insert_pair f a d) ≡ same_pair f a g b || is_in g b d
is_in-insert f a g b d = elim (Bool-cases (is_in f a d)) [
  | inl e ↦ elim (Bool-cases (same_pair f a g b)) [
    | inl t ↦
        let p : f ≡ g = ground (arith, t) in
        let q : a ≡ b = ground (arith, t) in rw (e, t) (subst₂ (λ x y. is_in x y d ≡ true) p q e)
    | inr t ↦ rw (e, t)
  ]
  | inr e ↦ rw e
]

pub is_in-erase :
    (f a g b : ℕ) (d : List (ℕ × ℕ))
    → is_in g b (erase_pair f a d) ≡ not (same_pair f a g b) && is_in g b d
is_in-erase f a g b [] = ground arith
is_in-erase f a g b ((p, c) ∷ d) = ground (arith, is_in-erase f a g b d)

-- No key is there twice.
abbrev pub Distinct : List (Key × ℕ) → Type 0
Distinct [] = Unit {0}
Distinct ((k, a) ∷ m) = (find_key k m ≡ none) × Distinct m

pub erase_key-Distinct : (k : Key) (m : List (Key × ℕ)) → Distinct m → Distinct (erase_key k m)
erase_key-Distinct k [] d = tt
erase_key-Distinct k ((l, a) ∷ m) d = elim (Bool-cases (same_key l k)) [
  | inl e ↦ rw e (erase_key-Distinct k m d.1)
  | inr e ↦
      let n : k ≢ l = λ q. cc ((same_key_iff l k).1 (sym q), e) in
      rw e (find_key-erase_ne k l m n ∙ d.0, erase_key-Distinct k m d.1)
]

pub assign_key-Distinct :
    (k : Key) (a : ℕ) (m : List (Key × ℕ)) → Distinct m → Distinct (assign_key k a m)
assign_key-Distinct k a m d = (find_key-erase_self k m, erase_key-Distinct k m d)
