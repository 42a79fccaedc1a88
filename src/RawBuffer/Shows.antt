-- ===== src/RawBuffer/Shows.antt =====
-- A `Ring` of src/rawbuffer.cpp against the lines it shows, the newest first.
pub mod Put
use cbftp.Common.{
  ℕ, zero, suc, ◌+◌, ◌-◌, ◌≤◌, ◌<◌, ◌≡◌, ◌≢◌, refl, sym, ap, ◌∙◌, Option, none, some, List, [], ◌∷◌,
  ◌++◌, length, get_elem?, set, take, arith, true, false, ltb, leb, lt→ltb, ltb→lt, Bool-cases, ◌⊎◌,
  inl, inr, length-append, length-set, get_elem?-set_self, get_elem?-set_ne, length-take, subst,
  min, u32, u32_mod, Returns, ◌%◌, ◌>>=◌, assert, if◌then◌else◌,
}
use native.Mathlib.Nat.{mod-eq_of_lt, mod_self, mod-lt}
use cbftp.RawBuffer.{Line, Ring, get_line, put, advance, empty_ring}

-- The vector grows to `maxlength` lines with the index behind it, and keeps that length from then on.
pub record IsRing (maxlength : ℕ) (r : Ring) : Type 0 where
  pub room : (0 < maxlength) × (maxlength < u32_mod)
  pub index :
      ((r.latest ≡ length r.lines) × (length r.lines < maxlength))
      ⊎ ((length r.lines ≡ maxlength) × (r.latest < maxlength))

-- Number `num` shows line `num` of `h`, and a number out of range is refused.
pub record Shows (r : Ring) (h : List Line) : Type 0 where
  pub size : length r.lines ≡ length h
  pub shown : (num : ℕ) → get_line r num ≡ get_elem? h num

pub get_elem?-append_left :
    (xs ys : List Line) (i : ℕ) → i < length xs → get_elem? (xs ++ ys) i ≡ get_elem? xs i
get_elem?-append_left [] ys i h = elim h [ ]
get_elem?-append_left (x ∷ xs) ys zero h = refl
get_elem?-append_left (x ∷ xs) ys (suc i) h = get_elem?-append_left xs ys i (omega arith)

pub get_elem?-append_end :
    (xs : List Line) (y : Line) → get_elem? (xs ++ (y ∷ [])) (length xs) ≡ some y
get_elem?-append_end [] y = refl
get_elem?-append_end (x ∷ xs) y = get_elem?-append_end xs y

pub get_elem?-in : (xs : List Line) (i : ℕ) → i < length xs → (x : Line) × (get_elem? xs i ≡ some x)
get_elem?-in [] i h = elim h [ ]
get_elem?-in (x ∷ xs) zero h = (x, refl)
get_elem?-in (x ∷ xs) (suc i) h = get_elem?-in xs i (omega arith)

pub get_elem?-end : (xs : List Line) (i : ℕ) → length xs ≤ i → get_elem? xs i ≡ none
get_elem?-end [] i h = refl
get_elem?-end (x ∷ xs) zero h = absurd (omega arith)
get_elem?-end (x ∷ xs) (suc i) h = get_elem?-end xs i (omega arith)

pub get_elem?-take : (n i : ℕ) (xs : List Line) → i < n → get_elem? (take n xs) i ≡ get_elem? xs i
get_elem?-take zero i xs h = elim h [ ]
get_elem?-take (suc n) i [] h = refl
get_elem?-take (suc n) zero (x ∷ xs) h = refl
get_elem?-take (suc n) (suc i) (x ∷ xs) h = get_elem?-take n i xs (omega arith)

-- Where `getLine` looks, in and out of range.
abbrev pub place : ℕ → ℕ → ℕ → ℕ
place size latest num = if ltb num latest then latest - num - 1 else size + latest - num - 1

abbrev pub position : Ring → ℕ → ℕ
position r num = place (length r.lines) r.latest num

pub get_line_in :
    (r : Ring) (num : ℕ)
    → num < length r.lines
    → get_line r num ≡ get_elem? r.lines (position r num)
unfolding get_line
get_line_in r num h = rw (lt→ltb num (length r.lines) h)

pub get_line_out : (r : Ring) (num : ℕ) → length r.lines ≤ num → get_line r num ≡ none
unfolding get_line
get_line_out r num h = let e : ltb num (length r.lines) ≡ false = ground arith in rw e

-- The index moves on with wrap-around: the line at the old index gets number 0, the others move up.
pub wrapped : (p m : ℕ) → p < m → ((p + 1) % m ≡ p + 1) ⊎ (((p + 1) % m ≡ 0) × (p + 1 ≡ m))
wrapped p zero h = elim h [ ]
wrapped p (suc m) h = elim (Bool-cases (ltb p m)) [
  | inl e ↦ inl (mod-eq_of_lt (ground arith))
  | inr e ↦
      let k : p + 1 ≡ suc m = ground arith in inr (ap (λ n. n % suc m) k ∙ mod_self (suc m), k)
]

pub newest_place :
    (size p m : ℕ) → p < m → ((size ≡ p + 1) ⊎ (size ≡ m)) → place size ((p + 1) % m) 0 ≡ p
newest_place size p m h k = elim (wrapped p m h) [
  | inl e ↦ rw e (ground arith)
  | inr (e, f) ↦ rw e (ground arith)
]

pub older_place_grown :
    (p m num : ℕ) → p < m → num < p → place (p + 1) ((p + 1) % m) (suc num) ≡ place p p num
older_place_grown p m num h k = elim (wrapped p m h) [
  | inl e ↦ rw e (ground arith)
  | inr (e, f) ↦ rw e (ground arith)
]

pub older_place :
    (p m num : ℕ) → p < m → suc num < m → place m ((p + 1) % m) (suc num) ≡ place m p num
older_place p m num h k = elim (wrapped p m h) [
  | inl e ↦ rw e (ground arith)
  | inr (e, f) ↦ rw e (ground arith)
]

pub empty_ring-IsRing : (m : ℕ) → (0 < m) × (m < u32_mod) → IsRing m empty_ring
empty_ring-IsRing m h = record { room = h; index = inl (refl, h.0) }

pub empty_ring-Shows : Shows empty_ring []
empty_ring-Shows = record { size = refl; shown = λ num. get_line_out empty_ring num (omega arith) }
