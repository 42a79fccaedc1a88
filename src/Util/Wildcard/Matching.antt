-- ===== src/Util/Wildcard/Matching.antt =====
-- What it means for a text to match a pattern, with no search order in it.
use cbftp.Common.{ℕ, ◌≡◌, ◌≢◌, refl, ◌⊎◌, inl, inr, Bool, true, [], ◌∷◌, Bytes}
use cbftp.Util.Wildcard.{star}

pub data Matches (test : ℕ → ℕ → Bool) : Bytes → Bytes → Type 0 where
  done : Matches test [] []
  byte :
      {w c : ℕ} {p s : Bytes}
      → w ≢ star
      → test w c ≡ true
      → Matches test p s
      → Matches test (w ∷ p) (c ∷ s)
  skip : {w : ℕ} {p s : Bytes} → w ≡ star → Matches test p s → Matches test (w ∷ p) s
  take : {w c : ℕ} {p s : Bytes} → w ≡ star → Matches test (w ∷ p) s → Matches test (w ∷ p) (c ∷ s)

module _ {test : ℕ → ℕ → Bool} where
  -- A character that is no star consumes one byte, which it accepts.
  pub byte_inv :
      {w c : ℕ} {p s : Bytes}
      → w ≢ star
      → Matches test (w ∷ p) (c ∷ s)
      → (test w c ≡ true) × Matches test p s
  byte_inv n (byte _ h m) = (h, m)
  byte_inv n (skip e m) = absurd (n e)
  byte_inv n (take e m) = absurd (n e)

  -- A star stands for nothing, or for one byte and more.
  pub star_inv :
      {p : Bytes} {c : ℕ} {s : Bytes}
      → Matches test (star ∷ p) (c ∷ s)
      → Matches test p (c ∷ s) ⊎ Matches test (star ∷ p) s
  star_inv (byte n h m) = absurd (n refl)
  star_inv (skip e m) = inl m
  star_inv (take e m) = inr m

  pub star_end : {p : Bytes} → Matches test (star ∷ p) [] → Matches test p []
  star_end (skip e m) = m

  pub byte_end : {w : ℕ} {p : Bytes} → w ≢ star → ¬ Matches test (w ∷ p) []
  byte_end n (skip e m) = n e

  pub star_all : (s : Bytes) → Matches test (star ∷ []) s
  star_all [] = skip refl done
  star_all (c ∷ s) = take refl (star_all s)

  pub two_stars : (p s : Bytes) → Matches test (star ∷ star ∷ p) s → Matches test (star ∷ p) s
  two_stars p [] m = star_end m
  two_stars p (c ∷ s) m = elim (star_inv m) [ inl h ↦ h | inr h ↦ take refl (two_stars p s h) ]

  -- Wherever `w` is matched, the rest of the pattern begins after the first byte.
  pub star_byte :
      (w : ℕ) (p : Bytes) (c : ℕ) (s : Bytes)
      → w ≢ star
      → Matches test (star ∷ w ∷ p) (c ∷ s)
      → Matches test (star ∷ p) s
  star_byte w p c [] n m = elim (star_inv m) [
    | inl h ↦ skip refl (byte_inv n h).1
    | inr h ↦ absurd (byte_end n (star_end h))
  ]
  star_byte w p c (d ∷ s) n m = elim (star_inv m) [
    | inl h ↦ skip refl (byte_inv n h).1
    | inr h ↦ take refl (star_byte w p d s n h)
  ]
