-- ===== src/ScoreBoard/Shown.antt =====
-- How often an element stands among those of src/scoreboard.cpp that are shown.
use cbftp.Common.{
  ℕ, zero, suc, ◌+◌, ◌<◌, ◌≡◌, refl, sym, ap, ◌∙◌, ◌==◌, leb, ltb, ◌&&◌, some, List, [], ◌∷◌,
  if◌then◌else◌, length, get_elem?, take, drop, take-append-drop, arith,
}
pub use cbftp.Common.{times, times-append}
use mathlib.Core.Logic.{∥∥₁_elim}
use native.Mathlib.Nat.{ℕ_set}
use mathlib.Core.List.{Perm, Permᴰ}
use mathlib.Core.Option.{some-injective}
use cbftp.ScoreBoard.Operations.{addresses}

pub times-take-drop :
    (a n : ℕ) (es : List ℕ) → times a (take n es) + times a (drop n es) ≡ times a es
times-take-drop a n es =
    sym (times-append a (take n es) (drop n es)) ∙ ap (times a) (take-append-drop n es)

pub times-take-suc :
    (a k x : ℕ) (es : List ℕ)
    → get_elem? es k ≡ some x
    → times a (take (suc k) es) ≡ times a (take k es) + (if x == a then 1 else 0)
times-take-suc a k x [] e = cc
times-take-suc a zero x (b ∷ es) e = let q : b ≡ x = some-injective _ _ e in rw q (omega arith)
times-take-suc a (suc k) x (b ∷ es) e = omega (arith, times-take-suc a k x es e)

pub get_elem?-some : (es : List ℕ) (k : ℕ) → k < length es → (x : ℕ) × (get_elem? es k ≡ some x)
get_elem?-some [] k h = absurd (omega (arith, h))
get_elem?-some (b ∷ es) zero h = (b, refl)
get_elem?-some (b ∷ es) (suc k) h = get_elem?-some es k (omega (arith, h))

times-perm_d : (a : ℕ) {es fs : List ℕ} → Permᴰ es fs → times a es ≡ times a fs
times-perm_d a Permᴰ.nil = refl
times-perm_d a (Permᴰ.cons e p) = rw e (omega (arith, times-perm_d a p))
times-perm_d a (Permᴰ.swap e f) = rw (e, f) (omega arith)
times-perm_d a (Permᴰ.trans p q) = times-perm_d a p ∙ times-perm_d a q

pub times-perm : (a : ℕ) (es fs : List ℕ) → Perm es fs → times a es ≡ times a fs
times-perm a es fs p = ∥∥₁_elim p (ℕ_set _ _) (times-perm_d a)

pub times-addresses :
    (a from n : ℕ) → times a (addresses from n) ≡ (if leb from a && ltb a (from + n) then 1 else 0)
times-addresses a from zero = ground arith
times-addresses a from (suc n) = ground (arith, times-addresses a (from + 1) n)

pub length-addresses : (from n : ℕ) → length (addresses from n) ≡ n
length-addresses from zero = refl
length-addresses from (suc n) = ap suc (length-addresses (from + 1) n)
