-- ===== src/HourlyAllTracking/Rotation.antt =====
-- What the loops of src/hourlyalltracking.cpp do to the hours.
use cbftp.Common.{
  ℕ, zero, suc, ◌-◌, ◌≤◌, ◌<◌, ◌≡◌, refl, ap, ◌∙◌, some, List, [], ◌∷◌, ◌++◌, length, get_elem?,
  set, take, drop, arith, length-set, sub64,
}
use mathlib.Core.List.{append-nil}
use cbftp.HourlyAllTracking.{shift, rotate}

pub get_elem?-some {ℓ} :
    {A : Type ℓ} (xs : List A) (i : ℕ) → i < length xs → (a : A) × (get_elem? xs i ≡ some a)
get_elem?-some [] i h = absurd (omega arith)
get_elem?-some (x ∷ xs) zero h = (x, refl)
get_elem?-some (x ∷ xs) (suc i) h = get_elem?-some xs i (omega arith)

slide :
    (n x : ℕ) (xs : List ℕ) (g : ℕ)
    → n < length xs
    → get_elem? (x ∷ xs) n ≡ some g
    → take n (x ∷ set xs n g) ++ drop n (set xs n g) ≡ x ∷ (take n xs ++ drop (suc n) xs)
slide n x [] g h e = absurd (omega arith)
slide zero x (y ∷ ys) g h e = ground arith
slide (suc n) x (y ∷ ys) g h e = ap (◌∷◌ x) (slide n y ys g (omega arith) e)

-- The loop moves every count up to the n-th one place on.
shift_lem :
    (n x : ℕ) (xs : List ℕ)
    → n ≤ length xs
    → shift n (x ∷ xs) ≡ some (x ∷ (take n (x ∷ xs) ++ drop n xs))
unfolding shift
shift_lem zero x xs h = refl
shift_lem (suc n) x xs h =
    let (g, e) = get_elem?-some (x ∷ xs) n (omega arith) in
    rw (e, shift)
      (shift_lem n x (set xs n g) (omega (arith, length-set xs n g))
        ∙ ap (λ l. some (x ∷ l)) (slide n x xs g (omega arith) e))

drop-all {ℓ} : {A : Type ℓ} (n : ℕ) (xs : List A) → length xs ≤ n → drop n xs ≡ []
drop-all zero [] h = refl
drop-all (suc n) [] h = refl
drop-all zero (x ∷ xs) h = absurd (omega arith)
drop-all (suc n) (x ∷ xs) h = drop-all n xs (omega arith)

shift_day : (x : ℕ) (xs : List ℕ) → length xs ≡ 23 → shift 23 (x ∷ xs) ≡ some (x ∷ take 23 (x ∷ xs))
shift_day x xs h =
    shift_lem 23 x xs (omega arith)
    ∙ ap (λ l. some (x ∷ l)) (rw (drop-all 23 xs (omega arith)) (append-nil (take 23 (x ∷ xs))))

-- One round drops the oldest hour, and begins a new one with no count.
pub rotate_lem :
    (x : ℕ) (xs : List ℕ) (last all minutes o : ℕ)
    → length xs ≡ 23
    → get_elem? (x ∷ xs) 23 ≡ some o
    → rotate (record {
      hours = x ∷ xs;
      last24hours = last;
      all = all;
      minutessincelastrotation = minutes;
    })
      ≡ some (record {
        hours = 0 ∷ take 23 (x ∷ xs);
        last24hours = sub64 last o;
        all = all;
        minutessincelastrotation = minutes - 60;
      })
unfolding rotate
rotate_lem x xs last all minutes o h e = rw (e, shift_day x xs h)
