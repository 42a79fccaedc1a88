-- ===== src/HourlyAllTracking/Sums.antt =====
-- The sum that src/hourlyalltracking.cpp keeps is the sum of its hours, and time ages the hours.
pub mod Calls
pub mod Time
use cbftp.Common.{
  ℕ, zero, suc, ◌+◌, ◌-◌, ◌*◌, ◌/◌, ◌%◌, ◌≤◌, ◌<◌, ◌≡◌, refl, sym, ap, ap₂, ◌∙◌, Option, none, some,
  List, [], ◌∷◌, length, get_elem?, set, take, replicate, arith, u64_mod, u32_mod, u64, sub64, true,
  false, leb, Bool-cases, inl, inr, length-take, Returns,
}
use cbftp.HourlyAllTracking.{
  HourlyAllTracking, new, add, tick_minute, check_rotate, rotate_while, rotate, reset_hours, reset,
  set_all, set_hours, sum_from,
}
use cbftp.HourlyAllTracking.Rotation.{rotate_lem, get_elem?-some}

abbrev pub sum : List ℕ → ℕ
sum [] = 0
sum (h ∷ hs) = h + sum hs

abbrev pub AllBelow : ℕ → List ℕ → Type 0
AllBelow n [] = Unit {0}
AllBelow n (h ∷ hs) = (h < n) × AllBelow n hs

-- A day of counts, the minutes of one hour, and the sum of the counts, as far as 64 bits hold it.
pub record IsConsistent (s : HourlyAllTracking) : Type 0 where
  pub day : length s.hours ≡ 24
  pub words : AllBelow u64_mod s.hours
  pub summed : s.last24hours ≡ u64 (sum s.hours)
  pub hour : s.minutessincelastrotation < 60

-- The hours after `k` hours more.
abbrev pub age : ℕ → List ℕ → List ℕ
age zero hours = hours
age (suc k) hours = age k (0 ∷ take 23 hours)

abbrev pub at_time : List ℕ → ℕ → ℕ → HourlyAllTracking
at_time hours all minutes = record {
  hours = hours;
  last24hours = u64 (sum hours);
  all = all;
  minutessincelastrotation = minutes;
}

pub sum-take :
    (n : ℕ) (hs : List ℕ) (o : ℕ)
    → length hs ≡ suc n
    → get_elem? hs n ≡ some o
    → sum (take n hs) + o ≡ sum hs
sum-take n [] o h e = absurd (omega arith)
sum-take zero (x ∷ []) o h e = ground arith
sum-take zero (x ∷ y ∷ ys) o h e = absurd (omega arith)
sum-take (suc n) (x ∷ xs) o h e = omega (arith, sum-take n xs o (omega arith) e)

AllBelow-get_elem? :
    (m n : ℕ) (hs : List ℕ) (o : ℕ) → AllBelow m hs → get_elem? hs n ≡ some o → o < m
AllBelow-get_elem? m n [] o a e = cc
AllBelow-get_elem? m zero (x ∷ xs) o a e = ground arith
AllBelow-get_elem? m (suc n) (x ∷ xs) o a e = AllBelow-get_elem? m n xs o a.1 e

pub AllBelow-take : (m n : ℕ) (hs : List ℕ) → AllBelow m hs → AllBelow m (take n hs)
AllBelow-take m zero hs a = tt
AllBelow-take m (suc n) [] a = tt
AllBelow-take m (suc n) (x ∷ xs) a = (a.0, AllBelow-take m n xs a.1)

rotate_day :
    (hours : List ℕ) (all minutes : ℕ)
    → length hours ≡ 24
    → AllBelow u64_mod hours
    → rotate (at_time hours all minutes) ≡ some (at_time (0 ∷ take 23 hours) all (minutes - 60))
rotate_day [] all minutes h a = absurd (omega arith)
rotate_day (x ∷ xs) all minutes h a =
    let (o, e) = get_elem?-some (x ∷ xs) 23 (omega arith) in
    let total = sum-take 23 (x ∷ xs) o h e in
    let below = AllBelow-get_elem? u64_mod 23 (x ∷ xs) o a e in
    rotate_lem x xs (u64 (sum (x ∷ xs))) all minutes o (omega arith) e
    ∙ ap
        (λ last. some (record {
          hours = 0 ∷ take 23 (x ∷ xs);
          last24hours = last;
          all = all;
          minutessincelastrotation = minutes - 60;
        }))
        (omega arith)

pub rotate_while_lem :
    (f : ℕ) (hours : List ℕ) (all minutes : ℕ)
    → length hours ≡ 24
    → AllBelow u64_mod hours
    → minutes / 60 < f
    → rotate_while f (at_time hours all minutes)
      ≡ some (at_time (age (minutes / 60) hours) all (minutes % 60))
unfolding rotate_while
rotate_while_lem zero hours all minutes h a b = absurd (omega arith)
rotate_while_lem (suc f) hours all minutes h a b = elim (Bool-cases (leb 60 minutes)) [
  | inl e ↦
      let k : minutes / 60 ≡ suc ((minutes - 60) / 60) = ground arith in
      let r : minutes % 60 ≡ (minutes - 60) % 60 = ground arith in
      rw (e, rotate_while, rotate_day hours all minutes h a, k, r)
        (rotate_while_lem f (0 ∷ take 23 hours) all (minutes - 60)
          (omega (arith, length-take 23 hours)) (omega arith, AllBelow-take u64_mod 23 hours a)
          (ground arith))
  | inr e ↦
      let k : minutes / 60 ≡ 0 = ground arith in
      let r : minutes % 60 ≡ minutes = ground arith in rw (e, rotate_while, k, r)
]
