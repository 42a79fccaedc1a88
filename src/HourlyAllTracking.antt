-- ===== src/HourlyAllTracking.antt =====
-- src/hourlyalltracking.h and src/hourlyalltracking.cpp: a count for each of the last 24 hours, their
-- sum, and a total. `none` is an access outside the vector. Counts wrap around at 64 bits, minutes and
-- timestamps at 32; the system's time is an argument.
pub mod Rotation
pub mod Sums
mod Examples
use cbftp.Common.{
  ℕ, zero, suc, ◌+◌, ◌-◌, ◌*◌, ◌/◌, true, false, Option, none, some, List, [], ◌∷◌, if◌then◌else◌,
  ltb, leb, get_elem?, set, replicate, u64, u32, sub64, sub32, ◌>>=◌,
}

pub record HourlyAllTracking : Type 0 where
  pub hours : List ℕ
  pub last24hours : ℕ
  pub all : ℕ
  pub minutessincelastrotation : ℕ

unfoldable pub new : HourlyAllTracking
new = record { hours = replicate 24 0; last24hours = 0; all = 0; minutessincelastrotation = 0 }

pub reset_hours : HourlyAllTracking → HourlyAllTracking
reset_hours s = record s { hours = replicate 24 0; last24hours = 0; minutessincelastrotation = 0 }

pub reset : HourlyAllTracking → HourlyAllTracking
unfolding reset_hours
reset s = record (reset_hours s) { all = 0 }

pub set_all : ℕ → HourlyAllTracking → HourlyAllTracking
set_all count s = record s { all = count }

unfoldable pub add : ℕ → HourlyAllTracking → Option HourlyAllTracking
add value s = get_elem? s.hours 0 >>= λ first. some (record s {
  hours = set s.hours 0 (u64 (first + value));
  last24hours = u64 (s.last24hours + value);
  all = u64 (s.all + value);
})

-- `for (int i = n; i > 0; --i) hours[i] = hours[i - 1];`
pub shift : ℕ → List ℕ → Option (List ℕ)
shift zero hours = some hours
shift (suc i) hours = elim (get_elem? hours i) [
  | none ↦ none
  | some h ↦ shift i (set hours (suc i) h)
]

-- One round of the `while` loop.
pub rotate : HourlyAllTracking → Option HourlyAllTracking
unfolding shift
rotate s = get_elem? s.hours 23 >>= λ oldest.
    (shift 23 s.hours >>= λ shifted. some (record s {
      minutessincelastrotation = s.minutessincelastrotation - 60;
      last24hours = sub64 s.last24hours oldest;
      hours = set shifted 0 0;
    }))

pub rotate_while : ℕ → HourlyAllTracking → Option HourlyAllTracking
rotate_while zero s = none
rotate_while (suc f) s = elim (leb 60 s.minutessincelastrotation) [
  | true ↦ elim (rotate s) [ none ↦ none | some t ↦ rotate_while f t ]
  | false ↦ some s
]

-- The loop starts with less than 24 hours.
pub check_rotate : HourlyAllTracking → Option HourlyAllTracking
unfolding rotate_while reset_hours
check_rotate s =
    let t = if leb (24 * 60) s.minutessincelastrotation then reset_hours s else s in
    rotate_while 24 t

pub tick_minute : HourlyAllTracking → Option HourlyAllTracking
unfolding check_rotate
tick_minute s =
    check_rotate (record s { minutessincelastrotation = u32 (s.minutessincelastrotation + 1) })

pub get_start_timestamp : ℕ → HourlyAllTracking → ℕ
get_start_timestamp currtime s = sub32 currtime (u32 (s.minutessincelastrotation * 60))

-- The loop over the given hours.
pub sum_from : ℕ → List ℕ → ℕ
sum_from acc [] = acc
sum_from acc (h ∷ hs) = sum_from (u64 (acc + h)) hs

pub set_hours : List ℕ → ℕ → ℕ → HourlyAllTracking → Option HourlyAllTracking
unfolding reset_hours sum_from check_rotate
set_hours hours timestamp currtime s =
    let t = record (reset_hours s) { hours = hours; last24hours = sum_from 0 hours } in
    if leb currtime timestamp
    then some t
    else check_rotate (record t { minutessincelastrotation = (currtime - timestamp) / 60 })
