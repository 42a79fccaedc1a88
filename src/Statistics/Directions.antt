-- ===== src/Statistics/Directions.antt =====
-- The six counts of src/statistics.cpp stay consistent, and a file is counted in its direction alone.
use cbftp.Common.{
  ℕ, zero, suc, ◌+◌, ◌<◌, ◌≡◌, ◌≢◌, inl, inr, Option-cases, get_elem?, refl, Option, none, some,
  arith, u32_mod, u64, u32, Returns, Returns-bind,
}
use cbftp.HourlyAllTracking.{HourlyAllTracking}
use cbftp.HourlyAllTracking
use cbftp.HourlyAllTracking.Sums.{IsConsistent}
use cbftp.HourlyAllTracking.Sums.Calls.{Call, step, step-IsConsistent}
use cbftp.Statistics.{
  Statistics, StatsDirection, stats_up, stats_down, stats_fxp, tick_second, tick,
  add_transfer_stats_file, add_file_list_refresh,
}

pub record AllConsistent (s : Statistics) : Type 0 where
  pub sizedown : IsConsistent s.sizedown
  pub filesdown : IsConsistent s.filesdown
  pub sizeup : IsConsistent s.sizeup
  pub filesup : IsConsistent s.filesup
  pub sizefxp : IsConsistent s.sizefxp
  pub filesfxp : IsConsistent s.filesfxp

add_all :
    (n : ℕ) (s t : HourlyAllTracking) → HourlyAllTracking.add n s ≡ some t → t.all ≡ u64 (s.all + n)
unfolding HourlyAllTracking.add
add_all n s t e = elim (Option-cases (get_elem? s.hours 0)) [
  | inl h ↦ ground (arith, e, h)
  | inr (first, h) ↦ ground (arith, e, h)
]

Counted : ℕ → HourlyAllTracking → HourlyAllTracking → Type 0
Counted n s t = IsConsistent t × (t.all ≡ u64 (s.all + n))

Returns-with :
    {A : Type 0} (P Q : A → Type 0) (m : Option A)
    → Returns P m
    → ((a : A) → m ≡ some a → Q a)
    → Returns (λ a. P a × Q a) m
Returns-with P Q none h k = h
Returns-with P Q (some a) h k = (h, k a refl)

add-Counted :
    (n : ℕ) (s : HourlyAllTracking)
    → IsConsistent s
    → Returns (Counted n s) (HourlyAllTracking.add n s)
unfolding step Counted
add-Counted n s v =
    Returns-with IsConsistent (λ t. t.all ≡ u64 (s.all + n)) _ (step-IsConsistent (Call.adds n) s v)
      (add_all n s)

abbrev pub size_of : StatsDirection → Statistics → HourlyAllTracking
size_of stats_up s = s.sizeup
size_of stats_down s = s.sizedown
size_of stats_fxp s = s.sizefxp

abbrev pub files_of : StatsDirection → Statistics → HourlyAllTracking
files_of stats_up s = s.filesup
files_of stats_down s = s.filesdown
files_of stats_fxp s = s.filesfxp

-- What counting a file of a size does to the counts of every direction.
pub record CountsFile (d : StatsDirection) (size : ℕ) (s t : Statistics) : Type 0 where
  pub consistent : AllConsistent t
  pub size_added : (size_of d t).all ≡ u64 ((size_of d s).all + size)
  pub file_added : (files_of d t).all ≡ u64 ((files_of d s).all + 1)
  pub others :
      (e : StatsDirection) → e ≢ d → (size_of e t ≡ size_of e s) × (files_of e t ≡ files_of e s)

-- Counting a transferred file runs through on consistent counts, leaves all six consistent, adds the
-- size and 1 to the totals of its direction (at 64 bits), and leaves the other directions' counts alone.
pub add_transfer_stats_file-CountsFile :
    (d : StatsDirection) (size : ℕ) (s : Statistics)
    → AllConsistent s
    → Returns (CountsFile d size s) (add_transfer_stats_file d size s)
unfolding add_transfer_stats_file Counted
add_transfer_stats_file-CountsFile stats_up size s v =
    let bind = Returns-bind {B = Statistics} in
    bind (Counted size s.sizeup) (CountsFile stats_up size s) _ _
      (add-Counted size s.sizeup v.sizeup)
      λ a va.
        bind (Counted 1 s.filesup) (CountsFile stats_up size s) _ _
          (add-Counted 1 s.filesup v.filesup)
          λ b vb. record {
            consistent = record {
              sizedown = v.sizedown;
              sizeup = va.0;
              sizefxp = v.sizefxp;
              filesdown = v.filesdown;
              filesup = vb.0;
              filesfxp = v.filesfxp;
            };
            size_added = va.1;
            file_added = vb.1;
            others = elim [
              | stats_up ↦ λ n. absurd (n refl)
              | stats_down ↦ λ n. (refl, refl)
              | stats_fxp ↦ λ n. (refl, refl)
            ];
          }
add_transfer_stats_file-CountsFile stats_down size s v =
    let bind = Returns-bind {B = Statistics} in
    bind (Counted size s.sizedown) (CountsFile stats_down size s) _ _
      (add-Counted size s.sizedown v.sizedown)
      λ a va.
        bind (Counted 1 s.filesdown) (CountsFile stats_down size s) _ _
          (add-Counted 1 s.filesdown v.filesdown)
          λ b vb. record {
            consistent = record {
              sizedown = va.0;
              sizeup = v.sizeup;
              sizefxp = v.sizefxp;
              filesdown = vb.0;
              filesup = v.filesup;
              filesfxp = v.filesfxp;
            };
            size_added = va.1;
            file_added = vb.1;
            others = elim [
              | stats_up ↦ λ n. (refl, refl)
              | stats_down ↦ λ n. absurd (n refl)
              | stats_fxp ↦ λ n. (refl, refl)
            ];
          }
add_transfer_stats_file-CountsFile stats_fxp size s v =
    let bind = Returns-bind {B = Statistics} in
    bind (Counted size s.sizefxp) (CountsFile stats_fxp size s) _ _
      (add-Counted size s.sizefxp v.sizefxp)
      λ a va.
        bind (Counted 1 s.filesfxp) (CountsFile stats_fxp size s) _ _
          (add-Counted 1 s.filesfxp v.filesfxp)
          λ b vb. record {
            consistent = record {
              sizedown = v.sizedown;
              sizeup = v.sizeup;
              sizefxp = va.0;
              filesdown = v.filesdown;
              filesup = v.filesup;
              filesfxp = vb.0;
            };
            size_added = va.1;
            file_added = vb.1;
            others = elim [
              | stats_up ↦ λ n. (refl, refl)
              | stats_down ↦ λ n. (refl, refl)
              | stats_fxp ↦ λ n. absurd (n refl)
            ];
          }

-- `n` calls of `addFileListRefresh`.
pub refreshes : ℕ → Statistics → Statistics
refreshes zero s = s
refreshes (suc n) s = refreshes n (add_file_list_refresh s)

refreshes-counted :
    (n : ℕ) (s : Statistics)
    → s.currentsecondrefreshtrack < u32_mod
    → (refreshes n s).currentsecondrefreshtrack ≡ u32 (s.currentsecondrefreshtrack + n)
unfolding refreshes add_file_list_refresh
refreshes-counted zero s h = omega arith
refreshes-counted (suc n) s h =
    omega (arith, refreshes-counted n (add_file_list_refresh s) (omega arith))

-- After a tick of the second, any number of refreshes and the next tick, the rate is the number of
-- those refreshes at 32 bits, and counting starts again.
pub tick-refreshes :
    (n : ℕ) (s t : Statistics)
    → tick tick_second s ≡ some t
    → Returns
        (λ u. (u.lastsecondrefreshtrack ≡ u32 n) × (u.currentsecondrefreshtrack ≡ 0))
        (tick tick_second (refreshes n t))
unfolding tick
tick-refreshes n s t e =
    let z : t.currentsecondrefreshtrack ≡ 0 = ground (arith, e) in
    (omega (arith, refreshes-counted n t (omega arith)), refl)
