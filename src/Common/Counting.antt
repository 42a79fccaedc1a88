-- ===== src/Common/Counting.antt =====
-- How often a number is in a list.
use Prim.Native.Nat.{ℕ, ◌+◌}
use mathlib.Core.Path.{◌≡◌}
use mathlib.Core.List.{List, [], ◌∷◌, ◌++◌}
use native.Mathlib.Omega.{arith}
use cbftp.Common.Tests.{◌==◌, if◌then◌else◌}

abbrev pub times : ℕ → List ℕ → ℕ
times a [] = 0
times a (b ∷ es) = (if b == a then 1 else 0) + times a es

pub times-append : (a : ℕ) (es fs : List ℕ) → times a (es ++ fs) ≡ times a es + times a fs
times-append a [] fs = omega arith
times-append a (b ∷ es) fs = omega (arith, times-append a es fs)
