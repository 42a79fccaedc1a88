-- ===== src/Util/Wildcard/Examples.antt =====
-- Runs of the wildcard matcher of src/util.cpp.
use cbftp.Common.{◌≡◌, ◌↔◌, refl, true, false, some, codes, Returns}
use cbftp.Util.Wildcard.{same, wildcmp, wildcmp_case}
use cbftp.Util.Wildcard.Matching.{Matches}
use cbftp.Util.Wildcard.Correct.{wildcmp_decides}

backtracks : wildcmp (codes "*.r?0") (codes "File.r0.R10") ≡ some true
unfolding wildcmp
backtracks = refl

case_matters : wildcmp_case (codes "*.NFO") (codes "a.nfo") ≡ some false
unfolding wildcmp_case
case_matters = refl

star_at_end : wildcmp (codes "ab**") (codes "AB") ≡ some true
unfolding wildcmp
star_at_end = refl

wildcmp_decides_example :
    Returns
      (λ b. (b ≡ true) ↔ Matches same (codes "*a?") (codes "xAaB"))
      (wildcmp (codes "*a?") (codes "xAaB"))
wildcmp_decides_example = wildcmp_decides (codes "*a?") (codes "xAaB")
