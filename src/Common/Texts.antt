-- ===== src/Common/Texts.antt =====
-- The equality of texts, as a test.
use mathlib.Core.Path.{◌≡◌, refl, ap, ap₂}
use mathlib.Core.Logic.{◌↔◌}
use mathlib.Core.Bool.{Bool, true, false, ◌&&◌}
use mathlib.Core.List.{[], ◌∷◌}
use native.Mathlib.Omega.{arith}
use cbftp.Common.Lists.{Bytes, drop, get_or}
use cbftp.Common.Tests.{◌==◌}

-- `==` of texts.
abbrev pub same_text : Bytes → Bytes → Bool
same_text [] [] = true
same_text [] (d ∷ t) = false
same_text (c ∷ s) [] = false
same_text (c ∷ s) (d ∷ t) = (c == d) && same_text s t

pub same_text_iff : (s t : Bytes) → (same_text s t ≡ true) ↔ (s ≡ t)
same_text_iff [] [] = (λ e. refl, λ e. refl)
same_text_iff [] (d ∷ t) = ground arith
same_text_iff (c ∷ s) [] = ground arith
same_text_iff (c ∷ s) (d ∷ t) = (
  λ e.
      let j : c ≡ d = ground (arith, e) in
      let k : same_text s t ≡ true = ground (arith, e) in
      ap₂ (λ x y. x ∷ y) j ((same_text_iff s t).0 k),
  λ e.
      let k : c ≡ d = ap (λ l. get_or l 0 0) e in
      let j : (c == d) ≡ true = ground arith in rw (j, (same_text_iff s t).1 (ap (drop 1) e)),
)
