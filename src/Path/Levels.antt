-- ===== src/Path/Levels.antt =====
-- `split`, `levels`, `cutLevels` and `level` of src/path.cpp. A loop goes over the slashes with what
-- stands from `lastpos`.
pub mod Split
pub mod Parent
use cbftp.Common.{
  ℕ, zero, suc, ◌+◌, ◌-◌, ◌==◌, Bool, true, false, Option, none, some, List, [], ◌∷◌, if◌then◌else◌,
  ltb, Bytes, length, take, drop, ◌>>=◌, codes, ℤ, pos, negsuc,
}
use cbftp.Path.{FilePath, slash, found, find_byte, rfind_byte, new, new_with}

pub split_loop : ℕ → Bytes → Option (List Bytes)
split_loop zero s = none
split_loop (suc f) s =
    found (find_byte slash s) (some (s ∷ [])) λ r. split_loop f r.1 >>= λ parts. some (r.0 ∷ parts)

pub split : FilePath → Option (List Bytes)
split p = split_loop (suc (length p.unixpath)) p.unixpath

pub levels_loop : ℕ → Bytes → ℕ → Option ℕ
levels_loop zero s count = none
levels_loop (suc f) s count =
    found (find_byte slash s) (some count) λ r. levels_loop f r.1 (count + 1)

pub levels : FilePath → Option ℕ
levels p = levels_loop (suc (length p.unixpath)) p.unixpath (if p.absolute then 0 else 1)

-- The loop over the slashes from the end: where to cut, if there are enough of them.
pub cut_loop : ℕ → Bytes → ℕ → ℕ → ℕ → Option (Option ℕ)
cut_loop zero s lastpos cut levels = none
cut_loop (suc f) s lastpos cut levels =
    found (if ltb 0 lastpos then rfind_byte slash (take (suc lastpos) s) else none) (some none) λ r.
      let splitpos = length r.0 in
      let rest = cut_loop f s (splitpos - 1) (cut + 1) levels in
      if cut + 1 == levels then some (some (if splitpos == 0 then 1 else splitpos)) else rest

-- The loop over the slashes from the start: where to begin.
pub skip_loop : ℕ → Bytes → ℕ → ℕ → ℕ → Option (Option ℕ)
skip_loop zero rest lastpos atlevel targetlevels = none
skip_loop (suc f) rest lastpos atlevel targetlevels = found (find_byte slash rest) (some none) λ r.
    let next = lastpos + length r.0 + 1 in
    let further = skip_loop f r.1 next (atlevel + 1) targetlevels in
    if atlevel == targetlevels then some (some (if next == 1 then 0 else next)) else further

pub cut_levels : ℤ → FilePath → Option FilePath
cut_levels (pos zero) p = some p
cut_levels (pos (suc n)) p =
    let s = p.unixpath in
    cut_loop (suc (length s)) s (length s) 0 (suc n) >>= λ o.
    found o (if p.absolute then new (codes "/") else new_with [] p.separatorchar p.separatorcertain)
      λ splitpos. new_with (take splitpos s) p.separatorchar p.separatorcertain
cut_levels (negsuc n) p =
    let s = p.unixpath in
    skip_loop (suc (length s)) s 0 (if p.absolute then 0 else 1) (suc n) >>= λ o.
    found o (new_with [] p.separatorchar p.separatorcertain)
      λ lastpos. new_with (drop lastpos s) p.separatorchar p.separatorcertain

-- One more than the wanted level, which no counter meets if it is below -1.
abbrev pub after_level : ℤ → Option ℕ
after_level (pos n) = some (suc n)
after_level (negsuc zero) = some 0
after_level (negsuc (suc n)) = none

abbrev pub meets : ℕ → Option ℕ → Bool
meets n none = false
meets n (some m) = n == m

-- `next_level` is one more than `atlevel`. The result is where the part begins, and where it ends.
pub level_loop : ℕ → Bytes → ℕ → ℕ → Option ℕ → Option (Option (ℕ × ℕ))
level_loop zero rest lastpos next_level target = none
level_loop (suc f) rest lastpos next_level target =
    let start = if lastpos == 1 then 0 else lastpos in
    found (find_byte slash rest)
      (some (if meets next_level target then some (start, lastpos + length rest) else none))
      λ r.
        let splitpos = lastpos + length r.0 in
        let further = level_loop f r.1 (splitpos + 1) (next_level + 1) target in
        if meets next_level target then some (some (start, splitpos)) else further

pub level : ℤ → FilePath → Option FilePath
level n p =
    let s = p.unixpath in
    level_loop (suc (length s)) s 0 (if p.absolute then 0 else 1) (after_level n) >>= λ o.
    found o (new_with [] p.separatorchar p.separatorcertain)
      λ part. new_with (drop part.0 (take part.1 s)) p.separatorchar p.separatorcertain
