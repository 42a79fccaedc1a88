-- ===== src/Path/Levels/Parent.antt =====
-- The directory of a path of src/path.cpp, and the path cut by a level.
use cbftp.Common.{
  zero, suc, ◌+◌, ◌≡◌, refl, ap, ◌∙◌, Bool, true, false, some, [], ◌∷◌, ◌++◌, ℕ, ◌==◌, ltb, Bytes,
  length, length-append, take, Returns, arith, pos, ◌<◌, ◌≤◌,
}
use cbftp.Path.{FilePath, slash, rfind_byte, set_path_parts, new_with}
use cbftp.Path.Parts.{Lacks, rfind_byte-last, take-length-append, drop-past}
use cbftp.Path.Levels.{cut_levels, cut_loop}

-- A path in a directory other than the root: its directory is what cutting one level leaves.
pub record IsIn (dir name : Bytes) (p : FilePath) : Type 0 where
  pub dirname : p.dirname ≡ dir
  pub basename : p.basename ≡ name
  pub cut : cut_levels (pos 1) p ≡ new_with dir p.separatorchar p.separatorcertain

take_all : (n : ℕ) (s : Bytes) → length s ≤ n → take n s ≡ s
take_all zero [] h = refl
take_all zero (c ∷ s) h = absurd (omega arith)
take_all (suc n) [] h = refl
take_all (suc n) (c ∷ s) h = ap (λ r. c ∷ r) (take_all n s (omega arith))

cut_one :
    (p : FilePath) (dir name : Bytes)
    → Lacks slash name
    → 0 < length dir
    → p.unixpath ≡ dir ++ (slash ∷ name)
    → cut_levels (pos 1) p ≡ new_with dir p.separatorchar p.separatorcertain
unfolding cut_levels cut_loop
cut_one p dir name l o q =
    let n : length p.unixpath ≡ length dir + suc (length name) =
      ap length q ∙ length-append dir (slash ∷ name) in
    let t : take (suc (length p.unixpath)) p.unixpath ≡ p.unixpath =
      take_all (suc (length p.unixpath)) p.unixpath (omega arith) in
    let z : ltb 0 (length p.unixpath) ≡ true = ground (arith, n) in
    let f : rfind_byte slash p.unixpath ≡ some (dir, name) =
      ap (rfind_byte slash) q ∙ rfind_byte-last slash dir name l in
    let d : take (length dir) p.unixpath ≡ dir =
      ap (take (length dir)) q ∙ take-length-append dir (slash ∷ name) in
    let e : (length dir == 0) ≡ false = ground arith in simp (t, z, f, e, d)

-- A path made of a directory other than the root, a slash and a name without one has that directory and
-- that base name, and cutting one level leaves that directory.
pub new_with-IsIn :
    (dir name : Bytes) (separatorcertain : Bool)
    → Lacks slash name
    → 0 < length dir
    → Returns (IsIn dir name) (new_with (dir ++ (slash ∷ name)) slash separatorcertain)
unfolding new_with set_path_parts
new_with-IsIn dir name separatorcertain l o =
    let f = rfind_byte-last slash dir name l in
    let e : (length dir == 0) ≡ false = ground arith in
    rw (f, e)
      (record {
        dirname = take-length-append dir (slash ∷ name);
        basename = drop-past dir name slash;
        cut = cut_one _ dir name l o refl;
      })
