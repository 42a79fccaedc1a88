-- ===== src/Path.antt =====
-- src/path.h and src/path.cpp: a path of a site, in its own spelling and with slashes. A text is its
-- bytes. `none` is a loop that is out of rounds. A `Path` is called `FilePath`.
pub mod Levels
pub mod Parts
mod Examples
use cbftp.Common.{
  ℕ, zero, suc, ◌+◌, ◌-◌, ◌==◌, Bool, true, false, not, ◌&&◌, ◌||◌, Option, none, some, List, [],
  ◌∷◌, ◌++◌, if◌then◌else◌, ltb, leb, Bytes, length, take, drop, get_elem?, ◌>>=◌, is_set,
  same_text,
}

abbrev pub slash : ℕ
slash = 47

abbrev pub backslash : ℕ
backslash = 92

pub record FilePath : Type 0 where
  pub path : Bytes
  pub unixpath : Bytes
  pub dirname : Bytes
  pub basename : Bytes
  pub separatorchar : ℕ
  pub absolute : Bool
  pub separatorcertain : Bool

-- The two ways on after a search.
abbrev pub found {ℓ κ} : {A : Type ℓ} {B : Type κ} → Option A → B → (A → B) → B
found none m k = m
found (some r) m k = k r

-- `find` of one character: what stands before it and after it.
pub find_byte : ℕ → Bytes → Option (Bytes × Bytes)
find_byte c [] = none
find_byte c (d ∷ s) = if d == c then some ([], s) else (find_byte c s >>= λ r. some (d ∷ r.0, r.1))

-- `rfind` of one character.
pub rfind_byte : ℕ → Bytes → Option (Bytes × Bytes)
rfind_byte c [] = none
rfind_byte c (d ∷ s) =
    found (rfind_byte c s) (if d == c then some ([], s) else none) λ r. some (d ∷ r.0, r.1)

-- `while ((pos = path.find(from)) != npos) path[pos] = to;`
pub replace_loop : ℕ → ℕ → ℕ → Bytes → Option Bytes
replace_loop zero from to s = none
replace_loop (suc f) from to s =
    found (find_byte from s) (some s) λ r. replace_loop f from to (r.0 ++ (to ∷ r.1))

pub replace_all : ℕ → ℕ → Bytes → Option Bytes
replace_all from to s = replace_loop (suc (length s)) from to s

-- `find` of a character twice in a row: the text with one of the first two taken out.
pub drop_double : ℕ → Bytes → Option Bytes
drop_double c [] = none
drop_double c (d ∷ []) = none
drop_double c (d ∷ e ∷ s) =
    if (d == c) && (e == c) then some (e ∷ s) else (drop_double c (e ∷ s) >>= λ r. some (d ∷ r))

pub collapse_loop : ℕ → ℕ → Bytes → Option Bytes
collapse_loop zero c s = none
collapse_loop (suc f) c s = found (drop_double c s) (some s) (collapse_loop f c)

abbrev pub is_slash : ℕ → Bool
is_slash c = (c == slash) || (c == backslash)

-- The last lines of `cleanPath`, for a text of more than one byte.
pub cut_last_slash : Bytes → Bytes
cut_last_slash [] = []
cut_last_slash (c ∷ []) = c ∷ []
cut_last_slash (c ∷ d ∷ []) = if is_slash d then c ∷ [] else c ∷ d ∷ []
cut_last_slash (c ∷ d ∷ e ∷ s) = c ∷ cut_last_slash (d ∷ e ∷ s)

pub flip_slashes : ℕ → Bytes → Option Bytes
flip_slashes separatorchar s =
    if separatorchar == slash
    then replace_all backslash slash s
    else (if separatorchar == backslash then replace_all slash backslash s else some s)

pub clean_path : ℕ → Bytes → Option Bytes
clean_path separatorchar s = do
  t ← (if is_slash separatorchar then collapse_loop (suc (length s)) separatorchar s else some s)
  some (cut_last_slash t)

-- `setPathParts`, on a path whose other fields are set.
pub set_path_parts : FilePath → Option FilePath
set_path_parts p = do
  unixpath ←
      (if p.separatorchar == backslash then replace_all backslash slash p.path else some p.path)
  some (
      found (rfind_byte slash unixpath) (record p { unixpath = unixpath; basename = p.path })
        λ r. record p {
          unixpath = unixpath;
          dirname = take (if length r.0 == 0 then 1 else length r.0) p.path;
          basename = drop (suc (length r.0)) p.path;
        })

-- `setSeparatorAbsolute`: the separator, and whether it is certain and the path absolute.
pub record Separator : Type 0 where
  pub separatorchar : ℕ
  pub absolute : Bool
  pub separatorcertain : Bool

pub set_separator_absolute : Bytes → Separator
set_separator_absolute [] = record {
  separatorchar = slash;
  absolute = false;
  separatorcertain = false;
}
set_separator_absolute (c ∷ s) =
    if is_slash c
    then record { separatorchar = c; absolute = true; separatorcertain = true }
    else (if is_set (find_byte slash (c ∷ s))
        then record { separatorchar = slash; absolute = false; separatorcertain = true }
        else (if is_set (find_byte backslash (c ∷ s))
            then record { separatorchar = backslash; absolute = false; separatorcertain = true }
            else record { separatorchar = slash; absolute = false; separatorcertain = false }))

abbrev pub bare : Bytes → Separator → FilePath
bare s d = record {
  path = s;
  unixpath = [];
  dirname = [];
  basename = [];
  separatorchar = d.separatorchar;
  absolute = d.absolute;
  separatorcertain = d.separatorcertain;
}

-- `Path(const std::string &)`, and `Path(const char *)`.
pub new : Bytes → Option FilePath
new s =
    let d = set_separator_absolute s in
    (if d.separatorcertain
      then (flip_slashes d.separatorchar s >>= clean_path d.separatorchar)
      else some s)
    >>= λ t. set_path_parts (bare t d)

abbrev pub starts_with : ℕ → Bytes → Bool
starts_with c [] = false
starts_with c (d ∷ s) = d == c

-- `Path(const std::string &, char, bool)`.
pub new_with : Bytes → ℕ → Bool → Option FilePath
new_with s separator separatorcertain = set_path_parts (
    bare s (record {
      separatorchar = separator;
      absolute = starts_with separator s;
      separatorcertain = separatorcertain;
    }))

-- `Path(const Path &, const Path &)` and the operators `/`.
pub join : FilePath → FilePath → Option FilePath
join base add =
    let certain = base.separatorcertain || add.separatorcertain in
    let d : Separator = record {
      separatorchar = if base.separatorcertain then base.separatorchar else add.separatorchar;
      absolute = if ltb 0 (length base.path) then base.absolute else add.absolute;
      separatorcertain = certain;
    } in
    let between =
      if not add.absolute && (ltb 1 (length base.path) && ltb 0 (length add.path))
      then d.separatorchar ∷ []
      else [] in
    flip_slashes d.separatorchar (base.path ++ (between ++ add.path)) >>= λ t.
    set_path_parts (bare t d)

-- The operator `==`; `!=` is its negation.
pub same : FilePath → FilePath → Bool
same p q = same_text p.unixpath q.unixpath

pub contains : FilePath → FilePath → Bool
contains p rhs =
    let n = length rhs.unixpath in
    leb n (length p.unixpath)
    && (same_text (take n p.unixpath) rhs.unixpath
        && ((length p.unixpath == n) || starts_with slash (drop n p.unixpath)))

-- The operator `-`.
pub minus : FilePath → FilePath → Option FilePath
minus p rhs =
    let n = length rhs.unixpath in
    let m = length p.unixpath in
    let unless_same =
      if same_text p.unixpath rhs.unixpath
      then new_with [] p.separatorchar p.separatorcertain
      else some p in
    if p.absolute && rhs.absolute
    then (if ltb n m && same_text (take (suc n) p.unixpath) (rhs.unixpath ++ (slash ∷ []))
        then new_with (drop (suc n) p.unixpath) p.separatorchar p.separatorcertain
        else (if ltb n m && ((n == 1) && same_text (take n p.unixpath) rhs.unixpath)
            then new_with (drop n p.unixpath) p.separatorchar p.separatorcertain
            else unless_same))
    else (if not rhs.absolute
          && (ltb n m
              && same_text (take (suc n) (drop (m - n - 1) p.unixpath)) (slash ∷ rhs.unixpath))
        then new_with (take (m - n) p.unixpath) p.separatorchar p.separatorcertain
        else unless_same)
