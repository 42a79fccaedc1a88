-- ===== src/Path/Parts.antt =====
-- The directory and the base name, `contains`, and the operators `/` and `-` of src/path.cpp.
use cbftp.Common.{
  same_text, same_text_iff, ℕ, suc, ◌+◌, ◌<◌, ◌≡◌, ◌≢◌, ◌↔◌, ◌⊎◌, refl, sym, ap, ap₂, ◌∙◌, true,
  false, Option, none, some, [], ◌∷◌, ◌++◌, ◌&&◌, ◌||◌, ◌==◌, ltb, leb, Bytes, length,
  length-append, take, drop, take-append-drop, Returns, Returns-map, arith, Bool-cases, inl, inr,
}
use cbftp.Path.{
  FilePath, Separator, slash, backslash, found, find_byte, rfind_byte, replace_all, replace_loop,
  flip_slashes, set_path_parts, new_with, join, minus, contains, starts_with, bare,
}

-- No `c` in the text.
abbrev pub Lacks : ℕ → Bytes → Type 0
Lacks c [] = Unit {0}
Lacks c (d ∷ s) = (d ≢ c) × Lacks c s

pub find_byte-Lacks : (c : ℕ) (s : Bytes) → Lacks c s → find_byte c s ≡ none
unfolding find_byte
find_byte-Lacks c [] l = refl
find_byte-Lacks c (d ∷ s) l =
    let e : (d == c) ≡ false = ground (arith, l.0) in rw (e, find_byte-Lacks c s l.1)

rfind_byte-Lacks : (c : ℕ) (s : Bytes) → Lacks c s → rfind_byte c s ≡ none
unfolding rfind_byte
rfind_byte-Lacks c [] l = refl
rfind_byte-Lacks c (d ∷ s) l =
    let e : (d == c) ≡ false = ground (arith, l.0) in rw (rfind_byte-Lacks c s l.1, e)

-- The last `c` is found.
pub rfind_byte-last :
    (c : ℕ) (dir name : Bytes) → Lacks c name → rfind_byte c (dir ++ (c ∷ name)) ≡ some (dir, name)
unfolding rfind_byte
rfind_byte-last c [] name l =
    let e : (c == c) ≡ true = ground arith in rw (rfind_byte-Lacks c name l, e)
rfind_byte-last c (d ∷ dir) name l = rw (rfind_byte-last c dir name l)

replace_all-Lacks : (from to : ℕ) (s : Bytes) → Lacks from s → replace_all from to s ≡ some s
unfolding replace_all replace_loop
replace_all-Lacks from to s l = rw (find_byte-Lacks from s l)

pub take-length-append : (s t : Bytes) → take (length s) (s ++ t) ≡ s
take-length-append [] t = refl
take-length-append (c ∷ s) t = ap (λ r. c ∷ r) (take-length-append s t)

drop-length-append : (s t : Bytes) → drop (length s) (s ++ t) ≡ t
drop-length-append [] t = refl
drop-length-append (c ∷ s) t = drop-length-append s t

empty_if : (t : Bytes) → length t ≡ 0 → t ≡ []
empty_if [] e = refl
empty_if (c ∷ t) e = absurd (omega arith)

contained :
    (s rest : Bytes)
    → ((rest ≡ []) ⊎ (starts_with slash rest ≡ true))
    → (leb (length s) (length (s ++ rest))
        && (same_text s s && ((length (s ++ rest) == length s) || starts_with slash rest)))
      ≡ true
contained s rest r =
    let l = length-append s rest in
    let a : leb (length s) (length (s ++ rest)) ≡ true = ground (arith, l) in
    let b : same_text s s ≡ true = (same_text_iff s s).1 refl in
    elim r [
      | inl e ↦
          let c : (length (s ++ rest) == length s) ≡ true = ground (arith, l, ap length e) in
          rw (a, b, c)
      | inr e ↦ ground (arith, a, b, e)
    ]

-- A path contains exactly those whose text it begins with, up to its end or to a slash.
pub contains_decides :
    (p rhs : FilePath)
    → (contains p rhs ≡ true) ↔ (
        (rest : Bytes) × ((p.unixpath ≡ rhs.unixpath ++ rest)
          × ((rest ≡ []) ⊎ (starts_with slash rest ≡ true))))
unfolding contains
contains_decides p rhs =
    let n = length rhs.unixpath in
    let h = take n p.unixpath in
    let t = drop n p.unixpath in
    (
      λ e.
          let k : same_text h rhs.unixpath ≡ true = ground (arith, e) in
          let q : p.unixpath ≡ rhs.unixpath ++ t =
            sym (take-append-drop n p.unixpath) ∙ ap (λ x. x ++ t) ((same_text_iff _ _).0 k) in
          let l : length p.unixpath ≡ n + length t = ap length q ∙ length-append rhs.unixpath t in
          (
            t,
            (
              q,
              elim (Bool-cases (length p.unixpath == n)) [
                | inl j ↦ inl (empty_if t (ground arith))
                | inr j ↦ inr (ground (arith, e, j))
              ],
            ),
          ),
      λ (rest, (q, r)).
          rw (q, take-length-append rhs.unixpath rest, drop-length-append rhs.unixpath rest)
            (contained rhs.unixpath rest r),
    )

Lacks-append : (c : ℕ) (s t : Bytes) → Lacks c s → Lacks c t → Lacks c (s ++ t)
Lacks-append c [] t l k = k
Lacks-append c (d ∷ s) t l k = (l.0, Lacks-append c s t l.1 k)

-- What `setPathParts` keeps.
record Keeps (p q : FilePath) : Type 0 where
  unixpath : q.unixpath ≡ p.path
  absolute : q.absolute ≡ p.absolute
  separatorchar : q.separatorchar ≡ p.separatorchar
  separatorcertain : q.separatorcertain ≡ p.separatorcertain

found_either :
    {A : Type 0} {B : Type 0} (P : B → Type 0) (o : Option A) (m : B) (k : A → B)
    → P m
    → ((r : A) → P (k r))
    → P (found o m k)
found_either P none m k p q = p
found_either P (some r) m k p q = q r

take-past : (s t : Bytes) (c : ℕ) → take (suc (length s)) (s ++ (c ∷ t)) ≡ s ++ (c ∷ [])
take-past [] t c = refl
take-past (d ∷ s) t c = ap (λ r. d ∷ r) (take-past s t c)

pub drop-past : (s t : Bytes) (c : ℕ) → drop (suc (length s)) (s ++ (c ∷ t)) ≡ t
drop-past [] t c = refl
drop-past (d ∷ s) t c = drop-past s t c

set_path_parts-Keeps :
    (p : FilePath) → p.separatorchar ≡ slash → Returns (Keeps p) (set_path_parts p)
unfolding set_path_parts
set_path_parts-Keeps p e =
    let k : (p.separatorchar == backslash) ≡ false = ground (arith, e) in
    simp k (
      found_either (Keeps p) (rfind_byte slash p.path) _ _
        (record { unixpath = refl; absolute = refl; separatorchar = refl; separatorcertain = refl })
        (λ r. record {
          unixpath = refl;
          absolute = refl;
          separatorchar = refl;
          separatorcertain = refl;
        }))

minus_below :
    (j base : FilePath) (rest : Bytes)
    → j.absolute ≡ true
    → base.absolute ≡ true
    → j.unixpath ≡ base.unixpath ++ (slash ∷ rest)
    → minus j base ≡ new_with rest j.separatorchar j.separatorcertain
unfolding minus
minus_below j base rest a b q =
    let u = base.unixpath in
    let l : length j.unixpath ≡ length u + suc (length rest) =
      ap length q ∙ length-append u (slash ∷ rest) in
    let m : ltb (length u) (length j.unixpath) ≡ true = ground (arith, l) in
    let t : take (suc (length u)) j.unixpath ≡ u ++ (slash ∷ []) =
      ap (take (suc (length u))) q ∙ take-past u rest slash in
    let d : drop (suc (length u)) j.unixpath ≡ rest =
      ap (drop (suc (length u))) q ∙ drop-past u rest slash in
    let e : same_text (take (suc (length u)) j.unixpath) (u ++ (slash ∷ [])) ≡ true =
      (same_text_iff _ _).1 t in
    simp (a, b, m, e, d)

join-relative :
    (base add : FilePath)
    → base.absolute ≡ true
    → base.separatorchar ≡ slash
    → base.separatorcertain ≡ true
    → 1 < length base.path
    → add.absolute ≡ false
    → 0 < length add.path
    → Lacks backslash base.path
    → Lacks backslash add.path
    → join base add
      ≡ set_path_parts (
          bare
            (base.path ++ (slash ∷ add.path))
            (record { separatorchar = slash; absolute = true; separatorcertain = true }))
unfolding join flip_slashes
join-relative base add a c d l r m x y =
    let n : ltb 1 (length base.path) ≡ true = ground arith in
    let o : ltb 0 (length add.path) ≡ true = ground arith in
    let z : ltb 0 (length base.path) ≡ true = ground arith in
    let q =
      replace_all-Lacks backslash slash (base.path ++ (slash ∷ add.path))
        (Lacks-append backslash base.path (slash ∷ add.path) x (ground arith, y)) in
    simp (a, c, d, r, n, o, z, q)

-- Joining a path that is relative and not empty to one that is absolute, longer than the root and
-- certain of its slashes, whose spelling is its Unix one, runs through where neither has a
-- backslash: the result contains the absolute path, and without it is the path of the relative
-- one's text.
pub minus-join :
    (base add : FilePath)
    → base.absolute ≡ true
    → base.separatorchar ≡ slash
    → base.separatorcertain ≡ true
    → base.unixpath ≡ base.path
    → 1 < length base.path
    → add.absolute ≡ false
    → 0 < length add.path
    → Lacks backslash base.path
    → Lacks backslash add.path
    → Returns
        (λ j. (minus j base ≡ new_with add.path slash true) × (contains j base ≡ true))
        (join base add)
minus-join base add a c d u l r m x y =
    let s : Separator = record {
      separatorchar = slash;
      absolute = true;
      separatorcertain = true;
    } in
    let t = base.path ++ (slash ∷ add.path) in
    rw (join-relative base add a c d l r m x y) (
      Returns-map (Keeps (bare t s)) _ (set_path_parts (bare t s))
        (set_path_parts-Keeps (bare t s) refl)
        (λ j k.
          let q : j.unixpath ≡ base.unixpath ++ (slash ∷ add.path) =
            k.unixpath ∙ ap (λ z. z ++ (slash ∷ add.path)) (sym u) in
          (
            minus_below j base add.path k.absolute a q
                ∙ ap₂ (new_with add.path) k.separatorchar k.separatorcertain,
            (contains_decides j base).1 (slash ∷ add.path, (q, inr refl)),
          )))
