-- ===== src/Path/Levels/Split.antt =====
-- The parts of a path of src/path.cpp, and how many there are.
use cbftp.Common.{
  ℕ, zero, suc, ◌+◌, ◌<◌, ◌≡◌, refl, sym, ap, ◌∙◌, Option, none, some, List, [], ◌∷◌, ◌++◌,
  if◌then◌else◌, ◌==◌, Bytes, length, length-append, Returns, Returns-bind, Returns-map, subst,
  arith, Option-cases, Bool-cases, inl, inr,
}
use mathlib.Core.Option.{some-injective}
use cbftp.Path.{FilePath, slash, find_byte}
use cbftp.Path.Levels.{split, split_loop, levels, levels_loop}

-- The parts with slashes between them.
abbrev pub joined : List Bytes → Bytes
joined [] = []
joined (part ∷ []) = part
joined (part ∷ next ∷ parts) = part ++ (slash ∷ joined (next ∷ parts))

abbrev pub NoSlashes : List Bytes → Type 0
NoSlashes [] = Unit {0}
NoSlashes (part ∷ parts) = (find_byte slash part ≡ none) × NoSlashes parts

-- The parts of a text between its slashes, and the number that a count of the slashes ends with.
pub record IsSplit (s : Bytes) (count : ℕ) (total : Option ℕ) (parts : List Bytes) : Type 0 where
  pub whole : joined parts ≡ s
  pub apart : NoSlashes parts
  pub some_part : 0 < length parts
  pub counted : Returns (λ n. n + 1 ≡ count + length parts) total

IsFound : ℕ → Bytes → Bytes × Bytes → Type 0
IsFound c s r = (s ≡ r.0 ++ (c ∷ r.1)) × (find_byte c r.0 ≡ none)

pub find_byte-IsFound :
    (c : ℕ) (s : Bytes) (r : Bytes × Bytes)
    → find_byte c s ≡ some r
    → (s ≡ r.0 ++ (c ∷ r.1)) × (find_byte c r.0 ≡ none)
unfolding find_byte IsFound
find_byte-IsFound c [] r e = cc
find_byte-IsFound c (d ∷ s) r e = elim (Bool-cases (d == c)) [
  | inl k ↦
      let q : ([], s) ≡ r = some-injective _ _ (rw k at e) in
      let j : d ≡ c = ground (arith, k) in subst (IsFound c (d ∷ s)) q (ap (λ x. x ∷ s) j, refl)
  | inr k ↦ elim (Option-cases (find_byte c s)) [
    | inl n ↦ ground (arith, e, k, n)
    | inr (t, n) ↦
        let w = find_byte-IsFound c s t n in
        let q : (d ∷ t.0, t.1) ≡ r = some-injective _ _ (rw (k, n) at e) in
        subst (IsFound c (d ∷ s)) q (ap (λ x. d ∷ x) w.0, rw (k, w.1))
  ]
]

joined-cons :
    (part : Bytes) (parts : List Bytes)
    → 0 < length parts
    → joined (part ∷ parts) ≡ part ++ (slash ∷ joined parts)
joined-cons part [] h = elim h [ ]
joined-cons part (next ∷ parts) h = refl

split_loop-IsSplit :
    (f : ℕ) (s : Bytes) (count : ℕ)
    → length s < f
    → Returns (IsSplit s count (levels_loop f s count)) (split_loop f s)
unfolding split_loop levels_loop
split_loop-IsSplit zero s count h = elim h [ ]
split_loop-IsSplit (suc f) s count h = elim (Option-cases (find_byte slash s)) [
  | inl e ↦ rw e (record { whole = refl; apart = (e, tt); some_part = omega arith; counted = refl })
  | inr (r, e) ↦
      let w = find_byte-IsFound slash s r e in
      let l : length r.1 < f = omega (arith, h, ap length w.0, length-append r.0 (slash ∷ r.1)) in
      rw e (
        Returns-bind (IsSplit r.1 (count + 1) (levels_loop f r.1 (count + 1))) _ (split_loop f r.1)
          _ (split_loop-IsSplit f r.1 (count + 1) l)
          (λ parts v. record {
            whole =
                joined-cons r.0 parts v.some_part ∙ ap (λ x. r.0 ++ (slash ∷ x)) v.whole ∙ sym w.0;
            apart = (w.1, v.apart);
            some_part = omega arith;
            counted =
                Returns-map _ _ (levels_loop f r.1 (count + 1)) v.counted (λ n k. omega (arith, k));
          }))
]

-- `split` ends, and gives the parts of the path between its slashes: with a slash between one and the
-- next they are the path again, and none has a slash in it. `levels` ends and is their number, less one
-- for an absolute path.
pub split-IsSplit :
    (p : FilePath) → Returns (IsSplit p.unixpath (if p.absolute then 0 else 1) (levels p)) (split p)
unfolding split levels
split-IsSplit p =
    split_loop-IsSplit (suc (length p.unixpath)) p.unixpath (if p.absolute then 0 else 1)
      (omega arith)
