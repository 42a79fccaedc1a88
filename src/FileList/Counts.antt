-- ===== src/FileList/Counts.antt =====
-- Totals over the files of a list, and what a change of one file does to them.
use cbftp.Common.{
  ℕ, ◌+◌, ◌≡◌, refl, subst, ap, Bool, true, false, not, ◌&&◌, inl, inr, some, List, [], ◌∷◌, ◌++◌,
  if◌then◌else◌, ltb, Bytes, same_text, Bool-cases, arith,
}
use mathlib.Core.Option.{some-injective}
use cbftp.Util.Names.{eight_char_user_compare}
use cbftp.File.{File}
use cbftp.FileList.{find_file, change_file, erase_file}

abbrev pub total : (File → ℕ) → List File → ℕ
total m [] = 0
total m (f ∷ fs) = m f + total m fs

-- A file with something in it, its size, an upload, and a file of the user.
abbrev pub one_if : Bool → ℕ
one_if true = 1
one_if false = 0

abbrev pub uploaded_count : File → ℕ
uploaded_count f = one_if (ltb 0 f.size && not f.directory)

abbrev pub file_size : File → ℕ
file_size f = if f.directory then 0 else f.size

abbrev pub upload_count : File → ℕ
upload_count f = one_if f.uploading

abbrev pub own_count : Bytes → File → ℕ
own_count username f = one_if (eight_char_user_compare username f.owner)

pub total-append : (m : File → ℕ) (fs gs : List File) → total m (fs ++ gs) ≡ total m fs + total m gs
total-append m [] gs = omega arith
total-append m (f ∷ fs) gs = omega (arith, total-append m fs gs)

pub total-change :
    (m : File → ℕ) (name : Bytes) (g : File → File) (fs : List File) (old : File)
    → find_file name fs ≡ some old
    → total m (change_file name g fs) + m old ≡ total m fs + m (g old)
total-change m name g [] old e = cc
total-change m name g (f ∷ fs) old e = elim (Bool-cases (same_text f.name name)) [
  | inl k ↦
      let q : f ≡ old = some-injective _ _ (rw k at e) in
      let r : m f ≡ m old = ap m q in
      let s : m (g f) ≡ m (g old) = ap (λ x. m (g x)) q in rw k (omega (arith, r, s))
  | inr k ↦ rw k (omega (arith, total-change m name g fs old (rw k at e)))
]

-- A change that the measure does not see.
pub total-change_same :
    (m : File → ℕ) (name : Bytes) (g : File → File) (fs : List File)
    → ((f : File) → m (g f) ≡ m f)
    → total m (change_file name g fs) ≡ total m fs
total-change_same m name g [] s = refl
total-change_same m name g (f ∷ fs) s = elim (Bool-cases (same_text f.name name)) [
  | inl k ↦ rw k (omega (arith, s f))
  | inr k ↦ rw k (omega (arith, total-change_same m name g fs s))
]

pub total-erase :
    (m : File → ℕ) (name : Bytes) (fs : List File) (old : File)
    → find_file name fs ≡ some old
    → total m (erase_file name fs) + m old ≡ total m fs
total-erase m name [] old e = cc
total-erase m name (f ∷ fs) old e = elim (Bool-cases (same_text f.name name)) [
  | inl k ↦
      let q : f ≡ old = some-injective _ _ (rw k at e) in
      let r : m f ≡ m old = ap m q in rw k (omega (arith, r))
  | inr k ↦ rw k (omega (arith, total-erase m name fs old (rw k at e)))
]

-- All files have a property.
abbrev pub AllFiles : (File → Type 0) → List File → Type 0
AllFiles P [] = Unit {0}
AllFiles P (f ∷ fs) = P f × AllFiles P fs

module _ (P : File → Type 0) where
  pub AllFiles-append : (fs gs : List File) → AllFiles P fs → AllFiles P gs → AllFiles P (fs ++ gs)
  AllFiles-append [] gs a b = b
  AllFiles-append (f ∷ fs) gs a b = (a.0, AllFiles-append fs gs a.1 b)

  pub AllFiles-find :
      (name : Bytes) (fs : List File) (f : File) → AllFiles P fs → find_file name fs ≡ some f → P f
  AllFiles-find name [] f a e = cc
  AllFiles-find name (h ∷ fs) f a e = elim (Bool-cases (same_text h.name name)) [
    | inl k ↦ subst P (some-injective _ _ (rw k at e)) a.0
    | inr k ↦ AllFiles-find name fs f a.1 (rw k at e)
  ]

  pub AllFiles-change :
      (name : Bytes) (g : File → File) (fs : List File)
      → AllFiles P fs
      → ((f : File) → P f → find_file name fs ≡ some f → P (g f))
      → AllFiles P (change_file name g fs)
  AllFiles-change name g [] a k = tt
  AllFiles-change name g (f ∷ fs) a k = elim (Bool-cases (same_text f.name name)) [
    | inl e ↦ rw e (k f a.0 (rw e), a.1)
    | inr e ↦ rw e (a.0, AllFiles-change name g fs a.1 (λ h p q. k h p (rw (e, q))))
  ]

  pub AllFiles-erase :
      (name : Bytes) (fs : List File) → AllFiles P fs → AllFiles P (erase_file name fs)
  AllFiles-erase name [] a = tt
  AllFiles-erase name (f ∷ fs) a = elim (Bool-cases (same_text f.name name)) [
    | inl e ↦ rw e a.1
    | inr e ↦ rw e (a.0, AllFiles-erase name fs a.1)
  ]

module _ (P Q : File → Type 0) where
  pub AllFiles-map : (fs : List File) → ((f : File) → P f → Q f) → AllFiles P fs → AllFiles Q fs
  AllFiles-map [] k a = tt
  AllFiles-map (f ∷ fs) k a = (k f a.0, AllFiles-map fs k a.1)
