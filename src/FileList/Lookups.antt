-- ===== src/FileList/Lookups.antt =====
-- What a search of the map finds after a change of src/filelist.cpp.
use cbftp.Common.{
  ◌≡◌, true, inl, inr, none, some, List, [], ◌∷◌, ◌++◌, Bytes, same_text, Bool-cases, ap,
}
use mathlib.Core.Option.{some-injective}
use cbftp.File.{File}
use cbftp.FileList.{find_file, change_file}

pub find_file-change :
    (name : Bytes) (g : File → File) (fs : List File) (old : File)
    → ((f : File) → (g f).name ≡ f.name)
    → find_file name fs ≡ some old
    → find_file name (change_file name g fs) ≡ some (g old)
find_file-change name g [] old n e = cc
find_file-change name g (f ∷ fs) old n e = elim (Bool-cases (same_text f.name name)) [
  | inl k ↦
      let q : f ≡ old = some-injective _ _ (rw k at e) in simp (k, n f, ap (λ x. some (g x)) q)
  | inr k ↦ rw (k, k) (find_file-change name g fs old n (rw k at e))
]

pub find_file-append :
    (name : Bytes) (f : File) (fs : List File)
    → same_text f.name name ≡ true
    → find_file name fs ≡ none
    → find_file name (fs ++ (f ∷ [])) ≡ some f
find_file-append name f [] k e = rw k
find_file-append name f (h ∷ fs) k e = elim (Bool-cases (same_text h.name name)) [
  | inl t ↦ cc (rw t at e)
  | inr t ↦ rw t (find_file-append name f fs k (rw t at e))
]
