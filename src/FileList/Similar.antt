-- ===== src/FileList/Similar.antt =====
-- The similar file that src/filelist.cpp remembers, after removeFile.
use cbftp.Common.{
  ℕ, ◌≡◌, ◌⊎◌, refl, Bool, true, false, inl, inr, none, some, List, [], ◌∷◌, ◌++◌, Bytes, Pointer,
  same_text, same_text_iff, Bool-cases, ap,
}
use cbftp.File.{File}
use cbftp.FileList.{
  FileList, FirstSimilar, in_list, not_in_list, find_file, erase_file, get_file_case_sensitive,
}
use cbftp.FileList.Operations.{is_similar, first_similar, check_similar, remove_file, remove_found}
use cbftp.FileList.Counts.{AllFiles}

module _ (similar : ℕ → Pointer → Bytes → Bool → Bool) where
  abbrev pub NotSimilar : Pointer → Pointer → File → Type 0
  NotSimilar siteskip sectionskip f = is_similar similar siteskip sectionskip f ≡ false

  -- The first similar file.
  pub record First (siteskip sectionskip : Pointer) (fs : List File) (name : FirstSimilar)
      : Type 0 where
    pub before : List File
    pub file : File
    pub after : List File
    pub split : fs ≡ before ++ file ∷ after
    pub not_before : AllFiles (NotSimilar siteskip sectionskip) before
    pub is : is_similar similar siteskip sectionskip file ≡ true
    pub its_name : name ≡ in_list file.name

  abbrev pub FirstOr : Pointer → Pointer → List File → FirstSimilar → FirstSimilar → Type 0
  FirstOr siteskip sectionskip fs old name =
      First siteskip sectionskip fs name
      ⊎ (AllFiles (NotSimilar siteskip sectionskip) fs × (name ≡ old))

  first_similar_lem :
      (siteskip sectionskip : Pointer) (fs : List File) (old : FirstSimilar)
      → FirstOr siteskip sectionskip fs old (first_similar similar siteskip sectionskip fs old)
  unfolding first_similar
  first_similar_lem siteskip sectionskip [] old = inr (tt, refl)
  first_similar_lem siteskip sectionskip (f ∷ fs) old =
      elim (Bool-cases (is_similar similar siteskip sectionskip f)) [
        | inl e ↦ rw e (
            inl (record {
              before = [];
              file = f;
              after = fs;
              split = refl;
              not_before = tt;
              is = e;
              its_name = refl;
            }))
        | inr e ↦ rw e (elim (first_similar_lem siteskip sectionskip fs old) [
          | inl r ↦ inl (record {
            before = f ∷ r.before;
            file = r.file;
            after = r.after;
            split = ap (λ x. f ∷ x) r.split;
            not_before = (e, r.not_before);
            is = r.is;
            its_name = r.its_name;
          })
          | inr r ↦ inr ((refl, r.0), r.1)
        ])
      ]

  -- Where similarchecked is set, after the removal of the file of the list that `firstsimilar` points to, it
  -- points to the first similar one of the files that are left; where none of these is similar, it still
  -- points to the file that is removed. If no other file was under that file's name, the search of the name
  -- then finds nothing.
  pub remove_file-FirstOr :
      (now : ℕ) (name : Bytes) (f : File) (l : FileList)
      → get_file_case_sensitive name l ≡ some f
      → find_file name (erase_file name l.files) ≡ none
      → l.similarchecked ≡ true
      → l.firstsimilar ≡ in_list name
      → (let m = remove_file similar now name l in
          FirstOr l.siteskip l.sectionskip m.files (not_in_list name) m.firstsimilar
          × (get_file_case_sensitive name m ≡ none))
  unfolding remove_file remove_found check_similar
  remove_file-FirstOr now name f l e u c s =
      let t : same_text name name ≡ true = (same_text_iff name name).1 refl in
      let r =
        first_similar_lem l.siteskip l.sectionskip (erase_file name l.files) (not_in_list name) in
      simp (e, s, c, t) (r, u)
