-- ===== src/FileList/Invariant/Run.antt =====
-- The counts of src/filelist.cpp after any calls.
use cbftp.Common.{
  ℕ, ◌+◌, leb, subst, ◌<◌, ◌≡◌, refl, Bool, false, inl, inr, Option, none, some, Bytes, Pointer,
  Bool-cases, Option-cases, u64_mod,
}
use mathlib.Core.Option.{some-injective}
use cbftp.Path.{FilePath}
use cbftp.File.{File, set_update_flag}
use cbftp.FileList.{FileList, FileListState, find_file}
use cbftp.FileList
use cbftp.FileList.Calls.{
  Call, updates, touches, removes, flags, sweeps, flushes, finishes_upload, downloads,
  finishes_download, sets_non_existent, sets_state, fails, fails_list, refreshes, resets,
  resets_board, sets_in_score_board, checks_similar, step, flag_found, set_file_update_flag,
  set_failed, set_non_existent, add_list_failure, is_failed, is_unknown,
}
use cbftp.FileList.Operations.{check_similar}
use cbftp.FileList.Invariant.{IsCounted}
use cbftp.FileList.Invariant.Changes.{
  update_file-IsCounted, touch_file-IsCounted, remove_file-IsCounted, clean_sweep-IsCounted,
}
use cbftp.FileList.Invariant.Flags.{
  flag_found-IsCounted, flush-IsCounted, finish_found-IsCounted, download_found-IsCounted,
  undownload_found-IsCounted,
}

-- The object under a name is no directory.
abbrev NoDirectory : Option File → Type 0
NoDirectory none = Unit {0}
NoDirectory (some f) = f.directory ≡ false

-- A file that comes in fits its word and is not marked as uploading, and a finished transfer has sent
-- something to a file.
abbrev pub Allowed : Call → FileList → Type 0
Allowed (updates file) l = (file.size < u64_mod) × (file.uploading ≡ false)
Allowed (flags name size speed src dst srcco dstco) l =
    (size < u64_mod) × (0 < size) × NoDirectory (find_file name l.files)
Allowed _ l = Unit {0}

flag-IsCounted :
    (now : ℕ) (name : Bytes) (size speed src dst srcco dstco : ℕ) (l : FileList)
    → size < u64_mod
    → 0 < size
    → NoDirectory (find_file name l.files)
    → IsCounted l
    → IsCounted (set_file_update_flag now name size speed src dst srcco dstco l)
unfolding set_file_update_flag flag_found
flag-IsCounted now name size speed src dst srcco dstco l w o d v =
    elim (Option-cases (find_file name l.files)) [
      | inl n ↦ rw n v
      | inr (f, n) ↦ rw n (
          flag_found-IsCounted now name size (set_update_flag src dst srcco dstco speed) f l n w o
            (rw n at d) (λ f. (refl, (refl, refl))) v)
    ]

failed-IsCounted : (now : ℕ) (l : FileList) → IsCounted l → IsCounted (set_failed now l)
unfolding set_failed
failed-IsCounted now l v = elim (Bool-cases (is_failed l.state)) [ inl e ↦ rw e v | inr e ↦ rw e v ]

list_failure-IsCounted :
    (now : ℕ) (l : FileList) → IsCounted l → IsCounted (add_list_failure now l).1
unfolding add_list_failure
list_failure-IsCounted now l v = elim (Bool-cases (leb 3 (l.listfailures + 1))) [
  | inl e ↦ rw e (failed-IsCounted now (record l { listfailures = l.listfailures + 1 }) v)
  | inr e ↦ rw e v
]

non_existent-IsCounted : (l m : FileList) → set_non_existent l ≡ some m → IsCounted l → IsCounted m
unfolding set_non_existent
non_existent-IsCounted l m e v = elim (Bool-cases (is_unknown l.state)) [
  | inl k ↦ subst IsCounted (some-injective _ _ (rw k at e)) v
  | inr k ↦ cc (rw k at e)
]

module _ (similar : ℕ → Pointer → Bytes → Bool → Bool) where
  similar-IsCounted :
      (siteskip sectionskip : Pointer) (l : FileList)
      → IsCounted l
      → IsCounted (check_similar similar siteskip sectionskip l)
  unfolding check_similar
  similar-IsCounted siteskip sectionskip l v = v

  -- The lists that calls make of a new one.
  pub data Reach : FileList → Type 0 where
    starts :
        (username : Bytes) (path : FilePath) (state : FileListState)
        (siteskip sectionskip : Pointer)
        → Reach (FileList.new username path state siteskip sectionskip)
    calls :
        (now : ℕ) (c : Call) (l m : FileList)
        → Allowed c l
        → step similar now c l ≡ some m
        → Reach l
        → Reach m

  step-IsCounted :
      (now : ℕ) (c : Call) (l m : FileList)
      → Allowed c l
      → step similar now c l ≡ some m
      → IsCounted l
      → IsCounted m
  unfolding step
  step-IsCounted now (updates file) l m a e v =
      subst IsCounted (some-injective _ _ e) (update_file-IsCounted similar now file l a.0 a.1 v)
  step-IsCounted now (touches name user uploads) l m a e v =
      subst IsCounted (some-injective _ _ e)
        (touch_file-IsCounted similar now name user uploads l v)
  step-IsCounted now (removes name) l m a e v =
      subst IsCounted (some-injective _ _ e) (remove_file-IsCounted similar now name l v)
  step-IsCounted now (flags name size speed src dst srcco dstco) l m a e v =
      subst IsCounted (some-injective _ _ e)
        (flag-IsCounted now name size speed src dst srcco dstco l a.0 a.1 a.2 v)
  step-IsCounted now (sweeps touch) l m a e v =
      subst IsCounted (some-injective _ _ e) (clean_sweep-IsCounted similar now touch l v)
  step-IsCounted now flushes l m a e v = subst IsCounted (some-injective _ _ e) (flush-IsCounted l)
  step-IsCounted now (finishes_upload name) l m a e v =
      subst IsCounted (some-injective _ _ e) (finish_found-IsCounted now name l v)
  step-IsCounted now (downloads name) l m a e v =
      subst IsCounted (some-injective _ _ e) (download_found-IsCounted name l v)
  step-IsCounted now (finishes_download name) l m a e v =
      subst IsCounted (some-injective _ _ e) (undownload_found-IsCounted name l v)
  step-IsCounted now sets_non_existent l m a e v = non_existent-IsCounted l m e v
  step-IsCounted now (sets_state state) l m a e v = subst IsCounted (some-injective _ _ e) v
  step-IsCounted now fails l m a e v =
      subst IsCounted (some-injective _ _ e) (failed-IsCounted now l v)
  step-IsCounted now fails_list l m a e v =
      subst IsCounted (some-injective _ _ e) (list_failure-IsCounted now l v)
  step-IsCounted now refreshes l m a e v = subst IsCounted (some-injective _ _ e) v
  step-IsCounted now resets l m a e v = subst IsCounted (some-injective _ _ e) v
  step-IsCounted now resets_board l m a e v = subst IsCounted (some-injective _ _ e) v
  step-IsCounted now (sets_in_score_board b) l m a e v = subst IsCounted (some-injective _ _ e) v
  step-IsCounted now (checks_similar p q) l m a e v =
      subst IsCounted (some-injective _ _ e) (similar-IsCounted p q l v)

  -- In a list that calls made of a new one, the numbers of files with something in them and of uploads are
  -- those of the files there as 32-bit words, the total size is that of the files that are no directories
  -- as a 64-bit word, and none of these is larger than maxfilesize, if every file given to updateFile has a
  -- size of 64 bits and is not marked as uploading and setFileUpdateFlag is given a positive size of 64 bits
  -- and no directory.
  pub Reach-IsCounted : (l : FileList) → Reach l → IsCounted l
  unfolding FileList.new
  Reach-IsCounted l (starts username path state siteskip sectionskip) = record {
    uploaded = refl;
    sized = refl;
    uploads = refl;
    bounded = tt;
  }
  Reach-IsCounted m (calls now c l _ a e r) = step-IsCounted now c l m a e (Reach-IsCounted l r)
