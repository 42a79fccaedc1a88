-- ===== src/FileList/Invariant/Changes.antt =====
-- Files that come, go or are flagged in src/filelist.cpp keep its counts right.
use cbftp.Common.{
  ℕ, ◌+◌, ◌≤◌, ◌<◌, ◌≡◌, refl, sym, ap, ◌∙◌, Bool, false, not, ◌&&◌, ◌||◌, inl, inr, Option, some,
  List, [], ◌∷◌, if◌then◌else◌, ltb, Bytes, Pointer, same_text, same_text_iff, Bool-cases,
  Option-cases, arith, u32, u64, sub32, sub64, u64_mod, codes,
}
use cbftp.File.{
  File, set_size, size_changes, set_update_flag, unset_update_flag, upload, finish_upload, download,
  finish_download, is_downloading,
}
use cbftp.File
use cbftp.FileList.{FileList, find_file, erase_file}
use cbftp.FileList.Operations.{
  change, touch_or_insert, is_uploading, insert_file, update_or_insert, update_file,
  touch_or_insert, touch_file, remove_found, remove_file, is_first, check_similar,
}
use cbftp.FileList.Calls.{remove_files, sweep, max_size, clean_sweep}
use cbftp.FileList.Lookups.{find_file-change, find_file-append}
use cbftp.FileList.Counts.{
  uploaded_count, file_size, upload_count, total-append, total-change, total-change_same,
  total-erase, AllFiles, AllFiles-append, AllFiles-find, AllFiles-change, AllFiles-erase,
}
use cbftp.FileList.Invariant.{
  Fits, Counted, IsCounted, change-IsCounted, raise, larger, update_size-IsCounted,
  update_owned-IsCounted, update_meta-IsCounted, update_credit-IsCounted,
}

max_size-grows : (n : ℕ) (fs : List File) → n ≤ max_size n fs
unfolding max_size
max_size-grows n [] = omega arith
max_size-grows n (f ∷ fs) =
    ground (arith, max_size-grows (if not f.directory && ltb n f.size then f.size else n) fs)

max_size-bounds :
    (n m : ℕ) (fs : List File) → AllFiles (Fits m) fs → AllFiles (Fits (max_size n fs)) fs
unfolding max_size
max_size-bounds n m [] a = tt
max_size-bounds n m (f ∷ fs) a =
    let k = if not f.directory && ltb n f.size then f.size else n in
    let g = max_size-grows k fs in
    (record { word = a.0.word; at_most = ground arith }, max_size-bounds k m fs a.1)

uploads-IsCounted :
    (name : Bytes) (f : File) (l : FileList)
    → find_file name l.files ≡ some f
    → f.uploading ≡ false
    → IsCounted l
    → IsCounted (record (change name upload l) { uploading = u32 (l.uploading + 1) })
uploads-IsCounted name f l e q v = record {
  uploaded =
      v.uploaded ∙ ap u32 (sym (total-change_same uploaded_count name upload l.files (λ f. refl)));
  sized = v.sized ∙ ap u64 (sym (total-change_same file_size name upload l.files (λ f. refl)));
  uploads = ground (arith, q, v.uploads, total-change upload_count name upload l.files f e);
  bounded =
      AllFiles-change (Fits l.maxfilesize) name upload l.files v.bounded
        (λ f p r. record { word = p.word; at_most = p.at_most });
}

module _ (similar : ℕ → Pointer → Bytes → Bool → Bool) where
  insert_file-IsCounted :
      (now : ℕ) (file : File) (l : FileList)
      → file.size < u64_mod
      → file.uploading ≡ false
      → IsCounted l
      → IsCounted (insert_file similar now file l)
  unfolding insert_file
  insert_file-IsCounted now file l w q v =
      let top = larger l.maxfilesize file.size in
      record {
        uploaded = ground (arith, v.uploaded, total-append uploaded_count l.files (file ∷ []));
        sized = ground (arith, v.sized, total-append file_size l.files (file ∷ []));
        uploads = ground (arith, v.uploads, q, total-append upload_count l.files (file ∷ []));
        bounded =
            AllFiles-append (Fits _) l.files (file ∷ [])
              (raise l.files l.maxfilesize _ top.0 v.bounded)
              (record { word = w; at_most = ground arith }, tt);
      }

  pub update_file-IsCounted :
      (now : ℕ) (file : File) (l : FileList)
      → file.size < u64_mod
      → file.uploading ≡ false
      → IsCounted l
      → IsCounted (update_file similar now file l).1
  unfolding update_file update_or_insert
  update_file-IsCounted now file l w q v =
      elim (Bool-cases
        (not file.valid || (same_text file.name (codes ".") || same_text file.name (codes "..")))) [
          | inl e ↦ rw e v
          | inr e ↦ elim (Option-cases (find_file file.name l.files)) [
            | inl n ↦ rw (e, n) (insert_file-IsCounted now file l w q v)
            | inr (old, n) ↦
                rw (e, n)
                  (update_credit-IsCounted file old _ (
                    update_meta-IsCounted now file old _ (
                      update_owned-IsCounted file old _
                        (update_size-IsCounted now file old l n w v))))
          ]
        ]

  remove_found-IsCounted :
      (now : ℕ) (name : Bytes) (f : File) (l : FileList)
      → find_file name l.files ≡ some f
      → IsCounted l
      → IsCounted (remove_found similar (some f) now name l)
  unfolding remove_found check_similar
  remove_found-IsCounted now name f l e v =
      let o = AllFiles-find (Fits l.maxfilesize) name l.files f v.bounded e in
      let erased : Counted (erase_file name l.files)
          (if ltb 0 f.size && not f.directory then sub32 l.uploadedfiles 1 else l.uploadedfiles)
          (if ltb 0 f.size && not f.directory
            then sub64 l.totalfilesize f.size
            else l.totalfilesize)
          (if f.uploading then sub32 l.uploading 1 else l.uploading) l.maxfilesize =
        record {
          uploaded = ground (arith, v.uploaded, total-erase uploaded_count name l.files f e);
          sized = ground (arith, v.sized, o.word, total-erase file_size name l.files f e);
          uploads = ground (arith, v.uploads, total-erase upload_count name l.files f e);
          bounded = AllFiles-erase (Fits l.maxfilesize) name l.files v.bounded;
        } in
      elim (Bool-cases (l.similarchecked && is_first name l.firstsimilar)) [
        | inl k ↦ rw k erased
        | inr k ↦ rw k erased
      ]

  pub remove_file-IsCounted :
      (now : ℕ) (name : Bytes) (l : FileList)
      → IsCounted l
      → IsCounted (remove_file similar now name l)
  unfolding remove_file remove_found
  remove_file-IsCounted now name l v = elim (Option-cases (find_file name l.files)) [
    | inl n ↦ rw n v
    | inr (f, n) ↦ rw n (remove_found-IsCounted now name f l n v)
  ]

  remove_files-IsCounted :
      (now : ℕ) (names : List Bytes) (l : FileList)
      → IsCounted l
      → IsCounted (remove_files similar now names l)
  unfolding remove_files
  remove_files-IsCounted now [] l v = v
  remove_files-IsCounted now (name ∷ names) l v =
      remove_files-IsCounted now names (remove_file similar now name l)
        (remove_file-IsCounted now name l v)

  sweep-IsCounted :
      (now : ℕ) (names : List Bytes) (l : FileList)
      → IsCounted l
      → IsCounted (sweep similar names now l)
  unfolding sweep
  sweep-IsCounted now [] l v = v
  sweep-IsCounted now (name ∷ names) l v =
      let r = remove_files-IsCounted now (name ∷ names) l v in
      record {
        uploaded = r.uploaded;
        sized = r.sized;
        uploads = r.uploads;
        bounded = max_size-bounds 0 _ _ r.bounded;
      }

  pub clean_sweep-IsCounted :
      (now touch : ℕ) (l : FileList) → IsCounted l → IsCounted (clean_sweep similar now touch l)
  unfolding clean_sweep
  clean_sweep-IsCounted now touch l v = sweep-IsCounted now _ l v

  abbrev Touched : Bytes → Option File → FileList → Type 0
  Touched name old l =
      (f : File) × (find_file name l.files ≡ some f) × (f.uploading ≡ is_uploading old)

  Touched-found :
      (now : ℕ) (name user : Bytes) (l : FileList)
      → Touched name
          (find_file name l.files)
          (touch_or_insert similar (find_file name l.files) now name user l)
  unfolding touch_or_insert File.new
  Touched-found now name user l = elim (Option-cases (find_file name l.files)) [
    | inl n ↦ rw n (
      File.new name user,
      find_file-append name (File.new name user) l.files ((same_text_iff name name).1 refl) n,
      refl,
    )
    | inr (old, n) ↦ rw n (
      unset_update_flag old,
      find_file-change name unset_update_flag l.files old (λ f. refl) n,
      refl,
    )
  ]

  touched-IsCounted :
      (now : ℕ) (name user : Bytes) (l : FileList)
      → IsCounted l
      → IsCounted (touch_or_insert similar (find_file name l.files) now name user l)
  unfolding touch_or_insert File.new
  touched-IsCounted now name user l v = elim (Option-cases (find_file name l.files)) [
    | inl n ↦
        let file = File.new name user in
        rw n (record {
          uploaded = ground (arith, v.uploaded, total-append uploaded_count l.files (file ∷ []));
          sized = ground (arith, v.sized, total-append file_size l.files (file ∷ []));
          uploads = ground (arith, v.uploads, total-append upload_count l.files (file ∷ []));
          bounded =
              AllFiles-append (Fits l.maxfilesize) l.files (file ∷ []) v.bounded
                (record { word = omega arith; at_most = omega arith }, tt);
        })
    | inr (old, n) ↦ rw n (change-IsCounted name unset_update_flag l (λ f. (refl, (refl, refl))) v)
  ]

  pub touch_file-IsCounted :
      (now : ℕ) (name user : Bytes) (uploads : Bool) (l : FileList)
      → IsCounted l
      → IsCounted (touch_file similar now name user uploads l)
  unfolding touch_file
  touch_file-IsCounted now name user uploads l v =
      let m = touch_or_insert similar (find_file name l.files) now name user l in
      let t = touched-IsCounted now name user l v in
      elim (Bool-cases (uploads && not (is_uploading (find_file name l.files)))) [
        | inl k ↦
            let (f, e, q) = Touched-found now name user l in
            rw k (uploads-IsCounted name f m e (ground (arith, k, q)) t)
        | inr k ↦ rw k t
      ]
