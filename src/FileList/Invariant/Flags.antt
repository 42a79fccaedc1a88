-- ===== src/FileList/Invariant/Flags.antt =====
-- Files that are flagged, finished or flushed in src/filelist.cpp keep its counts right.
use cbftp.Common.{
  ℕ, ◌<◌, ◌≡◌, refl, sym, ap, ◌∙◌, false, inl, inr, some, if◌then◌else◌, ltb, Bytes, Bool-cases,
  Option-cases, arith, u32, u64, u64_mod,
}
use cbftp.File.{
  File, set_size, size_changes, finish_upload, download, finish_download, is_downloading,
}
use cbftp.FileList.{FileList, find_file, get_file_case_sensitive}
use cbftp.FileList.Operations.{change}
use cbftp.FileList.Calls.{flag_found, finish_found, download_found, undownload_found, flush}
use mathlib.Core.Option.{some-injective}
use cbftp.FileList.Counts.{
  uploaded_count, file_size, upload_count, total-change, total-change_same, AllFiles-find,
  AllFiles-change,
}
use cbftp.FileList.Invariant.{
  Fits, IsCounted, Quiet, change-Counted, change-IsCounted, larger, resize-Counted,
}

-- The size that is already there.
same_size-Counted :
    (name : Bytes) (size : ℕ) (l : FileList) (old : File)
    → find_file name l.files ≡ some old
    → size_changes size old ≡ false
    → IsCounted l
    → IsCounted (change name (set_size size) l)
same_size-Counted name size l old e k v =
    let o = AllFiles-find (Fits l.maxfilesize) name l.files old v.bounded e in
    record {
      uploaded =
          ground
            (arith, k, v.uploaded, total-change uploaded_count name (set_size size) l.files old e);
      sized = ground (arith, k, v.sized, total-change file_size name (set_size size) l.files old e);
      uploads =
          v.uploads
          ∙ ap u32 (sym (total-change_same upload_count name (set_size size) l.files (λ f. refl)));
      bounded =
          AllFiles-change (Fits l.maxfilesize) name (set_size size) l.files v.bounded (λ f p r.
            let q : f ≡ old = some-injective _ _ (sym r ∙ e) in
            let s : f.size ≡ old.size = ap (λ x. x.size) q in
            let d : f.directory ≡ old.directory = ap (λ x. x.directory) q in
            record { word = ground (arith, o.word, k); at_most = ground (arith, o.at_most, k) });
    }

pub flag_found-IsCounted :
    (now : ℕ) (name : Bytes) (size : ℕ) (g : File → File) (old : File) (l : FileList)
    → find_file name l.files ≡ some old
    → size < u64_mod
    → 0 < size
    → old.directory ≡ false
    → Quiet g
    → IsCounted l
    → IsCounted (flag_found (some old) now name size g l)
unfolding flag_found
flag_found-IsCounted now name size g old l e w o d q v =
    let top = larger l.maxfilesize size in
    let n = if ltb l.maxfilesize size then size else l.maxfilesize in
    let r =
      resize-Counted name size l.files old l.uploadedfiles l.totalfilesize l.uploading l.maxfilesize
        n e w top.0 top.1 v in
    elim (Bool-cases (size_changes size old)) [
      | inl k ↦ rw k (
          change-Counted name g _ _ _ _ _ q (record {
            uploaded = ground (arith, r.uploaded, d, o);
            sized = ground (arith, r.sized, d);
            uploads = r.uploads;
            bounded = r.bounded;
          }))
      | inr k ↦ rw k (change-Counted name g _ _ _ _ _ q (same_size-Counted name size l old e k v))
    ]

pub finish_found-IsCounted :
    (now : ℕ) (name : Bytes) (l : FileList)
    → IsCounted l
    → IsCounted (finish_found (get_file_case_sensitive name l) now name l)
unfolding finish_found
finish_found-IsCounted now name l v = elim (Option-cases (find_file name l.files)) [
  | inl n ↦ rw n v
  | inr (f, n) ↦ elim (Bool-cases f.uploading) [
    | inl k ↦
        rw (n, k)
          (record {
            uploaded =
                v.uploaded
                ∙ ap u32
                    (sym (total-change_same uploaded_count name finish_upload l.files (λ f. refl)));
            sized =
                v.sized
                ∙ ap u64 (sym (total-change_same file_size name finish_upload l.files (λ f. refl)));
            uploads =
                ground
                  (arith, k, v.uploads, total-change upload_count name finish_upload l.files f n);
            bounded =
                AllFiles-change (Fits l.maxfilesize) name finish_upload l.files v.bounded
                  (λ f p r. record { word = p.word; at_most = p.at_most });
          })
    | inr k ↦ rw (n, k) v
  ]
]

pub download_found-IsCounted :
    (name : Bytes) (l : FileList)
    → IsCounted l
    → IsCounted (download_found (get_file_case_sensitive name l) name l)
unfolding download_found
download_found-IsCounted name l v = elim (Option-cases (find_file name l.files)) [
  | inl n ↦ rw n v
  | inr (f, n) ↦ elim (Bool-cases (is_downloading f)) [
    | inl k ↦ rw (n, k) v
    | inr k ↦ rw (n, k) (change-IsCounted name download l (λ f. (refl, (refl, refl))) v)
  ]
]

pub undownload_found-IsCounted :
    (name : Bytes) (l : FileList)
    → IsCounted l
    → IsCounted (undownload_found (get_file_case_sensitive name l) name l)
unfolding undownload_found
undownload_found-IsCounted name l v = elim (Option-cases (find_file name l.files)) [
  | inl n ↦ rw n v
  | inr (f, n) ↦ elim (Bool-cases (is_downloading f)) [
    | inl k ↦ rw (n, k) (change-IsCounted name finish_download l (λ f. (refl, (refl, refl))) v)
    | inr k ↦ rw (n, k) v
  ]
]

pub flush-IsCounted : (l : FileList) → IsCounted (flush l)
unfolding flush
flush-IsCounted l = record { uploaded = refl; sized = refl; uploads = refl; bounded = tt }
