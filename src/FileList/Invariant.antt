-- ===== src/FileList/Invariant.antt =====
-- The counts of src/filelist.cpp agree with the files that are there.
pub mod Changes
pub mod Flags
pub mod Run
use cbftp.Common.{
  ℕ, zero, suc, ◌+◌, ◌-◌, ◌≤◌, ◌<◌, ◌≡◌, refl, subst, sym, ap, ap₂, ◌∙◌, Bool, true, false, not,
  ◌&&◌, ◌||◌, ◌⊎◌, inl, inr, Option, none, some, List, [], ◌∷◌, ◌++◌, if◌then◌else◌, ◌==◌, ltb, leb,
  Bytes, Pointer, same_text, Bool-cases, Option-cases, arith, u32, u64, sub32, sub64, u64_mod,
  codes,
}
use cbftp.Util.Names.{eight_char_user_compare}
use cbftp.File.{
  File, set_size, size_changes, set_owner, set_group, set_last_modified, set_touch, set_update_flag,
  unset_update_flag, upload, finish_upload,
}
use cbftp.File
use cbftp.FileList.{
  FileList, find_file, change_file, erase_file, get_file_case_sensitive, percentage, board_changed,
  set_meta_changed,
}
use cbftp.FileList.Operations.{
  change, count_size, update_size, update_owned, update_meta, update_rest, update_credit,
  insert_file, update_or_insert, update_file, touch_or_insert, touch_file, remove_found,
  remove_file, check_similar,
}
use cbftp.FileList.Counts.{
  total, uploaded_count, file_size, upload_count, total-append, total-change, total-change_same,
  total-erase, AllFiles, AllFiles-append, AllFiles-find, AllFiles-change, AllFiles-erase,
  AllFiles-map,
}

-- A size is a 64-bit word, and that of a file at most `n`.
pub record Fits (n : ℕ) (f : File) : Type 0 where
  pub word : f.size < u64_mod
  pub at_most : file_size f ≤ n

pub record Counted (files : List File) (uploadedfiles totalfilesize uploading maxfilesize : ℕ)
    : Type 0 where
  pub uploaded : uploadedfiles ≡ u32 (total uploaded_count files)
  pub sized : totalfilesize ≡ u64 (total file_size files)
  pub uploads : uploading ≡ u32 (total upload_count files)
  pub bounded : AllFiles (Fits maxfilesize) files

abbrev pub IsCounted : FileList → Type 0
IsCounted l = Counted l.files l.uploadedfiles l.totalfilesize l.uploading l.maxfilesize

-- A change that no count sees.
abbrev pub Quiet : (File → File) → Type 0
Quiet g =
    (f : File)
    → ((g f).size ≡ f.size) × (((g f).directory ≡ f.directory) × ((g f).uploading ≡ f.uploading))

quiet_counts :
    (f h : File)
    → (h.size ≡ f.size) × ((h.directory ≡ f.directory) × (h.uploading ≡ f.uploading))
    → (uploaded_count h ≡ uploaded_count f)
      × ((file_size h ≡ file_size f) × (upload_count h ≡ upload_count f))
quiet_counts f h e = (rw (e.0, e.1.0), (rw (e.0, e.1.0), rw e.1.1))

pub change-Counted :
    (name : Bytes) (g : File → File) (fs : List File) (a b c d : ℕ)
    → Quiet g
    → Counted fs a b c d
    → Counted (change_file name g fs) a b c d
change-Counted name g fs a b c d q v =
    let k = λ (f : File). quiet_counts f (g f) (q f) in
    record {
      uploaded =
          v.uploaded ∙ ap u32 (sym (total-change_same uploaded_count name g fs (λ f. (k f).0)));
      sized = v.sized ∙ ap u64 (sym (total-change_same file_size name g fs (λ f. (k f).1.0)));
      uploads =
          v.uploads ∙ ap u32 (sym (total-change_same upload_count name g fs (λ f. (k f).1.1)));
      bounded = AllFiles-change (Fits d) name g fs v.bounded (λ f p e. record {
        word = omega (arith, p.word, (q f).0);
        at_most = omega (arith, p.at_most, (k f).1.0);
      });
    }

pub raise : (fs : List File) (m n : ℕ) → m ≤ n → AllFiles (Fits m) fs → AllFiles (Fits n) fs
raise fs m n h a =
    AllFiles-map (Fits m) (Fits n) fs
      (λ f p. record { word = p.word; at_most = omega (arith, p.at_most, h) }) a

-- A new size for the object under a name.
pub resize-Counted :
    (name : Bytes) (size : ℕ) (fs : List File) (old : File) (a b c d n : ℕ)
    → find_file name fs ≡ some old
    → size < u64_mod
    → d ≤ n
    → size ≤ n
    → Counted fs a b c d
    → Counted
        (change_file name (set_size size) fs)
        (if old.directory
          then a
          else (if old.size == 0 && ltb 0 size
              then u32 (a + 1)
              else (if ltb 0 old.size && size == 0 then sub32 a 1 else a)))
        (if old.directory then b else u64 (b + sub64 size old.size))
        c
        n
resize-Counted name size fs old a b c d n e w h k v =
    let o = AllFiles-find (Fits d) name fs old v.bounded e in
    let u = total-change uploaded_count name (set_size size) fs old e in
    let s = total-change file_size name (set_size size) fs old e in
    let p = total-change_same upload_count name (set_size size) fs (λ f. refl) in
    record {
      uploaded = elim (Bool-cases old.directory) [
        | inl t ↦ ground (arith, v.uploaded, u, t)
        | inr t ↦ ground (arith, v.uploaded, u, t)
      ];
      sized = elim (Bool-cases old.directory) [
        | inl t ↦ ground (arith, v.sized, s, t)
        | inr t ↦ ground (arith, v.sized, s, t, o.word)
      ];
      uploads = v.uploads ∙ ap u32 (sym p);
      bounded =
          AllFiles-change (Fits n) name (set_size size) fs (raise fs d n h v.bounded)
            (λ f q r. record { word = w; at_most = ground arith });
    }

pub larger : (a b : ℕ) → (a ≤ (if ltb a b then b else a)) × (b ≤ (if ltb a b then b else a))
larger a b = (ground arith, ground arith)

pub update_size-IsCounted :
    (now : ℕ) (file old : File) (l : FileList)
    → get_file_case_sensitive file.name l ≡ some old
    → file.size < u64_mod
    → IsCounted l
    → IsCounted (update_size now file old l)
unfolding update_size
update_size-IsCounted now file old l e w v =
    let top = larger l.maxfilesize file.size in
    let n = if ltb l.maxfilesize file.size then file.size else l.maxfilesize in
    let r =
      resize-Counted file.name file.size l.files old l.uploadedfiles l.totalfilesize l.uploading
        l.maxfilesize n e w top.0 top.1 v in
    elim (Bool-cases (size_changes file.size old)) [
      | inl k ↦ elim (Bool-cases old.directory) [
        | inl t ↦ rw (k, t) (rw t at r)
        | inr t ↦ rw (k, t) (rw t at r)
      ]
      | inr k ↦ rw k (record {
        uploaded = ground (arith, k, r.uploaded);
        sized = ground (arith, k, r.sized, v.sized);
        uploads = r.uploads;
        bounded = r.bounded;
      })
    ]

pub update_owned-IsCounted :
    (file old : File) (l : FileList) → IsCounted l → IsCounted (update_owned file old l)
unfolding update_owned
update_owned-IsCounted file old l v =
    elim (Bool-cases (eight_char_user_compare file.owner old.owner)) [
      | inl e ↦ rw e v
      | inr e ↦ rw e v
    ]

pub change-IsCounted :
    (name : Bytes) (g : File → File) (l : FileList)
    → Quiet g
    → IsCounted l
    → IsCounted (change name g l)
change-IsCounted name g l q v = change-Counted name g l.files _ _ _ _ q v

-- The part of `update_meta` after the owner.
meta_rest :
    (now : ℕ) (file old : File) (l : FileList)
    → IsCounted l
    → IsCounted (update_rest now file old l)
meta_rest now file old l v =
    let quiet : (f : File)
        → (f.size ≡ f.size) × ((f.directory ≡ f.directory) × (f.uploading ≡ f.uploading)) =
      λ f. (refl, (refl, refl)) in
    let g = change-IsCounted file.name (set_group file.group) l quiet v in
    let m =
      change-IsCounted file.name (set_last_modified file.lastmodified)
        (change file.name (set_group file.group) l) quiet g in
    let t =
      change-IsCounted file.name (set_touch file.touch)
        (change file.name (set_last_modified file.lastmodified)
          (change file.name (set_group file.group) l))
        quiet m in
    elim (Bool-cases (same_text old.group file.group)) [
      | inl a ↦ elim (Bool-cases (same_text old.lastmodified file.lastmodified)) [
        | inl b ↦ rw (a, b) t
        | inr b ↦ rw (a, b) t
      ]
      | inr a ↦ elim (Bool-cases (same_text old.lastmodified file.lastmodified)) [
        | inl b ↦ rw (a, b) t
        | inr b ↦ rw (a, b) t
      ]
    ]

pub update_meta-IsCounted :
    (now : ℕ) (file old : File) (l : FileList)
    → IsCounted l
    → IsCounted (update_meta now file old l)
unfolding update_meta
update_meta-IsCounted now file old l v =
    let quiet : (f : File)
        → (f.size ≡ f.size) × ((f.directory ≡ f.directory) × (f.uploading ≡ f.uploading)) =
      λ f. (refl, (refl, refl)) in
    let owner = change file.name (set_owner file.owner) l in
    let o = change-IsCounted file.name (set_owner file.owner) l quiet v in
    elim (Bool-cases (same_text old.owner file.owner)) [
      | inl a ↦ rw a (meta_rest now file old owner o)
      | inr a ↦
          rw a (meta_rest now file old (board_changed file.name (set_meta_changed now owner)) o)
    ]

pub update_credit-IsCounted :
    (file old : File) (l : FileList) → IsCounted l → IsCounted (update_credit file old l)
unfolding update_credit
update_credit-IsCounted file old l v = elim (Bool-cases old.updateflag) [
  | inl e ↦
      rw e
        (change-Counted file.name unset_update_flag l.files _ _ _ _ (λ f. (refl, (refl, refl))) v)
  | inr e ↦ rw e v
]
