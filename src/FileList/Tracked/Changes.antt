-- ===== src/FileList/Tracked/Changes.antt =====
-- What `firstsimilar` of src/filelist.cpp points to after the calls that add, change and remove files.
use cbftp.Common.{
  ℕ, ◌&&◌, ◌||◌, not, refl, inl, inr, Option, none, some, List, [], ◌∷◌, Bytes, Pointer, Bool,
  codes, same_text, Bool-cases, Option-cases,
}
use cbftp.File.{
  File, set_size, size_changes, set_owner, set_group, set_last_modified, set_touch, set_update_flag,
  unset_update_flag, upload, finish_upload, download, is_downloading, finish_download,
}
use cbftp.File
use cbftp.Util.Names.{eight_char_user_compare}
use cbftp.FileList.{FileList, find_file, set_meta_changed, board_changed}
use cbftp.FileList.Operations.{
  change, update_size, update_owned, update_meta, update_rest, update_credit, insert_file,
  update_or_insert, update_file, touch_or_insert, touch_file, is_uploading, remove_found,
  remove_file, is_first, check_similar,
}
use cbftp.FileList.Calls.{remove_files, sweep}
use cbftp.FileList.Tracked.{
  KeepsName, IsTracked, change-Tracked, add-Tracked, check-Tracked, erase-Tracked,
}

module _ (similar : ℕ → Pointer → Bytes → Bool → Bool) where
  pub change-IsTracked :
      (name : Bytes) (g : File → File) (l : FileList)
      → KeepsName g
      → IsTracked similar l
      → IsTracked similar (change name g l)
  change-IsTracked name g l k v = change-Tracked similar _ _ _ _ name g l.files k v

  update_size-IsTracked :
      (now : ℕ) (file old : File) (l : FileList)
      → IsTracked similar l
      → IsTracked similar (update_size now file old l)
  unfolding update_size
  update_size-IsTracked now file old l v =
      let c = change-IsTracked file.name (set_size file.size) l (λ f. (refl, refl)) v in
      elim (Bool-cases (size_changes file.size old)) [
        | inl k ↦ elim (Bool-cases old.directory) [ inl t ↦ rw (k, t) c | inr t ↦ rw (k, t) c ]
        | inr k ↦ rw k c
      ]

  update_owned-IsTracked :
      (file old : File) (l : FileList)
      → IsTracked similar l
      → IsTracked similar (update_owned file old l)
  unfolding update_owned
  update_owned-IsTracked file old l v =
      elim (Bool-cases (eight_char_user_compare file.owner old.owner)) [
        | inl e ↦ rw e v
        | inr e ↦ rw e v
      ]

  update_rest-IsTracked :
      (now : ℕ) (file old : File) (l : FileList)
      → IsTracked similar l
      → IsTracked similar (update_rest now file old l)
  update_rest-IsTracked now file old l v =
      let group = change file.name (set_group file.group) l in
      let modified = change file.name (set_last_modified file.lastmodified) group in
      let g = change-IsTracked file.name (set_group file.group) l (λ f. (refl, refl)) v in
      let m =
        change-IsTracked file.name (set_last_modified file.lastmodified) group (λ f. (refl, refl))
          g in
      let t = change-IsTracked file.name (set_touch file.touch) modified (λ f. (refl, refl)) m in
      elim (Bool-cases (same_text old.group file.group)) [
        | inl a ↦ elim (Bool-cases (same_text old.lastmodified file.lastmodified)) [
          | inl b ↦ rw (a, b) t
          | inr b ↦ rw (a, b) t
        ]
        | inr a ↦ elim (Bool-cases (same_text old.lastmodified file.lastmodified)) [
          | inl b ↦ rw (a, b) t
          | inr b ↦ rw (a, b) t
        ]
      ]

  update_meta-IsTracked :
      (now : ℕ) (file old : File) (l : FileList)
      → IsTracked similar l
      → IsTracked similar (update_meta now file old l)
  unfolding update_meta
  update_meta-IsTracked now file old l v =
      let owner = change file.name (set_owner file.owner) l in
      let o = change-IsTracked file.name (set_owner file.owner) l (λ f. (refl, refl)) v in
      elim (Bool-cases (same_text old.owner file.owner)) [
        | inl a ↦ rw a (update_rest-IsTracked now file old owner o)
        | inr a ↦ rw a (
            update_rest-IsTracked now file old
              (board_changed file.name (set_meta_changed now owner)) o)
      ]

  update_credit-IsTracked :
      (file old : File) (l : FileList)
      → IsTracked similar l
      → IsTracked similar (update_credit file old l)
  unfolding update_credit
  update_credit-IsTracked file old l v = elim (Bool-cases old.updateflag) [
    | inl e ↦ rw e (change-IsTracked file.name unset_update_flag l (λ f. (refl, refl)) v)
    | inr e ↦ rw e v
  ]

  insert_file-IsTracked :
      (now : ℕ) (file : File) (l : FileList)
      → IsTracked similar l
      → IsTracked similar (insert_file similar now file l)
  unfolding insert_file
  insert_file-IsTracked now file l v = add-Tracked similar _ _ _ _ file l.files v

  pub update_file-IsTracked :
      (now : ℕ) (file : File) (l : FileList)
      → IsTracked similar l
      → IsTracked similar (update_file similar now file l).1
  unfolding update_file update_or_insert
  update_file-IsTracked now file l v =
      elim (Bool-cases
        (not file.valid || (same_text file.name (codes ".") || same_text file.name (codes "..")))) [
          | inl e ↦ rw e v
          | inr e ↦ elim (Option-cases (find_file file.name l.files)) [
            | inl n ↦ rw (e, n) (insert_file-IsTracked now file l v)
            | inr (old, n) ↦
                rw (e, n)
                  (update_credit-IsTracked file old _ (
                    update_meta-IsTracked now file old _
                      (update_owned-IsTracked file old _ (update_size-IsTracked now file old l v))))
          ]
        ]

  touched-IsTracked :
      (now : ℕ) (name user : Bytes) (old : Option File) (l : FileList)
      → IsTracked similar l
      → IsTracked similar (touch_or_insert similar old now name user l)
  unfolding touch_or_insert
  touched-IsTracked now name user none l v =
      add-Tracked similar _ _ _ _ (File.new name user) l.files v
  touched-IsTracked now name user (some old) l v =
      change-IsTracked name unset_update_flag l (λ f. (refl, refl)) v

  pub touch_file-IsTracked :
      (now : ℕ) (name user : Bytes) (uploads : Bool) (l : FileList)
      → IsTracked similar l
      → IsTracked similar (touch_file similar now name user uploads l)
  unfolding touch_file
  touch_file-IsTracked now name user uploads l v =
      let old = find_file name l.files in
      let t = touched-IsTracked now name user old l v in
      elim (Bool-cases (uploads && not (is_uploading old))) [
        | inl k ↦ rw k (
            change-IsTracked name upload (touch_or_insert similar old now name user l)
              (λ f. (refl, refl)) t)
        | inr k ↦ rw k t
      ]

  pub remove_found-IsTracked :
      (now : ℕ) (name : Bytes) (old : Option File) (l : FileList)
      → IsTracked similar l
      → IsTracked similar (remove_found similar old now name l)
  unfolding remove_found check_similar
  remove_found-IsTracked now name none l v = v
  remove_found-IsTracked now name (some f) l v =
      let erased = erase-Tracked similar _ _ _ _ name l.files v in
      elim (Bool-cases (l.similarchecked && is_first name l.firstsimilar)) [
        | inl k ↦ rw k (check-Tracked similar _ _ _ _ l.siteskip l.sectionskip _ erased)
        | inr k ↦ rw k erased
      ]

  remove_files-IsTracked :
      (now : ℕ) (names : List Bytes) (l : FileList)
      → IsTracked similar l
      → IsTracked similar (remove_files similar now names l)
  unfolding remove_files remove_file
  remove_files-IsTracked now [] l v = v
  remove_files-IsTracked now (name ∷ names) l v =
      remove_files-IsTracked now names (remove_file similar now name l)
        (remove_found-IsTracked now name (find_file name l.files) l v)

  pub sweep-IsTracked :
      (now : ℕ) (names : List Bytes) (l : FileList)
      → IsTracked similar l
      → IsTracked similar (sweep similar names now l)
  unfolding sweep
  sweep-IsTracked now [] l v = v
  sweep-IsTracked now (name ∷ names) l v = remove_files-IsTracked now (name ∷ names) l v
