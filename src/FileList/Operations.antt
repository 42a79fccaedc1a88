-- ===== src/FileList/Operations.antt =====
-- The methods of src/filelist.cpp that change the list.
use cbftp.Common.{
  ℕ, ◌+◌, ◌==◌, Bool, true, false, not, ◌&&◌, ◌||◌, Option, none, some, List, [], ◌∷◌, ◌++◌,
  if◌then◌else◌, ltb, Bytes, codes, Pointer, same_text, u32, u64, sub32, sub64,
}
use cbftp.Util.Names.{to_lower, eight_char_user_compare}
use cbftp.File.{
  File, set_size, size_changes, set_last_modified, set_owner, set_group, set_touch, set_update_flag,
  unset_update_flag, upload, finish_upload, download, is_downloading, finish_download,
}
use cbftp.File
use cbftp.FileList.{
  FileList, Credit, FirstSimilar, nothing, in_list, not_in_list, change_file, erase_file,
  assign_name, erase_name, get_file_case_sensitive, set_changed, set_meta_changed, board_changed,
  recalc_owned_percentage,
}

abbrev pub change : Bytes → (File → File) → FileList → FileList
change name g l = record l { files = change_file name g l.files }

-- `updateFileInternal` on a file that is there, in its parts; `old` is the object before.
abbrev pub count_size : ℕ → File → FileList → FileList
count_size newsize old l = if old.directory then l else record l {
  totalfilesize = u64 (l.totalfilesize + sub64 newsize old.size);
  uploadedfiles =
      if old.size == 0 && ltb 0 newsize
      then u32 (l.uploadedfiles + 1)
      else (if ltb 0 old.size && newsize == 0 then sub32 l.uploadedfiles 1 else l.uploadedfiles);
}

unfoldable pub update_size : ℕ → File → File → FileList → FileList
update_size now file old l =
    let sized = change file.name (set_size file.size) l in
    let counted =
      if size_changes file.size old
      then board_changed file.name (set_changed now (count_size file.size old sized))
      else sized in
    record counted {
      maxfilesize = if ltb counted.maxfilesize file.size then file.size else counted.maxfilesize;
    }

unfoldable pub update_owned : File → File → FileList → FileList
update_owned file old l =
    if eight_char_user_compare file.owner old.owner
    then l
    else recalc_owned_percentage (record l {
      owned =
          if eight_char_user_compare l.username file.owner
          then u32 (l.owned + 1)
          else (if eight_char_user_compare l.username old.owner then sub32 l.owned 1 else l.owned);
    })

abbrev pub update_rest : ℕ → File → File → FileList → FileList
update_rest now file old l =
    let group = change file.name (set_group file.group) l in
    let after_group =
      if same_text old.group file.group then group else set_meta_changed now group in
    let modified = change file.name (set_last_modified file.lastmodified) after_group in
    let after_modified =
      if same_text old.lastmodified file.lastmodified
      then modified
      else set_meta_changed now modified in
    change file.name (set_touch file.touch) after_modified

unfoldable pub update_meta : ℕ → File → File → FileList → FileList
update_meta now file old l =
    let owner = change file.name (set_owner file.owner) l in
    update_rest now file old (
      if same_text old.owner file.owner
      then owner
      else board_changed file.name (set_meta_changed now owner))

-- The file's owner is the new one by now.
unfoldable pub update_credit : File → File → FileList → FileList
update_credit file old l =
    if old.updateflag
    then (let own = eight_char_user_compare l.username file.owner in
        let credit : Credit = record {
          src = old.updatesrc;
          dst = old.updatedst;
          srcco = old.updatecosrc;
          dstco = old.updatecodst;
          size = if own then file.size else old.size;
          speed = old.updatespeed;
          speed_counted =
              own
              && (not (same_text old.extension (codes "sfv"))
                  && not (same_text old.extension (codes "nfo")));
        } in
        record (change file.name unset_update_flag l) { credits = credit ∷ l.credits })
    else l

abbrev pub none_similar : FirstSimilar → Bool
none_similar nothing = true
none_similar _ = false

abbrev pub is_uploading : Option File → Bool
is_uploading none = false
is_uploading (some f) = f.uploading

-- `f == firstsimilar` for the file `f` of the list under the name.
abbrev pub is_first : Bytes → FirstSimilar → Bool
is_first name (in_list first) = same_text name first
is_first name _ = false

-- The pointer once the file under the name has left the list.
abbrev pub left_list : Bytes → FirstSimilar → FirstSimilar
left_list name first = if is_first name first then not_in_list name else first

module _ (similar : ℕ → Pointer → Bytes → Bool → Bool) where
  -- `checkSimilarFile`, by its answer.
  abbrev pub is_similar : Pointer → Pointer → File → Bool
  is_similar none sectionskip f = false
  is_similar (some siteskip) sectionskip f = similar siteskip sectionskip f.name f.directory

  -- The loop of `checkSimilar`.
  unfoldable pub first_similar : Pointer → Pointer → List File → FirstSimilar → FirstSimilar
  first_similar siteskip sectionskip [] before = before
  first_similar siteskip sectionskip (f ∷ fs) before =
      if is_similar siteskip sectionskip f
      then in_list f.name
      else first_similar siteskip sectionskip fs before

  unfoldable pub check_similar : Pointer → Pointer → FileList → FileList
  check_similar siteskip sectionskip l = record l {
    similarchecked = true;
    siteskip = siteskip;
    sectionskip = sectionskip;
    firstsimilar = first_similar siteskip sectionskip l.files l.firstsimilar;
  }

  -- What `updateFileInternal` and `touchFile` share for a file that is new to the list.
  abbrev pub add_file : File → FileList → FileList
  add_file file l = record l {
    files = l.files ++ (file ∷ []);
    lowercasefilemap = assign_name (to_lower file.name) file.name l.lowercasefilemap;
    firstsimilar =
        if l.similarchecked
          && (none_similar l.firstsimilar && is_similar l.siteskip l.sectionskip file)
        then in_list file.name
        else l.firstsimilar;
  }

  abbrev pub own_file : Bytes → FileList → FileList
  own_file owner l = recalc_owned_percentage (record l {
    owned = if eight_char_user_compare l.username owner then u32 (l.owned + 1) else l.owned;
  })

  unfoldable pub insert_file : ℕ → File → FileList → FileList
  insert_file now file l =
      let added = add_file file l in
      let counted = ltb 0 file.size && not file.directory in
      let sized = record added {
        uploadedfiles = if counted then u32 (added.uploadedfiles + 1) else added.uploadedfiles;
        totalfilesize =
            if counted then u64 (added.totalfilesize + file.size) else added.totalfilesize;
        maxfilesize = if ltb added.maxfilesize file.size then file.size else added.maxfilesize;
      } in
      board_changed file.name (set_changed now (own_file file.owner sized))

  -- Its two cases, by the object under the name.
  unfoldable pub update_or_insert : Option File → ℕ → File → FileList → FileList
  update_or_insert (some old) now file l =
      update_credit file old
        (update_meta now file old (update_owned file old (update_size now file old l)))
  update_or_insert none now file l = insert_file now file l

  unfoldable pub update_file : ℕ → File → FileList → Bool × FileList
  update_file now file l =
      if not file.valid || (same_text file.name (codes ".") || same_text file.name (codes ".."))
      then (false, l)
      else (true, update_or_insert (get_file_case_sensitive file.name l) now file l)

  unfoldable pub touch_or_insert : Option File → ℕ → Bytes → Bytes → FileList → FileList
  touch_or_insert (some old) now name user l = change name unset_update_flag l
  touch_or_insert none now name user l =
      board_changed name (set_changed now (own_file user (add_file (File.new name user) l)))

  unfoldable pub touch_file : ℕ → Bytes → Bytes → Bool → FileList → FileList
  touch_file now name user uploads l =
      let old = get_file_case_sensitive name l in
      let touched = touch_or_insert old now name user l in
      if uploads && not (is_uploading old)
      then record (change name upload touched) { uploading = u32 (touched.uploading + 1) }
      else touched

  -- `removeFile` of the object that is there.
  abbrev pub uncount : File → FileList → FileList
  uncount f l =
      let counted = ltb 0 f.size && not f.directory in
      record l {
        owned = if eight_char_user_compare l.username f.owner then sub32 l.owned 1 else l.owned;
        uploadedfiles = if counted then sub32 l.uploadedfiles 1 else l.uploadedfiles;
        totalfilesize = if counted then sub64 l.totalfilesize f.size else l.totalfilesize;
        uploading = if f.uploading then sub32 l.uploading 1 else l.uploading;
      }

  unfoldable pub remove_found : Option File → ℕ → Bytes → FileList → FileList
  remove_found none now name l = l
  remove_found (some f) now name l =
      let uncounted = uncount f l in
      let erased = record uncounted {
        files = erase_file name l.files;
        lowercasefilemap = erase_name (to_lower name) l.lowercasefilemap;
        firstsimilar = left_list name l.firstsimilar;
      } in
      let checked =
        if l.similarchecked && is_first name l.firstsimilar
        then check_similar l.siteskip l.sectionskip erased
        else erased in
      board_changed name (set_changed now (recalc_owned_percentage checked))

  unfoldable pub remove_file : ℕ → Bytes → FileList → FileList
  remove_file now name l = remove_found (get_file_case_sensitive name l) now name l
