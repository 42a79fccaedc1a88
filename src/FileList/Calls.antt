-- ===== src/FileList/Calls.antt =====
-- The other methods of src/filelist.cpp, and a call of any method that changes the list.
use cbftp.Common.{
  ℕ, ◌+◌, ◌==◌, Bool, true, false, not, ◌&&◌, Option, none, some, List, [], ◌∷◌, if◌then◌else◌, ltb,
  leb, Bytes, Pointer, u64, sub64, u32, sub32, assert,
}
use cbftp.File.{
  File, set_size, size_changes, set_update_flag, finish_upload, download, is_downloading,
  finish_download,
}
use cbftp.FileList.{
  FileList, FileListState, nothing, unknown, nonexistent, failed, no_update, refreshed,
  get_file_case_sensitive, bump_update_state, set_changed, board_changed,
}
use cbftp.FileList.Operations.{change, update_file, touch_file, remove_file, check_similar}

-- `setFileUpdateFlag` on the object that is there.
unfoldable pub flag_found : Option File → ℕ → Bytes → ℕ → (File → File) → FileList → FileList
flag_found none now name size set_flag l = l
flag_found (some old) now name size set_flag l =
    let sized = change name (set_size size) l in
    let counted =
      if size_changes size old
      then board_changed name (
          set_changed now (record sized {
            uploadedfiles = if old.size == 0 then u32 (l.uploadedfiles + 1) else l.uploadedfiles;
            totalfilesize = u64 (l.totalfilesize + sub64 size old.size);
            maxfilesize = if ltb l.maxfilesize size then size else l.maxfilesize;
          }))
      else sized in
    change name set_flag counted

unfoldable pub set_file_update_flag : ℕ → Bytes → ℕ → ℕ → ℕ → ℕ → ℕ → ℕ → FileList → FileList
set_file_update_flag now name size speed src dst srcco dstco l =
    flag_found (get_file_case_sensitive name l) now name size
      (set_update_flag src dst srcco dstco speed) l

-- The two loops of `cleanSweep`, and what follows the removals.
unfoldable pub sweep_names : ℕ → List File → List Bytes
sweep_names touch [] = []
sweep_names touch (f ∷ fs) =
    if not (f.touch == touch) && not f.uploading
    then f.name ∷ sweep_names touch fs
    else sweep_names touch fs

unfoldable pub max_size : ℕ → List File → ℕ
max_size largest [] = largest
max_size largest (f ∷ fs) =
    max_size (if not f.directory && ltb largest f.size then f.size else largest) fs

unfoldable pub finish_found : Option File → ℕ → Bytes → FileList → FileList
finish_found none now name l = l
finish_found (some f) now name l =
    if f.uploading
    then set_changed now (record (change name finish_upload l) { uploading = sub32 l.uploading 1 })
    else l

unfoldable pub download_found : Option File → Bytes → FileList → FileList
download_found none name l = l
download_found (some f) name l = if is_downloading f then l else change name download l

unfoldable pub undownload_found : Option File → Bytes → FileList → FileList
undownload_found none name l = l
undownload_found (some f) name l = if is_downloading f then change name finish_download l else l

unfoldable pub flush : FileList → FileList
flush l = record l {
  files = [];
  lowercasefilemap = [];
  maxfilesize = 0;
  totalfilesize = 0;
  uploadedfiles = 0;
  owned = 0;
  ownpercentage = 100;
  uploading = 0;
  similarchecked = false;
  firstsimilar = nothing;
}

abbrev pub is_failed : FileListState → Bool
is_failed failed = true
is_failed _ = false

abbrev pub is_unknown : FileListState → Bool
is_unknown unknown = true
is_unknown _ = false

unfoldable pub set_failed : ℕ → FileList → FileList
set_failed now l = record (if is_failed l.state then l else set_changed now l) { state = failed }

unfoldable pub set_non_existent : FileList → Option FileList
set_non_existent l = assert (is_unknown l.state) (some (record l { state = nonexistent }))

-- MAX_LIST_FAILURES_BEFORE_STATE_FAILED is 3.
unfoldable pub add_list_failure : ℕ → FileList → Bool × FileList
add_list_failure now l =
    let more = record l { listfailures = l.listfailures + 1 } in
    if leb 3 more.listfailures then (true, set_failed now more) else (false, more)

abbrev pub reset_update_state : FileList → FileList
reset_update_state l = record l { updatestate = no_update }

abbrev pub reset_score_board_updates : FileList → FileList
reset_score_board_updates l = record l {
  scoreboardupdatestate = no_update;
  scoreboardchangedfiles = [];
}

abbrev pub set_refreshed : ℕ → FileList → FileList
set_refreshed now l = bump_update_state refreshed (record l { lastrefreshedstamp = now })

-- A call, with its arguments.
pub data Call : Type 0 where
  updates : File → Call
  touches : Bytes → Bytes → Bool → Call
  removes : Bytes → Call
  flags : Bytes → ℕ → ℕ → ℕ → ℕ → ℕ → ℕ → Call
  sweeps : ℕ → Call
  flushes : Call
  finishes_upload : Bytes → Call
  downloads : Bytes → Call
  finishes_download : Bytes → Call
  sets_non_existent : Call
  sets_state : FileListState → Call
  fails : Call
  fails_list : Call
  refreshes : Call
  resets : Call
  resets_board : Call
  sets_in_score_board : Bool → Call
  checks_similar : Pointer → Pointer → Call

module _ (similar : ℕ → Pointer → Bytes → Bool → Bool) where
  unfoldable pub remove_files : ℕ → List Bytes → FileList → FileList
  remove_files now [] l = l
  remove_files now (name ∷ names) l = remove_files now names (remove_file similar now name l)

  unfoldable pub sweep : List Bytes → ℕ → FileList → FileList
  sweep [] now l = l
  sweep (name ∷ names) now l =
      let removed = remove_files now (name ∷ names) l in
      set_changed now (record removed { maxfilesize = max_size 0 removed.files })

  unfoldable pub clean_sweep : ℕ → ℕ → FileList → FileList
  clean_sweep now touch l = sweep (sweep_names touch l.files) now l

  -- `sets_state` is `setExists`, `setFilled` or `setPreFailed`; `now` is the time of the call.
  unfoldable pub step : ℕ → Call → FileList → Option FileList
  step now (updates file) l = some (update_file similar now file l).1
  step now (touches name user uploads) l = some (touch_file similar now name user uploads l)
  step now (removes name) l = some (remove_file similar now name l)
  step now (flags name size speed src dst srcco dstco) l =
      some (set_file_update_flag now name size speed src dst srcco dstco l)
  step now (sweeps touch) l = some (clean_sweep now touch l)
  step now flushes l = some (flush l)
  step now (finishes_upload name) l =
      some (finish_found (get_file_case_sensitive name l) now name l)
  step now (downloads name) l = some (download_found (get_file_case_sensitive name l) name l)
  step now (finishes_download name) l =
      some (undownload_found (get_file_case_sensitive name l) name l)
  step now sets_non_existent l = set_non_existent l
  step now (sets_state state) l = some (record l { state = state })
  step now fails l = some (set_failed now l)
  step now fails_list l = some (add_list_failure now l).1
  step now refreshes l = some (set_refreshed now l)
  step now resets l = some (reset_update_state l)
  step now resets_board l = some (reset_score_board_updates l)
  step now (sets_in_score_board inscoreboard) l = some (record l { inscoreboard = inscoreboard })
  step now (checks_similar siteskip sectionskip) l =
      some (check_similar similar siteskip sectionskip l)
