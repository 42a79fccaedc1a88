-- ===== src/FileList.antt =====
-- src/filelist.h and src/filelist.cpp: the files in a directory of a site, with counts of them. The
-- objects of the list stand in the order they were first seen; the map from a name to its object is the
-- search in that list, since an object is under its own name there, which never changes. A pointer to a
-- file is its name and whether the file is still in the list. The `int` and `unsigned` counts are 32-bit words and the sizes 64-bit words. The time
-- is an argument, and so is `similar`, the answer of `SkipList::check` for a name.
pub mod Operations
pub mod Calls
pub mod Counts
pub mod Lookups
pub mod Invariant
pub mod Similar
pub mod Tracked
mod Examples
use cbftp.Common.{
  ℕ, zero, suc, ◌+◌, ◌-◌, ◌*◌, ◌/◌, ◌==◌, Bool, true, false, not, ◌&&◌, ◌||◌, Option, none, some,
  List, [], ◌∷◌, ◌++◌, if◌then◌else◌, ltb, leb, Bytes, length, Pointer, is_set, same_text, u32, u64,
  sub32, sub64,
}
use cbftp.Path.{FilePath}
use cbftp.Util.Names.{to_lower, eight_char_user_compare}
use cbftp.File.{File}

pub data FileListState : Type 0 where
  unknown nonexistent exists listed pre_fail failed : FileListState

pub data UpdateState : Type 0 where
  no_update refreshed meta_changed changed : UpdateState

-- Their order as numbers.
abbrev pub rank : UpdateState → ℕ
rank no_update = 0
rank refreshed = 1
rank meta_changed = 2
rank changed = 3

-- The transfer of a file that is counted for its two sites when its owner is known; the speed is counted
-- for the pair of sites if the file is the user's and no sfv or nfo.
pub record Credit : Type 0 where
  pub src : Pointer
  pub dst : Pointer
  pub srcco : Pointer
  pub dstco : Pointer
  pub size : ℕ
  pub speed : ℕ
  pub speed_counted : Bool

-- The pointer `firstsimilar`: null, to the file that the list has under a name, or to one that was under a
-- name and is in the list no more. A new file under its name is another object.
pub data FirstSimilar : Type 0 where
  nothing : FirstSimilar
  in_list : Bytes → FirstSimilar
  not_in_list : Bytes → FirstSimilar

pub record FileList : Type 0 where
  pub files : List File
  pub lowercasefilemap : List (Bytes × Bytes)
  pub username : Bytes
  pub path : FilePath
  pub state : FileListState
  pub locked : Bool
  pub updatestate : UpdateState
  pub scoreboardupdatestate : UpdateState
  pub lastchangedstamp : ℕ
  pub lastmetachangedstamp : ℕ
  pub lastrefreshedstamp : ℕ
  pub owned : ℕ
  pub ownpercentage : ℕ
  pub uploading : ℕ
  pub maxfilesize : ℕ
  pub totalfilesize : ℕ
  pub uploadedfiles : ℕ
  pub listfailures : ℕ
  pub scoreboardchangedfiles : List Bytes
  pub inscoreboard : Bool
  pub similarchecked : Bool
  pub firstsimilar : FirstSimilar
  pub siteskip : Pointer
  pub sectionskip : Pointer
  -- The calls that count transfers, the newest first.
  pub credits : List Credit

-- `init`, of both constructors. The two skip lists are not set there.
unfoldable pub new : Bytes → FilePath → FileListState → Pointer → Pointer → FileList
new username path state siteskip sectionskip = record {
  files = [];
  lowercasefilemap = [];
  username = username;
  path = path;
  state = state;
  locked = false;
  updatestate = no_update;
  scoreboardupdatestate = no_update;
  lastchangedstamp = 0;
  lastmetachangedstamp = 0;
  lastrefreshedstamp = 0;
  owned = 0;
  ownpercentage = 100;
  uploading = 0;
  maxfilesize = 0;
  totalfilesize = 0;
  uploadedfiles = 0;
  listfailures = 0;
  scoreboardchangedfiles = [];
  inscoreboard = false;
  similarchecked = false;
  firstsimilar = nothing;
  siteskip = siteskip;
  sectionskip = sectionskip;
  credits = [];
}

-- The search of a map.
abbrev pub find_file : Bytes → List File → Option File
find_file name [] = none
find_file name (f ∷ fs) = if same_text f.name name then some f else find_file name fs

-- A change of the object under a name.
abbrev pub change_file : Bytes → (File → File) → List File → List File
change_file name g [] = []
change_file name g (f ∷ fs) = if same_text f.name name then g f ∷ fs else f ∷ change_file name g fs

abbrev pub erase_file : Bytes → List File → List File
erase_file name [] = []
erase_file name (f ∷ fs) = if same_text f.name name then fs else f ∷ erase_file name fs

-- The map of lower case names.
abbrev pub find_name : Bytes → List (Bytes × Bytes) → Option Bytes
find_name key [] = none
find_name key ((k, v) ∷ m) = if same_text k key then some v else find_name key m

abbrev pub erase_name : Bytes → List (Bytes × Bytes) → List (Bytes × Bytes)
erase_name key [] = []
erase_name key ((k, v) ∷ m) = if same_text k key then m else (k, v) ∷ erase_name key m

abbrev pub assign_name : Bytes → Bytes → List (Bytes × Bytes) → List (Bytes × Bytes)
assign_name key value m = (key, value) ∷ erase_name key m

abbrev pub is_member : Bytes → List Bytes → Bool
is_member name [] = false
is_member name (n ∷ names) = same_text n name || is_member name names

-- `insert` of a set.
abbrev pub insert_name : Bytes → List Bytes → List Bytes
insert_name name names = if is_member name names then names else name ∷ names

-- `getFileCaseSensitive`, `getFile` and `contains`.
abbrev pub get_file_case_sensitive : Bytes → FileList → Option File
get_file_case_sensitive name l = find_file name l.files

abbrev or_lowercase : Option File → Option Bytes → List File → Option File
or_lowercase (some f) other files = some f
or_lowercase none none files = none
or_lowercase none (some name) files = find_file name files

pub get_file : Bytes → FileList → Option File
get_file name l =
    or_lowercase (find_file name l.files) (find_name (to_lower name) l.lowercasefilemap) l.files

pub contains : Bytes → FileList → Bool
contains name l = is_set (get_file name l)

-- `bumpUpdateState`, without the value it returns.
abbrev pub bump_update_state : UpdateState → FileList → FileList
bump_update_state newstate l = record l {
  scoreboardupdatestate =
      if ltb (rank l.scoreboardupdatestate) (rank newstate)
      then newstate
      else l.scoreboardupdatestate;
  updatestate = if ltb (rank l.updatestate) (rank newstate) then newstate else l.updatestate;
}

abbrev pub set_changed : ℕ → FileList → FileList
set_changed now l = record (bump_update_state changed l) {
  lastchangedstamp = now;
  lastmetachangedstamp = now;
  listfailures = 0;
}

abbrev pub set_meta_changed : ℕ → FileList → FileList
set_meta_changed now l = record (bump_update_state meta_changed l) { lastmetachangedstamp = now }

abbrev pub board_changed : Bytes → FileList → FileList
board_changed name l = record l {
  scoreboardchangedfiles = insert_name name l.scoreboardchangedfiles;
}

-- `owned * 100` is an `int`; the number of files is a 64-bit word.
abbrev pub percentage : ℕ → List File → ℕ
percentage owned [] = 100
percentage owned (f ∷ fs) = u32 (owned * 100) / length (f ∷ fs)

abbrev pub recalc_owned_percentage : FileList → FileList
recalc_owned_percentage l = record l { ownpercentage = percentage l.owned l.files }
