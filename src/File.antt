-- ===== src/File.antt =====
-- src/file.h and src/file.cpp: a file in a listing. A site or command owner is its identity.
use cbftp.Common.{
  ℕ, ◌+◌, ◌-◌, Bool, true, false, not, ltb, none, some, [], if◌then◌else◌, Bytes, codes, length,
  Pointer, ◌==◌,
}
use cbftp.Path.{rfind_byte, found}
use cbftp.Util.Names.{to_lower}

pub record File : Type 0 where
  pub name : Bytes
  pub linktarget : Bytes
  pub extension : Bytes
  pub size : ℕ
  pub owner : Bytes
  pub group : Bytes
  pub lastmodified : Bytes
  pub updatespeed : ℕ
  pub updatesrc : Pointer
  pub updatedst : Pointer
  pub updatecosrc : Pointer
  pub updatecodst : Pointer
  pub updateflag : Bool
  pub directory : Bool
  pub softlink : Bool
  pub touch : ℕ
  pub uploading : Bool
  pub downloading : ℕ
  pub valid : Bool

abbrev dot : ℕ
dot = 46

pub get_extension : Bytes → Bytes
get_extension file =
    found (rfind_byte dot file) [] λ r. if ltb 0 (length r.0) then to_lower r.1 else []

-- `File(name, user)`.
unfoldable pub new : Bytes → Bytes → File
new name user = record {
  name = name;
  linktarget = [];
  extension = get_extension name;
  size = 0;
  owner = user;
  group = user;
  lastmodified = codes "0";
  updatespeed = 0;
  updatesrc = none;
  updatedst = none;
  updatecosrc = none;
  updatecodst = none;
  updateflag = false;
  directory = false;
  softlink = false;
  touch = 0;
  uploading = false;
  downloading = 0;
  valid = true;
}

abbrev pub set_update_flag : ℕ → ℕ → ℕ → ℕ → ℕ → File → File
set_update_flag src dst srcco dstco speed f = record f {
  updatesrc = some src;
  updatedst = some dst;
  updatecosrc = some srcco;
  updatecodst = some dstco;
  updatespeed = speed;
  updateflag = true;
}

abbrev pub unset_update_flag : File → File
unset_update_flag f = record f {
  updateflag = false;
  updatesrc = none;
  updatedst = none;
  updatecosrc = none;
  updatecodst = none;
}

-- The setters, of which the first four also say whether anything changed.
abbrev pub set_size : ℕ → File → File
set_size size f = record f { size = size }

abbrev pub size_changes : ℕ → File → Bool
size_changes size f = not (f.size == size)

abbrev pub set_last_modified : Bytes → File → File
set_last_modified lastmodified f = record f { lastmodified = lastmodified }

abbrev pub set_owner : Bytes → File → File
set_owner owner f = record f { owner = owner }

abbrev pub set_group : Bytes → File → File
set_group group f = record f { group = group }

abbrev pub set_touch : ℕ → File → File
set_touch touch f = record f { touch = touch }

abbrev pub download : File → File
download f = record f { downloading = f.downloading + 1 }

abbrev pub is_downloading : File → Bool
is_downloading f = ltb 0 f.downloading

abbrev pub finish_download : File → File
finish_download f = record f { downloading = f.downloading - 1 }

abbrev pub upload : File → File
upload f = record f { uploading = true }

abbrev pub finish_upload : File → File
finish_upload f = record f { uploading = false }
