-- ===== src/Path/Examples.antt =====
-- Runs of src/path.cpp.
use cbftp.Common.{◌≡◌, ◌↔◌, ◌⊎◌, refl, Bytes, true, false, some, [], ◌++◌, codes, arith, Returns}
use cbftp.Path.{
  set_separator_absolute, flip_slashes, replace_all, replace_loop, find_byte, clean_path,
  collapse_loop, drop_double, set_path_parts, rfind_byte, cut_last_slash, FilePath, slash, new,
  new_with, join, minus, contains, starts_with,
}
use cbftp.Path.Parts.{contains_decides, minus-join}
use cbftp.Path.Levels.{split, levels}
use cbftp.Path.Levels.Split.{IsSplit, split-IsSplit}
use cbftp.Path.Levels.Parent.{IsIn, new_with-IsIn}

abbrev site_dir : FilePath
site_dir = record {
  path = codes "/site/mp3";
  unixpath = codes "/site/mp3";
  dirname = codes "/site";
  basename = codes "mp3";
  separatorchar = slash;
  absolute = true;
  separatorcertain = true;
}

abbrev release : FilePath
release = record {
  path = codes "A-B-C";
  unixpath = codes "A-B-C";
  dirname = [];
  basename = codes "A-B-C";
  separatorchar = slash;
  absolute = false;
  separatorcertain = false;
}

site_dir_cleaned : new (codes "/site\\\\mp3/") ≡ some site_dir
unfolding new set_separator_absolute flip_slashes replace_all replace_loop find_byte clean_path
    collapse_loop drop_double set_path_parts rfind_byte cut_last_slash
site_dir_cleaned = refl

split-IsSplit_example : Returns (IsSplit (codes "/site/mp3") 0 (levels site_dir)) (split site_dir)
split-IsSplit_example = split-IsSplit site_dir

contains_decides_example : (contains site_dir site_dir ≡ true) ↔ (
    (rest : Bytes) × ((codes "/site/mp3" ≡ codes "/site/mp3" ++ rest)
      × ((rest ≡ []) ⊎ (starts_with slash rest ≡ true))))
contains_decides_example = contains_decides site_dir site_dir

minus-join_example :
    Returns
      (λ j. (minus j site_dir ≡ new_with (codes "A-B-C") slash true) × (contains j site_dir ≡ true))
      (join site_dir release)
minus-join_example =
    minus-join site_dir release refl refl refl refl (omega arith) refl (omega arith) (ground arith)
      (ground arith)

new_with-IsIn_example :
    Returns (IsIn (codes "/site") (codes "mp3")) (new_with (codes "/site/mp3") slash true)
new_with-IsIn_example =
    new_with-IsIn (codes "/site") (codes "mp3") true (ground arith) (omega arith)
