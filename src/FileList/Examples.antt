-- ===== src/FileList/Examples.antt =====
-- Runs of src/filelist.cpp on concrete lists.
use cbftp.Common.{
  drop, ℕ, ◌≡◌, refl, Bool, true, none, some, [], Bytes, Pointer, codes, same_text, arith,
}
use cbftp.Path.{FilePath}
use cbftp.File.{File}
use cbftp.File
use cbftp.FileList.{
  FileList, in_list, not_in_list, exists, find_file, erase_file, get_file_case_sensitive,
}
use cbftp.FileList
use cbftp.FileList.Operations.{
  remove_found, check_similar, first_similar, remove_file, insert_file, update_file,
  update_or_insert,
}
use cbftp.FileList.Calls.{updates, step}
use cbftp.FileList.Invariant.{IsCounted}
use cbftp.FileList.Invariant.Run.{Reach, starts, calls, Reach-IsCounted}
use cbftp.FileList.Similar.{FirstOr, remove_file-FirstOr}

-- An rar file with a name of one letter is one of a set.
abbrev rar_similar : ℕ → Pointer → Bytes → Bool → Bool
rar_similar siteskip sectionskip name directory = same_text (drop 2 name) (codes "rar")

abbrev root : FilePath
root = record {
  path = codes "/";
  unixpath = codes "/";
  dirname = [];
  basename = codes "/";
  separatorchar = 47;
  absolute = true;
  separatorcertain = true;
}

abbrev empty_list : FileList
empty_list = FileList.new (codes "me") root exists (some 1) (some 2)

abbrev rar_file : File
rar_file = record (File.new (codes "a.rar") (codes "me")) { size = 5; touch = 1 }

abbrev nfo_file : File
nfo_file = record (File.new (codes "a.nfo") (codes "you")) { size = 2; touch = 1 }

abbrev with_rar : FileList
with_rar = (update_file rar_similar 1 rar_file empty_list).1

abbrev with_both : FileList
with_both = (update_file rar_similar 2 nfo_file with_rar).1

-- A list with the rar file remembered as similar.
abbrev checked : FileList
checked = record with_both { similarchecked = true; firstsimilar = in_list (codes "a.rar") }

reached : Reach rar_similar with_both
unfolding step File.new
reached =
    calls 2 (updates nfo_file) with_rar with_both (omega arith, refl) refl
      (calls 1 (updates rar_file) empty_list with_rar (omega arith, refl) refl
        (starts (codes "me") root exists (some 1) (some 2)))

Reach-IsCounted_example : IsCounted with_both
Reach-IsCounted_example = Reach-IsCounted rar_similar with_both reached

checked_rar : get_file_case_sensitive (codes "a.rar") checked ≡ some rar_file
unfolding update_file update_or_insert insert_file File.new FileList.new
checked_rar = refl

checked_once : find_file (codes "a.rar") (erase_file (codes "a.rar") checked.files) ≡ none
unfolding update_file update_or_insert insert_file File.new FileList.new
checked_once = refl

remove_file-FirstOr_example :
    FirstOr rar_similar checked.siteskip checked.sectionskip
      (remove_file rar_similar 3 (codes "a.rar") checked).files
      (not_in_list (codes "a.rar"))
      (remove_file rar_similar 3 (codes "a.rar") checked).firstsimilar
    × (get_file_case_sensitive (codes "a.rar") (remove_file rar_similar 3 (codes "a.rar") checked)
        ≡ none)
remove_file-FirstOr_example =
    remove_file-FirstOr rar_similar 3 (codes "a.rar") rar_file checked checked_rar checked_once refl
      refl

-- A file that comes back under the name of the removed one is not the one that is remembered: when it
-- is removed too, the list does not look for the first similar file.
came_back : FileList
came_back =
    (update_file rar_similar 4 rar_file (remove_file rar_similar 3 (codes "a.rar") checked)).1

abbrev other_rar : File
other_rar = record rar_file { name = codes "b.rar" }

searched_again : FileList
searched_again =
    remove_file rar_similar 6 (codes "a.rar") (update_file rar_similar 5 other_rar came_back).1

not_searched : searched_again.firstsimilar ≡ not_in_list (codes "a.rar")
unfolding searched_again came_back remove_file remove_found check_similar first_similar update_file
    update_or_insert insert_file File.new FileList.new
not_searched = refl

abbrev looked : FileList
looked = check_similar rar_similar (some 1) (some 2) with_both

abbrev both_rar : FileList
both_rar = (update_file rar_similar 4 other_rar looked).1

abbrev one_rar : FileList
one_rar = remove_file rar_similar 5 (codes "a.rar") both_rar

other_first : one_rar.firstsimilar ≡ in_list (codes "b.rar")
unfolding remove_file remove_found check_similar first_similar update_file update_or_insert
    insert_file File.new FileList.new
other_first = refl
