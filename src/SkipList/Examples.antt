-- ===== src/SkipList/Examples.antt =====
-- Runs of src/skiplist.cpp on concrete lists.
use cbftp.Common.{
  ℕ, ◌≡◌, ◌↔◌, refl, Bool, true, false, none, some, [], ◌∷◌, Bytes, codes, Returns, arith,
}
use cbftp.Util.Wildcard.{wildcmp}
use cbftp.SkipList.{
  SkiplistItem, SkipListMatch, SkipListAction, Scope, fixed_slash_compare, element_parts, applies,
  scan_entries,
}
use cbftp.SkipList.Check.{Store, put, check, add_entry, set_global_skip}
use cbftp.SkipList.Slashes.{segments, SegmentsMatch, test_of, fixed_slash_compare_decides}
use cbftp.SkipList.Order.{match_of, scan_entries_first}
use cbftp.SkipList.Cache.Linked.{answer}
use cbftp.SkipList.Cache.History.{Reach, start, adds, links, check-resolve}

-- No regular expression matches.
abbrev no_regex : Bytes → Bytes → Bool
no_regex pattern text = false

abbrev item : Bytes → SkipListAction → SkiplistItem
item pattern action = record {
  regex = false;
  pattern = pattern;
  file = true;
  dir = false;
  scope = Scope.scope_all;
  action = action;
}

abbrev nfo : SkiplistItem
nfo = item (codes "*.nfo") SkipListAction.unique

abbrev all_files : SkiplistItem
all_files = item (codes "*") SkipListAction.deny

abbrev dir_only : SkiplistItem
dir_only = record (item (codes "*") SkipListAction.allow) { file = false; dir = true }

no_star_over_slash : fixed_slash_compare (codes "a*c") (codes "ab/c") false ≡ some false
unfolding fixed_slash_compare
no_star_over_slash = refl

parts : element_parts (codes "a//b/") ≡ codes "a//b/" ∷ codes "/b/" ∷ codes "b/" ∷ []
unfolding element_parts
parts = refl

fixed_slash_compare_decides_example :
    Returns
      (λ b.
        (b ≡ true)
        ↔ SegmentsMatch
            (test_of false)
            (segments (codes "Sub*/*.r?0"))
            (segments (codes "subs/a.R10")))
      (fixed_slash_compare (codes "Sub*/*.r?0") (codes "subs/a.R10") false)
fixed_slash_compare_decides_example =
    fixed_slash_compare_decides (codes "Sub*/*.r?0") (codes "subs/a.R10") false

scan_entries_first_example :
    scan_entries no_regex
      (dir_only ∷ nfo ∷ all_files ∷ [])
      false
      true
      (codes "x/a.nfo" ∷ codes "a.nfo" ∷ [])
    ≡ some (match_of no_regex false true nfo (codes "a.nfo"))
unfolding applies wildcmp
scan_entries_first_example =
    scan_entries_first no_regex false true (dir_only ∷ []) nfo (all_files ∷ [])
      (codes "x/a.nfo" ∷ []) (codes "a.nfo") [] ((refl, (refl, tt)), tt) (refl, tt) refl

-- List 0 falls back on list 1, which denies all files.
abbrev empty_store : Store
empty_store id = record { entries = []; matchcache = []; globalskip = none }

abbrev two_lists : Store
two_lists =
    let s = put empty_store 1 (add_entry all_files (empty_store 1)) in
    let t = put s 0 (set_global_skip (some 1) (s 0)) in put t 0 (add_entry nfo (t 0))

two_lists-Reach : Reach no_regex two_lists
two_lists-Reach =
    adds _ 0 nfo (λ e. ground arith)
      (links _ 0 (some 1)
        (adds empty_store 1 all_files (λ e. ground arith) (start empty_store (λ id. (refl, refl)))))

two_lists_depth : (i g : ℕ) → (two_lists i).globalskip ≡ some g → (two_lists g).globalskip ≡ none
unfolding add_entry set_global_skip
two_lists_depth i g h = ground arith

check-resolve_example :
    Returns
      (λ (o : Store × SkipListMatch).
        answer no_regex 3 two_lists 0 (codes "a.r00") false true none ≡ some o.1)
      (check no_regex 3 two_lists 0 (codes "a.r00") false true none)
check-resolve_example =
    check-resolve no_regex two_lists 0 (codes "a.r00") false true none two_lists-Reach
      two_lists_depth
