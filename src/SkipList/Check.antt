-- ===== src/SkipList/Check.antt =====
-- The methods of SkipList in src/skiplist.cpp, over a store of lists.
use cbftp.Common.{
  ℕ, zero, suc, Bool, true, false, Pointer, Option, none, some, List, [], ◌∷◌, ◌++◌, if◌then◌else◌,
  ◌==◌, Bytes, codes,
}
use cbftp.SkipList.{
  SkiplistItem, SkipListMatch, SkipListAction, SkipList, Scope, create_cache_token, element_parts,
  scan_entries, no_match, find_cached, unless_none,
}

pub wipe_cache : SkipList → SkipList
wipe_cache l = record l { matchcache = [] }

unfoldable pub add_entry : SkiplistItem → SkipList → SkipList
unfolding wipe_cache
add_entry it l = wipe_cache (record l { entries = l.entries ++ it ∷ [] })

unfoldable pub clear_entries : SkipList → SkipList
unfolding wipe_cache
clear_entries l = wipe_cache (record l { entries = [] })

unfoldable pub set_global_skip : Pointer → SkipList → SkipList
set_global_skip g l = record l { globalskip = g }

abbrev default_entry : Bytes → Scope → SkiplistItem
default_entry pattern scope = record {
  regex = false;
  pattern = pattern;
  file = true;
  dir = true;
  scope = scope;
  action = SkipListAction.deny;
}

unfoldable pub default_entries : List SkiplistItem
default_entries =
    default_entry (codes "* *") Scope.scope_all
    ∷ default_entry (codes "*%*") Scope.scope_in_race
    ∷ default_entry (codes "*[*") Scope.scope_in_race
    ∷ default_entry (codes "*]*") Scope.scope_in_race
    ∷ []

-- The two constructors.
unfoldable pub new : Bool → SkipList
unfolding default_entries
new adddefault = record {
  entries = if adddefault then default_entries else [];
  matchcache = [];
  globalskip = none;
}

unfoldable pub new_under : ℕ → SkipList
new_under globalskip = record { entries = []; matchcache = []; globalskip = some globalskip }

abbrev pub Store : Type 0
Store = ℕ → SkipList

abbrev pub put : Store → ℕ → SkipList → Store
put store id l j = if j == id then l else store j

abbrev pub remember : Bytes → SkipListMatch → SkipList → SkipList
remember token m l = record l { matchcache = (token, m) ∷ l.matchcache }

-- The answer of the scan is remembered, and the answer of the cache is not scanned for.
unfoldable pub answer_scanned :
    Bytes → Option SkipListMatch → SkipList → SkipList × Option SkipListMatch
answer_scanned token (some m) l = (remember token m l, some m)
answer_scanned token none l = (remember token (no_match SkipListAction.no_action) l, none)

unfoldable pub answer_cached :
    Option SkipListMatch → Bytes → Option SkipListMatch → SkipList → SkipList × Option SkipListMatch
unfolding answer_scanned
answer_cached (some m) token scanned l = (l, unless_none m m.action)
answer_cached none token scanned l = answer_scanned token scanned l

-- The list that `fallThrough` asks, if any.
unfoldable pub next_list : Pointer → Pointer → Pointer
next_list (some fallthrough) globalskip = some fallthrough
next_list none globalskip = globalskip

-- The answer of `check`, once its own list has answered.
unfoldable pub fall_through :
    Store
    → Option SkipListMatch
    → Pointer
    → (ℕ → Option (Store × SkipListMatch))
    → Option (Store × SkipListMatch)
fall_through store (some m) next ask = some (store, m)
fall_through store none (some j) ask = ask j
fall_through store none none ask = some (store, no_match SkipListAction.allow)

module _ (regex_match : Bytes → Bytes → Bool) where
  -- `check` on a list, up to where it falls through, which is `none`; a list without entries does
  -- not touch its cache.
  unfoldable pub check_entries :
      List SkiplistItem → Bytes → Bool → Bool → SkipList → SkipList × Option SkipListMatch
  unfolding create_cache_token find_cached element_parts scan_entries answer_cached
  check_entries [] element dir inrace l = (l, none)
  check_entries (it ∷ its) element dir inrace l =
      let token = create_cache_token element dir inrace in
      answer_cached (find_cached token l.matchcache) token
        (scan_entries regex_match (it ∷ its) dir inrace (element_parts element)) l

  unfoldable pub check_own : Bytes → Bool → Bool → SkipList → SkipList × Option SkipListMatch
  unfolding check_entries
  check_own element dir inrace l = check_entries l.entries element dir inrace l

  -- `check` and `fallThrough`: a call for each list that is asked.
  unfoldable pub check :
      ℕ → Store → ℕ → Bytes → Bool → Bool → Pointer → Option (Store × SkipListMatch)
  unfolding next_list fall_through
  check zero store id element dir inrace fallthrough = none
  check (suc f) store id element dir inrace fallthrough =
      let (l, own) = check_own element dir inrace (store id) in
      fall_through (put store id l) own (next_list fallthrough l.globalskip)
        (λ j. check f (put store id l) j element dir inrace none)
