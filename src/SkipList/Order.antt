-- ===== src/SkipList/Order.antt =====
-- Which entry of a list decides, and what the default list of src/skiplist.cpp denies.
use cbftp.Common.{
  ◌≡◌, ◌↔◌, refl, Bool, true, false, none, some, List, [], ◌∷◌, ◌++◌, Bytes, codes, arith, is_true,
}
use cbftp.Util.Wildcard.{same}
use cbftp.Util.Wildcard.Matching.{Matches, byte, skip, take, star_all}
use cbftp.SkipList.{
  SkiplistItem, SkipListMatch, SkipListAction, split_slash, fixed_slash_compare, applies,
  scan_parts, scan_entries,
}
use cbftp.SkipList.Slashes.{segments, segments-none, returned_iff, fixed_slash_compare_decides}
use cbftp.SkipList.Check.{check_own, new}

module _ (regex_match : Bytes → Bytes → Bool) (dir inrace : Bool) where
  -- The entry applies to no part, and no entry applies to any part.
  abbrev pub NoPart : SkiplistItem → List Bytes → Type 0
  NoPart it [] = Unit {0}
  NoPart it (p ∷ ps) = (applies regex_match it dir inrace p ≡ false) × NoPart it ps

  abbrev pub NoEntry : List SkiplistItem → List Bytes → Type 0
  NoEntry [] ps = Unit {0}
  NoEntry (it ∷ its) ps = NoPart it ps × NoEntry its ps

  abbrev pub match_of : SkiplistItem → Bytes → SkipListMatch
  match_of it part = record {
    action = it.action;
    matched = true;
    regex = it.regex;
    matchpattern = it.pattern;
    matchedpath = part;
  }

  scan_parts_iff :
      (it : SkiplistItem) (ps : List Bytes)
      → (scan_parts regex_match it dir inrace ps ≡ none) ↔ NoPart it ps
  unfolding scan_parts
  scan_parts_iff it [] = (λ h. tt, λ n. refl)
  scan_parts_iff it (p ∷ ps) = ground (arith, scan_parts_iff it ps)

  -- The scan finds nothing exactly if no entry applies to any part of the element.
  pub scan_entries-none :
      (its : List SkiplistItem) (ps : List Bytes)
      → (scan_entries regex_match its dir inrace ps ≡ none) ↔ NoEntry its ps
  unfolding scan_entries
  scan_entries-none [] ps = (λ h. tt, λ n. refl)
  scan_entries-none (it ∷ its) ps = ground (arith, scan_parts_iff it ps, scan_entries-none its ps)

  scan_parts_first :
      (it : SkiplistItem) (before : List Bytes) (p : Bytes) (rest : List Bytes)
      → NoPart it before
      → applies regex_match it dir inrace p ≡ true
      → scan_parts regex_match it dir inrace (before ++ p ∷ rest) ≡ some (match_of it p)
  unfolding scan_parts
  scan_parts_first it [] p rest n h = ground arith
  scan_parts_first it (b ∷ bs) p rest n h = ground (arith, scan_parts_first it bs p rest n.1)

  -- The first entry of a list that applies to a part decides, whatever later entries say: the match
  -- has its action and pattern, and names the first part that it applies to.
  pub scan_entries_first :
      (before : List SkiplistItem) (it : SkiplistItem) (rest : List SkiplistItem) (ps : List Bytes)
      (p : Bytes) (qs : List Bytes)
      → NoEntry before (ps ++ p ∷ qs)
      → NoPart it ps
      → applies regex_match it dir inrace p ≡ true
      → scan_entries regex_match (before ++ it ∷ rest) dir inrace (ps ++ p ∷ qs)
        ≡ some (match_of it p)
  unfolding scan_entries
  scan_entries_first [] it rest ps p qs n m h = rw (scan_parts_first it ps p qs m h, scan_entries)
  scan_entries_first (x ∷ xs) it rest ps p qs n m h =
      rw ((scan_parts_iff x (ps ++ p ∷ qs)).1 n.0, scan_entries)
        (scan_entries_first xs it rest ps p qs n.1 m h)

-- Any text with a space in it.
Matches-space : (a b : Bytes) → Matches same (codes "* *") (a ++ 32 ∷ b)
unfolding same
Matches-space [] b = skip refl (byte (λ e. ground arith) refl (star_all b))
Matches-space (c ∷ a) b = take refl (Matches-space a b)

space_compares :
    (a b : Bytes)
    → split_slash (a ++ 32 ∷ b) ≡ none
    → is_true (fixed_slash_compare (codes "* *") (a ++ 32 ∷ b) false) ≡ true
unfolding segments
space_compares a b h =
    (returned_iff _ (fixed_slash_compare_decides (codes "* *") (a ++ 32 ∷ b) false)).1
      (rw (segments-none (a ++ 32 ∷ b) h) (Matches-space a b, tt))

-- A new list with the default entries denies every name without a slash that has a space in it, file
-- or directory, in a race or not.
pub default_denies_space :
    (regex_match : Bytes → Bytes → Bool) (a b : Bytes) (dir inrace : Bool)
    → split_slash (a ++ 32 ∷ b) ≡ none
    → (check_own regex_match (a ++ 32 ∷ b) dir inrace (new true)).1
      ≡ some (record {
        action = SkipListAction.deny;
        matched = true;
        regex = false;
        matchpattern = codes "* *";
        matchedpath = a ++ 32 ∷ b;
      })
unfolding check_own new applies
default_denies_space regex_match a b dir inrace h = ground (arith, space_compares a b h)
