-- ===== src/SkipList.antt =====
-- src/skiplistitem.h, src/skiplistitem.cpp, src/skiplist.h and src/skiplist.cpp: which files and
-- directories a site may take. A text is its bytes. A regular expression is its text, and `regex` says
-- what it matches, in place of std::regex; a pattern that does not compile is not modelled. The lists
-- are objects in a store, since they refer to one another and keep a cache.
pub mod Check
pub mod Slashes
pub mod Cache
pub mod Order
mod Examples
use cbftp.Common.{
  ℕ, zero, suc, ◌+◌, length, Bool, true, false, ◌&&◌, ◌||◌, not, Pointer, Option, none, some, List,
  [], ◌∷◌, ◌++◌, if◌then◌else◌, ◌==◌, Bytes, codes, is_true,
}
use cbftp.Util.Wildcard.{wildcmp, wildcmp_case}

pub data Scope : Type 0 where
  scope_in_race scope_all : Scope

pub data SkipListAction : Type 0 where
  allow deny unique similar no_action : SkipListAction

pub record SkiplistItem : Type 0 where
  pub regex : Bool
  pub pattern : Bytes
  pub file : Bool
  pub dir : Bool
  pub scope : Scope
  pub action : SkipListAction

-- The compiled expression of the source is the one of `matchpattern`.
pub record SkipListMatch : Type 0 where
  pub action : SkipListAction
  pub matched : Bool
  pub regex : Bool
  pub matchpattern : Bytes
  pub matchedpath : Bytes

pub record SkipList : Type 0 where
  pub entries : List SkiplistItem
  pub matchcache : List (Bytes × SkipListMatch)
  pub globalskip : Pointer

-- '/'
abbrev pub slash : ℕ
slash = 47

-- `find('/')` and the two `substr` calls: the text before the first slash and the text after it.
unfoldable pub split_slash : Bytes → Option (Bytes × Bytes)
split_slash [] = none
split_slash (c ∷ s) = elim (c == slash) [
  | true ↦ some ([], s)
  | false ↦ elim (split_slash s) [ none ↦ none | some (before, rest) ↦ some (c ∷ before, rest) ]
]

abbrev pub wild_test : Bool → Bytes → Bytes → Bool
wild_test casesensitive w e = is_true (if casesensitive then wildcmp_case w e else wildcmp w e)

-- Each call has one slash less in the pattern; the fuel is used up by that alone.
unfoldable pub fixed_slash_loop : ℕ → Bytes → Bytes → Bool → Option Bool
unfolding split_slash
fixed_slash_loop zero wild element casesensitive = none
fixed_slash_loop (suc f) wild element casesensitive = elim (split_slash wild) [
  | none ↦ elim (split_slash element) [
    | none ↦ some (wild_test casesensitive wild element)
    | some (elem, elem_rest) ↦ some false
  ]
  | some (w, wild_rest) ↦ elim (split_slash element) [
    | none ↦ some false
    | some (elem, elem_rest) ↦ elim (wild_test casesensitive w elem) [
      | true ↦ fixed_slash_loop f wild_rest elem_rest casesensitive
      | false ↦ some false
    ]
  ]
]

unfoldable pub fixed_slash_compare : Bytes → Bytes → Bool → Option Bool
unfolding fixed_slash_loop
fixed_slash_compare wild element casesensitive =
    fixed_slash_loop (length wild + 1) wild element casesensitive

unfoldable pub create_cache_token : Bytes → Bool → Bool → Bytes
create_cache_token pattern dir inrace =
    pattern ++ (if dir then b'1' else b'0') ∷ (if inrace then b'1' else b'0') ∷ []

-- The suffixes of the element that stand behind a slash and are not empty, and the element itself.
pub parts_after : Bytes → List Bytes
parts_after [] = []
parts_after (c ∷ []) = []
parts_after (c ∷ d ∷ s) =
    let rest = parts_after (d ∷ s) in if c == slash then (d ∷ s) ∷ rest else rest

unfoldable pub element_parts : Bytes → List Bytes
unfolding parts_after
element_parts element = element ∷ parts_after element

abbrev pub is_in_race : Scope → Bool
is_in_race Scope.scope_in_race = true
is_in_race Scope.scope_all = false

module _ (regex_match : Bytes → Bytes → Bool) where
  -- The tests of the inner loop.
  unfoldable pub applies : SkiplistItem → Bool → Bool → Bytes → Bool
  unfolding fixed_slash_compare
  applies it dir inrace part =
      not (is_in_race it.scope && not inrace)
      && (it.dir && dir || it.file && not dir)
      && (if it.regex
          then regex_match it.pattern part
          else is_true (fixed_slash_compare it.pattern part false))

  unfoldable pub scan_parts : SkiplistItem → Bool → Bool → List Bytes → Option SkipListMatch
  unfolding applies
  scan_parts it dir inrace [] = none
  scan_parts it dir inrace (part ∷ parts) =
      if applies it dir inrace part
      then some (record {
        action = it.action;
        matched = true;
        regex = it.regex;
        matchpattern = it.pattern;
        matchedpath = part;
      })
      else scan_parts it dir inrace parts

  unfoldable pub scan_entries : List SkiplistItem → Bool → Bool → List Bytes → Option SkipListMatch
  unfolding scan_parts
  scan_entries [] dir inrace parts = none
  scan_entries (it ∷ its) dir inrace parts = elim (scan_parts it dir inrace parts) [
    | none ↦ scan_entries its dir inrace parts
    | some m ↦ some m
  ]

abbrev pub no_match : SkipListAction → SkipListMatch
no_match action = record {
  action = action;
  matched = false;
  regex = false;
  matchpattern = [];
  matchedpath = [];
}

abbrev pub same_bytes : Bytes → Bytes → Bool
same_bytes [] [] = true
same_bytes [] (d ∷ t) = false
same_bytes (c ∷ s) [] = false
same_bytes (c ∷ s) (d ∷ t) = c == d && same_bytes s t

unfoldable pub find_cached : Bytes → List (Bytes × SkipListMatch) → Option SkipListMatch
find_cached token [] = none
find_cached token ((t, m) ∷ cache) = if same_bytes t token then some m else find_cached token cache

abbrev pub or_no_match : Option SkipListMatch → SkipListMatch
or_no_match none = no_match SkipListAction.no_action
or_no_match (some m) = m

-- A match that stands for none makes `check` fall through.
abbrev pub unless_none : SkipListMatch → SkipListAction → Option SkipListMatch
unless_none m SkipListAction.no_action = none
unless_none m _ = some m
