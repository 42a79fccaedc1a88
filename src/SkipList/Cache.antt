-- ===== src/SkipList/Cache.antt =====
-- The cache of a list answers as the list itself would, as long as no entry has the action
-- SKIPLIST_NONE: the check forgets an answer with that action when it finds it in the cache.
pub mod Linked
pub mod History
use cbftp.Common.{
  ℕ, zero, suc, ◌≡◌, ◌≢◌, refl, Bool, true, false, ◌&&◌, Pointer, Option, none, some, List, [], ◌∷◌,
  ◌++◌, if◌then◌else◌, ◌==◌, ==_iff, Bytes, arith, Option-cases, Bool-cases, inl, inr, sym, ap,
}
use cbftp.SkipList.{
  SkiplistItem, SkipListMatch, SkipListAction, SkipList, create_cache_token, element_parts,
  scan_entries, scan_parts, no_match, same_bytes, find_cached, or_no_match, unless_none,
}
use cbftp.SkipList.Check.{
  Store, put, remember, answer_cached, check_entries, check_own, check, add_entry, clear_entries,
}

same_bytes-eq : (s t : Bytes) → same_bytes s t ≡ true → s ≡ t
same_bytes-eq [] [] h = refl
same_bytes-eq [] (d ∷ t) h = cc
same_bytes-eq (c ∷ s) [] h = cc
same_bytes-eq (c ∷ s) (d ∷ t) h = ground (arith, same_bytes-eq s t)

-- Two tokens are the same only for the same question.
same_token :
    (e e' : Bytes) (d d' r r' : Bool)
    → create_cache_token e d r ≡ create_cache_token e' d' r'
    → (e ≡ e') × (d ≡ d') × (r ≡ r')
unfolding create_cache_token
same_token [] [] d d' r r' h = ground arith
same_token [] (c ∷ []) d d' r r' h = ground arith
same_token [] (c ∷ b ∷ []) d d' r r' h = ground arith
same_token [] (c ∷ b ∷ a ∷ e') d d' r r' h = ground arith
same_token (c ∷ []) [] d d' r r' h = ground arith
same_token (c ∷ b ∷ []) [] d d' r r' h = ground arith
same_token (c ∷ b ∷ a ∷ e) [] d d' r r' h = ground arith
same_token (c ∷ e) (c' ∷ e') d d' r r' h = ground (arith, same_token e e' d d' r r')

-- No entry has the action SKIPLIST_NONE.
abbrev pub HasNoNone : List SkiplistItem → Type 0
HasNoNone [] = Unit {0}
HasNoNone (it ∷ its) = (it.action ≢ SkipListAction.no_action) × HasNoNone its

module _ (regex_match : Bytes → Bytes → Bool) where
  -- What the entries say of an element.
  abbrev pub verdict : SkipList → Bytes → Bool → Bool → Option SkipListMatch
  verdict l e d r = scan_entries regex_match l.entries d r (element_parts e)

  -- The cache holds verdicts only.
  abbrev pub IsFresh : SkipList → Type 0
  IsFresh l =
      (e : Bytes) (d r : Bool) (m : SkipListMatch)
      → find_cached (create_cache_token e d r) l.matchcache ≡ some m
      → m ≡ or_no_match (verdict l e d r)

  scan_parts-action :
      (it : SkiplistItem) (d r : Bool) (parts : List Bytes) (m : SkipListMatch)
      → scan_parts regex_match it d r parts ≡ some m
      → m.action ≡ it.action
  unfolding scan_parts
  scan_parts-action it d r [] m h = cc
  scan_parts-action it d r (p ∷ ps) m h = ground (arith, scan_parts-action it d r ps m)

  scan_entries-action :
      (its : List SkiplistItem) (d r : Bool) (parts : List Bytes) (m : SkipListMatch)
      → HasNoNone its
      → scan_entries regex_match its d r parts ≡ some m
      → m.action ≢ SkipListAction.no_action
  unfolding scan_entries
  scan_entries-action [] d r parts m n h = cc
  scan_entries-action (it ∷ its) d r parts m n h =
      ground (arith, scan_parts-action it d r parts m, scan_entries-action its d r parts m n.1)

  remember-IsFresh :
      (l : SkipList) (e : Bytes) (d r : Bool)
      → IsFresh l
      → IsFresh (remember (create_cache_token e d r) (or_no_match (verdict l e d r)) l)
  unfolding find_cached
  remember-IsFresh l e d r v e' d' r' m h =
      elim (Bool-cases (same_bytes (create_cache_token e d r) (create_cache_token e' d' r'))) [
        | inl same ↦ ground (arith, same_token e e' d d' r r' (same_bytes-eq _ _ same))
        | inr other ↦ v e' d' r' m (ground arith)
      ]

  -- One list: the answer is the verdict, and the list keeps its entries and a fresh cache.
  abbrev pub Answers : SkipList → Bytes → Bool → Bool → SkipList × Option SkipListMatch → Type 0
  Answers l e d r (l', own) =
      (own ≡ verdict l e d r)
      × (l'.entries ≡ l.entries)
      × (l'.globalskip ≡ l.globalskip)
      × IsFresh l'

  unless_none_other :
      (m : SkipListMatch) (a : SkipListAction)
      → a ≢ SkipListAction.no_action
      → unless_none m a ≡ some m
  unless_none_other m SkipListAction.no_action n = absurd (n refl)
  unless_none_other m _ n = refl

  pub answer_cached-Answers :
      (l : SkipList) (e : Bytes) (d r : Bool) (found scanned : Option SkipListMatch)
      → HasNoNone l.entries
      → IsFresh l
      → find_cached (create_cache_token e d r) l.matchcache ≡ found
      → verdict l e d r ≡ scanned
      → Answers l e d r (answer_cached found (create_cache_token e d r) scanned l)
  unfolding answer_cached
  answer_cached-Answers l e d r (some m) none n v f s =
      let is_no_match = v e d r m f in (ground arith, refl, refl, v)
  answer_cached-Answers l e d r (some m) (some k) n v f s =
      let other = scan_entries-action l.entries d r (element_parts e) k n s in
      let is_k = v e d r m f in (ground (arith, unless_none_other k k.action other), refl, refl, v)
  answer_cached-Answers l e d r none none n v f s =
      (sym s, refl, refl, rw s at (remember-IsFresh l e d r v))
  answer_cached-Answers l e d r none (some k) n v f s =
      (sym s, refl, refl, rw s at (remember-IsFresh l e d r v))

  check_entries-Answers :
      (its : List SkiplistItem) (l : SkipList) (e : Bytes) (d r : Bool)
      → l.entries ≡ its
      → HasNoNone l.entries
      → IsFresh l
      → Answers l e d r (check_entries regex_match its e d r l)
  unfolding check_entries
  check_entries-Answers [] l e d r h n v =
      (ap (λ its. scan_entries regex_match its d r (element_parts e)) (sym h), refl, refl, v)
  check_entries-Answers (it ∷ its) l e d r h n v =
      answer_cached-Answers l e d r _ _ n v refl
        (ap (λ its. scan_entries regex_match its d r (element_parts e)) h)

  -- One list answers with the verdict of its entries, keeps them and keeps its cache fresh.
  pub check_own-Answers :
      (l : SkipList) (e : Bytes) (d r : Bool)
      → HasNoNone l.entries
      → IsFresh l
      → Answers l e d r (check_own regex_match e d r l)
  unfolding check_own
  check_own-Answers l e d r n v = check_entries-Answers l.entries l e d r refl n v
