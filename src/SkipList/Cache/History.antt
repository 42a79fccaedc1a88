-- ===== src/SkipList/Cache/History.antt =====
-- A store of lists after any calls of the methods.
use mathlib.Core.Option.{some-injective}
use cbftp.Common.{
  ℕ, ◌≡◌, ◌≢◌, refl, ap, subst, ◌∙◌, Bool, true, Pointer, Option, none, some, List, [], ◌∷◌, ◌++◌,
  Bytes, arith, is_set, Returns,
}
use cbftp.SkipList.{
  SkiplistItem, SkipListMatch, SkipListAction, SkipList, scan_entries, element_parts, find_cached,
}
use cbftp.SkipList.Check.{Store, put, next_list, check, add_entry, clear_entries, set_global_skip}
use cbftp.SkipList.Cache.{IsFresh, HasNoNone}
use cbftp.SkipList.Cache.Linked.{put-all, pick, resolve, answer, IsSound, Agrees, check-Agrees}

module _ (regex_match : Bytes → Bytes → Bool) where
  -- A store after any calls of the methods, from lists that the constructors made. An entry never gets
  -- the action SKIPLIST_NONE, which the user cannot choose.
  pub data Reach : Store → Type 0 where
    start : (s : Store) → ((id : ℕ) → ((s id).entries ≡ []) × ((s id).matchcache ≡ [])) → Reach s
    adds :
        (s : Store) (id : ℕ) (it : SkiplistItem)
        → it.action ≢ SkipListAction.no_action
        → Reach s
        → Reach (put s id (add_entry it (s id)))
    clears : (s : Store) (id : ℕ) → Reach s → Reach (put s id (clear_entries (s id)))
    links :
        (s : Store) (id : ℕ) (g : Pointer) → Reach s → Reach (put s id (set_global_skip g (s id)))
    checks :
        (s t : Store) (f id : ℕ) (e : Bytes) (d r : Bool) (p : Pointer) (m : SkipListMatch)
        → check regex_match f s id e d r p ≡ some (t, m)
        → Reach s
        → Reach t

  empty-IsFresh : (l : SkipList) → l.matchcache ≡ [] → IsFresh regex_match l
  unfolding find_cached
  empty-IsFresh l h e d r m k = ground arith

  HasNoNone-append :
      (its : List SkiplistItem) (it : SkiplistItem)
      → it.action ≢ SkipListAction.no_action
      → HasNoNone its
      → HasNoNone (its ++ it ∷ [])
  HasNoNone-append [] it n h = (n, tt)
  HasNoNone-append (x ∷ xs) it n h = (h.0, HasNoNone-append xs it n h.1)

  put-IsSound :
      (s : Store) (id : ℕ) (l : SkipList)
      → IsSound regex_match s
      → IsFresh regex_match l
      → HasNoNone l.entries
      → IsSound regex_match (put s id l)
  put-IsSound s id l v fresh no_none = record {
    fresh = put-all (IsFresh regex_match) s id l fresh v.fresh;
    no_none = put-all (λ k. HasNoNone k.entries) s id l no_none v.no_none;
  }

  Agrees-IsSound :
      (s t : Store) (m : SkipListMatch) (a : Option SkipListMatch)
      (result : Option (Store × SkipListMatch))
      → result ≡ some (t, m)
      → Agrees regex_match s a result
      → (a ≡ some m) × IsSound regex_match t
  unfolding Agrees
  Agrees-IsSound s t m a none h g = cc
  Agrees-IsSound s t m a (some (u, k)) h (e, same, sound) =
      let p = some-injective _ _ h in
      (e ∙ ap (λ x. some x.1) p, subst (IsSound regex_match) (ap (λ x. x.0) p) sound)

  Reach-IsSound : {s : Store} → Reach s → IsSound regex_match s
  unfolding add_entry clear_entries set_global_skip
  Reach-IsSound (start s h) = record {
    fresh = λ id. empty-IsFresh (s id) (h id).1;
    no_none = λ id. rw (h id).0 tt;
  }
  Reach-IsSound (adds s id it n r) =
      let v = Reach-IsSound r in
      put-IsSound s id (add_entry it (s id)) v (empty-IsFresh (add_entry it (s id)) refl)
        (HasNoNone-append (s id).entries it n (v.no_none id))
  Reach-IsSound (clears s id r) =
      put-IsSound s id (clear_entries (s id)) (Reach-IsSound r)
        (empty-IsFresh (clear_entries (s id)) refl) tt
  Reach-IsSound (links s id g r) =
      let v = Reach-IsSound r in
      put-IsSound s id (set_global_skip g (s id)) v (v.fresh id) (v.no_none id)
  Reach-IsSound (checks s t f id e d r p m h reach) =
      (Agrees-IsSound s t m _ _ h (check-Agrees regex_match f s id e d r p (Reach-IsSound reach))).1

  pick_set :
      (own : Option SkipListMatch) (next : Pointer) (ask : ℕ → Option SkipListMatch)
      → ((j : ℕ) → next ≡ some j → is_set (ask j) ≡ true)
      → is_set (pick own next ask) ≡ true
  unfolding pick
  pick_set (some m) next ask h = refl
  pick_set none (some j) ask h = h j refl
  pick_set none none ask h = refl

  module _ (entries : ℕ → List SkiplistItem) (globals : ℕ → Pointer) (e : Bytes) (d r : Bool) where
    abbrev ask : ℕ → ℕ → Option SkipListMatch
    ask f i = resolve regex_match f entries globals i e d r none

    abbrev own : ℕ → Option SkipListMatch
    own i = scan_entries regex_match (entries i) d r (element_parts e)

    resolve_one : (i : ℕ) → globals i ≡ none → is_set (ask 1 i) ≡ true
    unfolding resolve next_list
    resolve_one i h = pick_set (own i) (globals i) (ask 0) (λ j q. ground arith)

    resolve_two :
        (i : ℕ) → ((g : ℕ) → globals i ≡ some g → globals g ≡ none) → is_set (ask 2 i) ≡ true
    unfolding resolve next_list
    resolve_two i h = pick_set (own i) (globals i) (ask 1) (λ g q. resolve_one g (h g q))

    -- Three lists are asked at most where no global list has a global list of its own.
    resolve_three :
        (i : ℕ) (p : Pointer)
        → ((i g : ℕ) → globals i ≡ some g → globals g ≡ none)
        → is_set (resolve regex_match 3 entries globals i e d r p) ≡ true
    unfolding resolve next_list
    resolve_three i (some j) h = pick_set (own i) (some j) (ask 2) (λ k q. resolve_two k (h k))
    resolve_three i none h = pick_set (own i) (globals i) (ask 2) (λ k q. resolve_two k (h k))

  Agrees-Returns :
      (s : Store) (a : Option SkipListMatch) (result : Option (Store × SkipListMatch))
      → is_set a ≡ true
      → Agrees regex_match s a result
      → Returns (λ o. a ≡ some o.1) result
  unfolding Agrees
  Agrees-Returns s a none h g = ground arith
  Agrees-Returns s a (some (t, m)) h g = g.0

  -- In a store that the methods have led to from empty lists, where no entry has the action
  -- SKIPLIST_NONE and no global list has a global list of its own, `check` ends within three lists and
  -- answers as the search without caches does, whatever was asked and changed before.
  pub check-resolve :
      (s : Store) (id : ℕ) (e : Bytes) (d r : Bool) (p : Pointer)
      → Reach s
      → ((i g : ℕ) → (s i).globalskip ≡ some g → (s g).globalskip ≡ none)
      → Returns
          (λ o. answer regex_match 3 s id e d r p ≡ some o.1)
          (check regex_match 3 s id e d r p)
  check-resolve s id e d r p reach h =
      Agrees-Returns s (answer regex_match 3 s id e d r p) _
        (resolve_three (λ i. (s i).entries) (λ i. (s i).globalskip) e d r id p h)
        (check-Agrees regex_match 3 s id e d r p (Reach-IsSound reach))
