-- ===== src/SkipList/Cache/Linked.antt =====
-- Lists that refer to one another: every check of a store reached by the methods answers as if there
-- were no caches.
use cbftp.Common.{
  ℕ, zero, suc, ◌≡◌, refl, ap, fun_ext, subst₂, ◌∙◌, Bool, Pointer, Option, none, some, List, ◌==◌,
  Bytes, arith, Bool-cases, inl, inr,
}
use cbftp.SkipList.{
  SkiplistItem, SkipListMatch, SkipListAction, SkipList, element_parts, scan_entries, no_match,
}
use cbftp.SkipList.Check.{Store, put, next_list, fall_through, check_own, check}
use cbftp.SkipList.Cache.{IsFresh, HasNoNone, check_own-Answers}

-- What holds of the new list and of all lists holds of all lists afterwards.
pub put-all {ℓ} :
    (P : SkipList → Type ℓ) (store : Store) (id : ℕ) (l : SkipList)
    → P l
    → ((j : ℕ) → P (store j))
    → (j : ℕ) → P (put store id l j)
put-all P store id l new old j = elim (Bool-cases (j == id)) [
  | inl e ↦ rw e new
  | inr e ↦ rw e (old j)
]

-- The answer of a list, or of the next one, or no match.
unfoldable pub pick :
    Option SkipListMatch → Pointer → (ℕ → Option SkipListMatch) → Option SkipListMatch
pick (some m) next ask = some m
pick none (some j) ask = ask j
pick none none ask = some (no_match SkipListAction.allow)

module _ (regex_match : Bytes → Bytes → Bool) where
  -- `check` without caches, by the entries and the global list of each list.
  unfoldable pub resolve :
      ℕ
      → (ℕ → List SkiplistItem)
      → (ℕ → Pointer)
      → ℕ
      → Bytes
      → Bool
      → Bool
      → Pointer
      → Option SkipListMatch
  unfolding pick
  resolve zero entries globals id e d r fallthrough = none
  resolve (suc f) entries globals id e d r fallthrough =
      pick (scan_entries regex_match (entries id) d r (element_parts e))
        (next_list fallthrough (globals id)) (λ j. resolve f entries globals j e d r none)

  pub record IsSound (store : Store) : Type 0 where
    pub fresh : (id : ℕ) → IsFresh regex_match (store id)
    pub no_none : (id : ℕ) → HasNoNone (store id).entries

  -- The same entries and the same links, whatever the caches hold.
  pub record IsSame (store store' : Store) : Type 0 where
    pub entries : (id : ℕ) → (store' id).entries ≡ (store id).entries
    pub globals : (id : ℕ) → (store' id).globalskip ≡ (store id).globalskip

  IsSame-trans : {s t u : Store} → IsSame s t → IsSame t u → IsSame s u
  IsSame-trans v w = record {
    entries = λ id. w.entries id ∙ v.entries id;
    globals = λ id. w.globals id ∙ v.globals id;
  }

  -- The answer is `resolve`'s, if any, and the lists are the same and sound afterwards.
  unfoldable pub Agrees : Store → Option SkipListMatch → Option (Store × SkipListMatch) → Type 0
  Agrees store answer none = answer ≡ none
  Agrees store answer (some (store', m)) = (answer ≡ some m) × IsSame store store' × IsSound store'

  Agrees-later :
      (f : ℕ) (s t : Store) (id : ℕ) (e : Bytes) (d r : Bool)
      (result : Option (Store × SkipListMatch))
      → IsSame s t
      → Agrees t (resolve f (λ i. (t i).entries) (λ i. (t i).globalskip) id e d r none) result
      → Agrees s (resolve f (λ i. (s i).entries) (λ i. (s i).globalskip) id e d r none) result
  unfolding Agrees
  Agrees-later f s t id e d r none v a = rw (fun_ext v.entries, fun_ext v.globals) at a
  Agrees-later f s t id e d r (some (u, m)) v a =
      (rw (fun_ext v.entries, fun_ext v.globals) at a.0, IsSame-trans v a.1, a.2)

  pub put-IsSame :
      (s : Store) (id : ℕ) (l : SkipList)
      → l.entries ≡ (s id).entries
      → l.globalskip ≡ (s id).globalskip
      → IsSame s (put s id l)
  put-IsSame s id l e g = record {
    entries = λ j. ground (arith, ap (λ i. (s i).entries) {x = j} {y = id});
    globals = λ j. ground (arith, ap (λ i. (s i).globalskip) {x = j} {y = id});
  }

  check_own-IsSound :
      (s : Store) (id : ℕ) (e : Bytes) (d r : Bool)
      → IsSound s
      → IsSound (put s id (check_own regex_match e d r (s id)).0)
  check_own-IsSound s id e d r v =
      let a = check_own-Answers regex_match (s id) e d r (v.no_none id) (v.fresh id) in
      record {
        fresh = put-all (IsFresh regex_match) s id _ a.3 v.fresh;
        no_none = put-all (λ l. HasNoNone l.entries) s id _ (rw a.1 (v.no_none id)) v.no_none;
      }

  abbrev pub answer : ℕ → Store → ℕ → Bytes → Bool → Bool → Pointer → Option SkipListMatch
  answer f s = resolve f (λ i. (s i).entries) (λ i. (s i).globalskip)

  fall_through-Agrees :
      (s t : Store) (own : Option SkipListMatch) (next : Pointer) (ask : ℕ → Option SkipListMatch)
      (ask' : ℕ → Option (Store × SkipListMatch))
      → IsSame s t
      → IsSound t
      → ((j : ℕ) → Agrees s (ask j) (ask' j))
      → Agrees s (pick own next ask) (fall_through t own next ask')
  unfolding pick fall_through Agrees
  fall_through-Agrees s t (some m) next ask ask' v w a = (refl, v, w)
  fall_through-Agrees s t none (some j) ask ask' v w a = a j
  fall_through-Agrees s t none none ask ask' v w a = (refl, v, w)

  pub check-Agrees :
      (f : ℕ) (s : Store) (id : ℕ) (e : Bytes) (d r : Bool) (p : Pointer)
      → IsSound s
      → Agrees s (answer f s id e d r p) (check regex_match f s id e d r p)
  unfolding resolve check
  check-Agrees zero s id e d r p v = unfold Agrees in refl
  check-Agrees (suc f) s id e d r p v =
      let l = (check_own regex_match e d r (s id)).0 in
      let a = check_own-Answers regex_match (s id) e d r (v.no_none id) (v.fresh id) in
      let same = put-IsSame s id l a.1 a.2 in
      let sound = check_own-IsSound s id e d r v in
      subst₂
        (λ own global.
          Agrees s
            (pick own (next_list p global)
              (λ j. resolve f (λ i. (s i).entries) (λ i. (s i).globalskip) j e d r none))
            (check regex_match (suc f) s id e d r p))
        a.0 a.2
        (fall_through-Agrees s (put s id l) _ _ _ _ same sound (λ j.
          Agrees-later f s (put s id l) j e d r _ same
            (check-Agrees f (put s id l) j e d r none sound)))
