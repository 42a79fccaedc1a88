-- ===== src/ScoreBoard/Shuffle/Kept.antt =====
-- Shuffling elements with the same score in src/scoreboard.cpp changes neither the scores nor the elements.
use cbftp.Common.{
  ℕ, zero, suc, ◌+◌, ◌-◌, ◌%◌, ◌≤◌, ◌<◌, ◌≡◌, refl, sym, ap, ◌∙◌, subst, ◌==◌, inl, inr, some, List,
  [], ◌∷◌, if◌then◌else◌, length, get_elem?, set, take, map, ltb, Bool-cases, arith, Returns,
  Returns-bind, Returns-map, length-set, ℕ_discrete,
}
use mathlib.Core.Option.{some-injective}
use cbftp.ScoreBoard.{ScoreBoard}
use cbftp.ScoreBoard.Sort.{score_at}
use cbftp.ScoreBoard.Shown.{times, get_elem?-some}
use cbftp.ScoreBoard.Shuffle.{
  Shuffling, shuffle_rounds, shuffle, see_score, equal_rounds, shuffle_runs, shuffle_equals,
}

times-set :
    (x i a v : ℕ) (es : List ℕ)
    → get_elem? es i ≡ some a
    → times x (set es i v) + (if a == x then 1 else 0) ≡ times x es + (if v == x then 1 else 0)
times-set x i a v [] e = cc
times-set x zero a v (b ∷ es) e = let q : b ≡ a = some-injective _ _ e in rw q (omega arith)
times-set x (suc i) a v (b ∷ es) e = omega (arith, times-set x i a v es e)

take-set : (n i v : ℕ) (es : List ℕ) → take n (set es i v) ≡ set (take n es) i v
take-set zero i v es = refl
take-set (suc n) i v [] = refl
take-set (suc n) zero v (x ∷ es) = refl
take-set (suc n) (suc i) v (x ∷ es) = ap (λ l. x ∷ l) (take-set n i v es)

get_elem?-take : (n i : ℕ) (es : List ℕ) → i < n → get_elem? (take n es) i ≡ get_elem? es i
get_elem?-take zero i es h = absurd (omega (arith, h))
get_elem?-take (suc n) i [] h = refl
get_elem?-take (suc n) zero (x ∷ es) h = refl
get_elem?-take (suc n) (suc i) (x ∷ es) h = get_elem?-take n i es (omega (arith, h))

get_elem?-set :
    (es : List ℕ) (i j a b : ℕ)
    → get_elem? es i ≡ some a
    → get_elem? es j ≡ some b
    → get_elem? (set es i b) j ≡ some b
get_elem?-set [] i j a b e f = cc
get_elem?-set (x ∷ es) zero zero a b e f = refl
get_elem?-set (x ∷ es) zero (suc j) a b e f = f
get_elem?-set (x ∷ es) (suc i) zero a b e f = f
get_elem?-set (x ∷ es) (suc i) (suc j) a b e f = get_elem?-set es i j a b e f

module _ (score : ℕ → ℕ) (n : ℕ) where
  -- The array has the same elements, also among the first `n`, and the same scores in the same order.
  pub record Kept (es fs : List ℕ) : Type 0 where
    pub all : (x : ℕ) → times x fs ≡ times x es
    pub first : (x : ℕ) → times x (take n fs) ≡ times x (take n es)
    pub scores : map score fs ≡ map score es
    pub size : length fs ≡ length es

  Kept-refl : (es : List ℕ) → Kept es es
  Kept-refl es = record { all = λ x. refl; first = λ x. refl; scores = refl; size = refl }

  Kept-trans : (es fs gs : List ℕ) → Kept es fs → Kept fs gs → Kept es gs
  Kept-trans es fs gs p q = record {
    all = λ x. q.all x ∙ p.all x;
    first = λ x. q.first x ∙ p.first x;
    scores = q.scores ∙ p.scores;
    size = q.size ∙ p.size;
  }

  map-set :
      (es : List ℕ) (i a v : ℕ)
      → get_elem? es i ≡ some a
      → score v ≡ score a
      → map score (set es i v) ≡ map score es
  map-set [] i a v e h = refl
  map-set (x ∷ es) zero a v e h =
      ap (λ y. y ∷ map score es) (h ∙ ap score (some-injective _ _ (sym e)))
  map-set (x ∷ es) (suc i) a v e h = ap (λ l. score x ∷ l) (map-set es i a v e h)

  swap-Kept :
      (es : List ℕ) (i j a b : ℕ)
      → i < n
      → j < n
      → get_elem? es i ≡ some a
      → get_elem? es j ≡ some b
      → score a ≡ score b
      → Kept es (set (set es i b) j a)
  swap-Kept es i j a b h k e f s =
      let g = get_elem?-set es i j a b e f in
      let counts = λ (x : ℕ) (l : List ℕ) (p : get_elem? l i ≡ some a) (q : get_elem? l j ≡ some b).
        let r : times x (set (set l i b) j a) ≡ times x l = omega (
          arith,
          times-set x i a b l p,
          times-set x j b a (set l i b) (get_elem?-set l i j a b p q),
        ) in
        r in
      let t = take-set n j a (set es i b) ∙ ap (λ l. set l j a) (take-set n i b es) in
      record {
        all = λ x. counts x es e f;
        first = λ x.
            ap (times x) t
            ∙ counts x (take n es) (get_elem?-take n i es h ∙ e) (get_elem?-take n j es k ∙ f);
        scores = map-set (set es i b) j b a g s ∙ map-set es i a b e (sym s);
        size = length-set (set es i b) j a ∙ length-set es i b;
      }

  get_elem?-map :
      (es : List ℕ) (i a : ℕ)
      → get_elem? es i ≡ some a
      → get_elem? (map score es) i ≡ some (score a)
  get_elem?-map [] i a e = cc
  get_elem?-map (x ∷ es) zero a e = ap (λ y. some (score y)) (some-injective _ _ e)
  get_elem?-map (x ∷ es) (suc i) a e = get_elem?-map es i a e

  -- All scores from a place up to another are the same.
  abbrev pub Run : List ℕ → ℕ → ℕ → ℕ → Type 0
  Run es from to c = (i : ℕ) → from ≤ i → i < to → get_elem? (map score es) i ≡ some c

  Run-score :
      (es : List ℕ) (from to c i a : ℕ)
      → Run es from to c
      → from ≤ i
      → i < to
      → get_elem? es i ≡ some a
      → score a ≡ c
  Run-score es from to c i a r h k e = some-injective _ _ (sym (get_elem?-map es i a e) ∙ r i h k)

  Run-Kept : (es fs : List ℕ) (from to c : ℕ) → Kept es fs → Run es from to c → Run fs from to c
  Run-Kept es fs from to c p r i h k = ap (λ l. get_elem? l i) p.scores ∙ r i h k

  module _ (rand : ℕ → ℕ) where
    rounds-Kept :
        (m i lastpos c : ℕ) (t : Shuffling)
        → i + m ≡ lastpos
        → lastpos < n
        → n ≤ length t.elements
        → Run t.elements i (suc lastpos) c
        → Returns (λ u. Kept t.elements u.elements) (shuffle_rounds rand m i lastpos t)
    rounds-Kept zero i lastpos c t e h w r = Kept-refl t.elements
    rounds-Kept (suc m) i lastpos c t e h w r =
        let j = i + rand t.calls % (lastpos - i + 1) in
        let k : j ≤ lastpos = omega (arith, e) in
        let (a, f) = get_elem?-some t.elements i (omega (arith, e, h, w)) in
        let (b, g) = get_elem?-some t.elements j (omega (arith, k, h, w)) in
        let s = Run-score t.elements i (suc lastpos) c i a r (omega arith) (omega (arith, e)) f in
        let q = Run-score t.elements i (suc lastpos) c j b r (omega arith) (omega (arith, k)) g in
        let es = set (set t.elements i b) j a in
        let p =
          swap-Kept t.elements i j a b (omega (arith, e, h)) (omega (arith, k, h)) f g
            (s ∙ sym q) in
        let next : Shuffling = record t { elements = es; calls = t.calls + 1 } in
        rw (f, g)
          (Returns-map (λ u. Kept es u.elements) (λ u. Kept t.elements u.elements)
            (shuffle_rounds rand m (i + 1) lastpos next)
            (rounds-Kept m (i + 1) lastpos c next (omega (arith, e)) h (omega (arith, w, p.size))
              (λ x y z. Run-Kept t.elements es i (suc lastpos) c p r x (omega (arith, y)) z))
            (λ u y. Kept-trans t.elements es u.elements p y))

    shuffle-Kept :
        (firstpos lastpos c : ℕ) (t : Shuffling)
        → lastpos < n
        → n ≤ length t.elements
        → Run t.elements firstpos (suc lastpos) c
        → Returns (λ u. Kept t.elements u.elements) (shuffle rand firstpos lastpos t)
    shuffle-Kept firstpos lastpos c t h w r = elim (Bool-cases (ltb firstpos lastpos)) [
      | inl k ↦ rounds-Kept (lastpos - firstpos) firstpos lastpos c t (ground (arith, k)) h w r
      | inr k ↦ let z : lastpos - firstpos ≡ 0 = ground (arith, k) in rw z (Kept-refl t.elements)
    ]

    -- The elements are kept and those from `equalstart` on have the score `lastscore`.
    abbrev Seen : List ℕ → ℕ → Shuffling → Type 0
    Seen es i t = Kept es t.elements × Run t.elements t.equalstart i t.lastscore

    Run-extended :
        (es : List ℕ) (from i c : ℕ)
        → Run es from i c
        → get_elem? (map score es) i ≡ some c
        → Run es from (i + 1) c
    Run-extended es from i c r e x y z = elim (ℕ_discrete i x) [
      | yes q ↦ subst (λ j. get_elem? (map score es) j ≡ some c) q e
      | no q ↦ r x y (omega (arith, z, q))
    ]

    -- The run of equal scores before `i` is shuffled.
    before-Kept :
        (es : List ℕ) (i : ℕ) (t : Shuffling)
        → i < n
        → n ≤ length es
        → Seen es i t
        → Returns
            (λ u. Kept es u.elements)
            (if ltb 0 i then shuffle rand t.equalstart (i - 1) t else some t)
    before-Kept es i t h w (p, r) = elim (Bool-cases (ltb 0 i)) [
      | inl k ↦
          let o : suc (i - 1) ≡ i = ground (arith, k) in
          rw k (
            Returns-map (λ u. Kept t.elements u.elements) (λ u. Kept es u.elements)
              (shuffle rand t.equalstart (i - 1) t)
              (shuffle-Kept t.equalstart (i - 1) t.lastscore t (omega (arith, h))
                (omega (arith, w, p.size)) (rw o r))
              (λ u y. Kept-trans es t.elements u.elements p y))
      | inr k ↦ rw k p
    ]

    see-Seen :
        (es : List ℕ) (i a : ℕ) (t : Shuffling)
        → i < n
        → n ≤ length es
        → get_elem? t.elements i ≡ some a
        → Seen es i t
        → Returns (Seen es (i + 1)) (see_score rand i (score a) t)
    see-Seen es i a t h w e (p, r) =
        let s = get_elem?-map t.elements i a e in
        elim (Bool-cases (score a == t.lastscore)) [
          | inl k ↦
              let q : score a ≡ t.lastscore = ground (arith, k) in
              rw k (p, Run-extended t.elements t.equalstart i t.lastscore r (s ∙ ap some q))
          | inr k ↦ rw k (
              Returns-bind (λ u. Kept es u.elements) (Seen es (i + 1))
                (if ltb 0 i then shuffle rand t.equalstart (i - 1) t else some t)
                (λ u. some (record u { equalstart = i; lastscore = score a }))
                (before-Kept es i t h w (p, r))
                (λ u q. (
                  q,
                  Run-extended u.elements i i (score a) (λ x y z. absurd (omega (arith, y, z)))
                      (ap (λ l. get_elem? l i) (q.scores ∙ sym p.scores) ∙ s),
                )))
        ]

    equal_rounds-Seen :
        (es : List ℕ) (m i : ℕ) (t : Shuffling)
        → i + m ≡ n
        → n ≤ length es
        → Seen es i t
        → Returns (Seen es n) (equal_rounds rand score m i t)
    equal_rounds-Seen es zero i t e w s =
        let q : i ≡ n = omega (arith, e) in subst (λ j. Seen es j t) q s
    equal_rounds-Seen es (suc m) i t e w (p, r) =
        let (a, f) = get_elem?-some t.elements i (omega (arith, e, w, p.size)) in
        rw f (
          Returns-bind (Seen es (i + 1)) (Seen es n) (see_score rand i (score a) t)
            (equal_rounds rand score m (i + 1)) (see-Seen es i a t (omega (arith, e)) w f (p, r))
            (λ u q. equal_rounds-Seen es m (i + 1) u (omega (arith, e)) w q))

    pub shuffle_runs-Kept :
        (es : List ℕ)
        → 0 < n
        → n ≤ length es
        → Returns (λ t. Kept es t.elements) (shuffle_runs rand score n es)
    shuffle_runs-Kept es h w =
        let start : Shuffling = record {
          elements = es;
          calls = 0;
          equalstart = 0;
          lastscore = 0;
        } in
        let o : suc (n - 1) ≡ n = omega (arith, h) in
        Returns-bind (Seen es n) (λ t. Kept es t.elements) (equal_rounds rand score n 0 start)
          (λ t. shuffle rand t.equalstart (n - 1) t)
          (equal_rounds-Seen es n 0 start (omega arith) w
            (Kept-refl es, λ x y z. absurd (omega (arith, z))))
          (λ t q.
            Returns-map (λ u. Kept t.elements u.elements) (λ u. Kept es u.elements)
              (shuffle rand t.equalstart (n - 1) t)
              (shuffle-Kept t.equalstart (n - 1) t.lastscore t (omega (arith, h))
                (omega (arith, w, q.0.size)) (rw o q.1))
              (λ u y. Kept-trans es t.elements u.elements q.0 y))

-- Whatever `rand` returns, `shuffleEquals` stays within the array if that holds what is shown, and each
-- element is then as often in it, and among those that are shown, as before, and the scores are in the order
-- they were in; nothing else has changed.
pub shuffle_equals-Kept :
    (rand : ℕ → ℕ) (b : ScoreBoard)
    → b.showsize ≤ length b.elements
    → Returns
        (λ c.
          Kept (score_at b.objects) b.showsize b.elements c.elements
          × (c ≡ record b { elements = c.elements }))
        (shuffle_equals rand b)
unfolding shuffle_equals
shuffle_equals-Kept rand b h = elim (Bool-cases (b.showsize == 0)) [
  | inl k ↦ rw k (Kept-refl (score_at b.objects) b.showsize b.elements, refl)
  | inr k ↦ rw k (
      Returns-bind (λ t. Kept (score_at b.objects) b.showsize b.elements t.elements)
        (λ c.
          Kept (score_at b.objects) b.showsize b.elements c.elements
          × (c ≡ record b { elements = c.elements }))
        (shuffle_runs rand (score_at b.objects) b.showsize b.elements)
        (λ t. some (record b { elements = t.elements }))
        (shuffle_runs-Kept (score_at b.objects) b.showsize rand b.elements (ground (arith, k)) h)
        (λ t q. (q, refl)))
]
