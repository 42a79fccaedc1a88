-- ===== src/ScoreBoard/Located/Updates.antt =====
-- `update` of src/scoreboard.cpp keeps the maps right.
use cbftp.Common.{
  ℕ, zero, suc, ◌+◌, ◌<◌, ◌≡◌, ◌≢◌, refl, sym, ap, ◌∙◌, ◌==◌, true, false, ◌&&◌, inl, inr, none,
  some, List, [], ◌∷◌, ◌++◌, length, get_elem?, ltb, leb, Bool-cases, Option-cases, arith, u32_mod,
  length-append, Returns,
}
use cbftp.ScoreBoard.{
  ScoreBoard, ScoreBoardElement, Key, key_of, find_key, put_object, reset_element, update_element,
}
use cbftp.ScoreBoard.Operations.{grow, show, add, update, find, resize_chunk, addresses}
use cbftp.ScoreBoard.Maps.{find_key-assign_self, find_key-assign_ne}
use cbftp.ScoreBoard.Shown.{times, get_elem?-some, length-addresses}
use cbftp.ScoreBoard.Located.Adding.{next-not_shown, show-IsLocated, shown-made, grow-IsLocated}
use cbftp.ScoreBoard.Located.{IsLocated, shown, agree-IsLocated}

-- The element of a key is found with the new values, and what is found for any other key is as before.
pub record Updated (e : ScoreBoardElement) (b c : ScoreBoard) : Type 0 where
  pub address : ℕ
  pub finds : find (key_of e) c ≡ some address
  pub its_key : key_of (c.objects address) ≡ key_of e
  pub score : (c.objects address).score ≡ e.score
  pub filesize : (c.objects address).filesize ≡ e.filesize
  pub attempted : (c.objects address).attempted ≡ false
  pub others : (k : Key) → key_of e ≢ k → find k c ≡ find k b
  pub other_objects :
      (k : Key) (a : ℕ) → key_of e ≢ k → find k b ≡ some a → c.objects a ≡ b.objects a

show-Updated :
    (e : ScoreBoardElement) (a : ℕ) (b c : ScoreBoard)
    → c.objects a ≡ reset_element e
    → c.elementlocator ≡ b.elementlocator
    → ((x : ℕ) → 0 < times x (shown b) → c.objects x ≡ b.objects x)
    → IsLocated b
    → Updated e b (show e a c)
unfolding show
show-Updated e a b c q l g v = record {
  address = a;
  finds = find_key-assign_self (key_of e) a c.elementlocator;
  its_key = ap key_of q;
  score = ap (λ x. x.score) q;
  filesize = ap (λ x. x.filesize) q;
  attempted = ap (λ x. x.attempted) q;
  others = λ k p. find_key-assign_ne (key_of e) k a c.elementlocator p ∙ ap (find_key k) l;
  other_objects = λ k x p f. g x (v.found k x f).0;
}

update_found-Updated :
    (e : ScoreBoardElement) (a : ℕ) (b : ScoreBoard)
    → find (key_of e) b ≡ some a
    → IsLocated b
    → IsLocated (record b {
      objects = put_object b.objects a (update_element e.score e.filesize (b.objects a));
    })
      × Updated e b (record b {
        objects = put_object b.objects a (update_element e.score e.filesize (b.objects a));
      })
update_found-Updated e a b f v =
    let objects = put_object b.objects a (update_element e.score e.filesize (b.objects a)) in
    let t : (a == a) ≡ true = ground arith in
    let q : objects a ≡ update_element e.score e.filesize (b.objects a) = rw t in
    (
      agree-IsLocated b objects
          (λ x p. elim (Bool-cases (x == a)) [
            | inl r ↦
                let s : x ≡ a = ground (arith, r) in
                ap (λ i. key_of (objects i)) s
                ∙ (ap key_of q ∙ ap (λ i. key_of (b.objects i)) (sym s))
            | inr r ↦ rw r
          ])
          v,
      record {
        address = a;
        finds = f;
        its_key = ap key_of q ∙ (v.found (key_of e) a f).1;
        score = ap (λ x. x.score) q;
        filesize = ap (λ x. x.filesize) q;
        attempted = ap (λ x. x.attempted) q;
        others = λ k p. refl;
        other_objects = λ k x p g.
            let r : (x == a) ≡ false = elim (Bool-cases (x == a)) [
              | inl r ↦
                  let s : x ≡ a = ground (arith, r) in
                  absurd (
                    p (
                      sym (v.found (key_of e) a f).1
                      ∙ (ap (λ i. key_of (b.objects i)) (sym s) ∙ (v.found k x g).1)))
              | inr r ↦ r
            ] in
            rw r;
      },
    )

get_elem?-append_right :
    (es fs : List ℕ) (n : ℕ) → n ≡ length es → get_elem? (es ++ fs) n ≡ get_elem? fs 0
get_elem?-append_right [] fs n h = rw h
get_elem?-append_right (x ∷ es) fs zero h = absurd (omega (arith, h))
get_elem?-append_right (x ∷ es) fs (suc n) h = get_elem?-append_right es fs n (omega (arith, h))

-- The first of the elements that are made is shown.
add_grown-Updated :
    (e : ScoreBoardElement) (b : ScoreBoard)
    → find (key_of e) b ≡ none
    → b.showsize + 1 < u32_mod
    → b.showsize ≡ length b.elements
    → IsLocated b
    → (get_elem? (grow e b).elements b.showsize ≡ some b.created)
      × (IsLocated (show e b.created (grow e b)) × Updated e b (show e b.created (grow e b)))
unfolding grow
add_grown-Updated e b n w h v =
    let i : (leb b.created b.created && ltb b.created (b.created + resize_chunk)) ≡ true =
      ground arith in
    let q : (grow e b).objects b.created ≡ reset_element e = rw i in
    let g = get_elem?-append_right b.elements (addresses b.created resize_chunk) b.showsize h in
    let l = length-append b.elements (addresses b.created resize_chunk) in
    (
      g,
      (
        show-IsLocated e b.created (grow e b) (ap key_of q) n g w
            (omega (arith, l, h, length-addresses b.created resize_chunk)) (grow-IsLocated e b h v),
        show-Updated e b.created b (grow e b) q refl
            (λ x p.
              let j : (leb b.created x && ltb x (b.created + resize_chunk)) ≡ false =
                ground (arith, shown-made b x v p) in
              rw j)
            v,
      ),
    )

-- The element that comes next is shown, with the new values.
add_next-Updated :
    (e : ScoreBoardElement) (b : ScoreBoard) (a : ℕ)
    → find (key_of e) b ≡ none
    → b.showsize + 1 < u32_mod
    → b.showsize < length b.elements
    → get_elem? b.elements b.showsize ≡ some a
    → IsLocated b
    → (let c = record b { objects = put_object b.objects a (reset_element e) } in
        IsLocated (show e a c) × Updated e b (show e a c))
add_next-Updated e b a n w h g v =
    let objects = put_object b.objects a (reset_element e) in
    let c = record b { objects = objects } in
    let t : (a == a) ≡ true = ground arith in
    let q : objects a ≡ reset_element e = rw t in
    let z = next-not_shown b a g v in
    let kept : (x : ℕ) → 0 < times x (shown b) → objects x ≡ b.objects x = λ x p.
      elim (Bool-cases (x == a)) [
        | inl r ↦
            let y : x ≡ a = ground (arith, r) in
            let u : times x (shown b) ≡ 0 = ap (λ i. times i (shown b)) y ∙ z in
            absurd (omega (arith, u, p))
        | inr r ↦ rw r
      ] in
    (
      show-IsLocated e a c (ap key_of q) n g w h
          (agree-IsLocated b objects (λ x p. ap key_of (kept x p)) v),
      show-Updated e a b c q refl kept v,
    )

add-Updated :
    (e : ScoreBoardElement) (b : ScoreBoard)
    → find (key_of e) b ≡ none
    → b.showsize + 1 < u32_mod
    → IsLocated b
    → Returns (λ c. IsLocated c × Updated e b c) (add e b)
unfolding add
add-Updated e b n w v = elim (Bool-cases (b.showsize == length b.elements)) [
  | inl t ↦ let r = add_grown-Updated e b n w (ground (arith, t)) v in rw (t, r.0) r.1
  | inr t ↦
      let h : b.showsize < length b.elements = ground (arith, t, v.sized) in
      let (a, g) = get_elem?-some b.elements b.showsize h in
      rw (t, g) (add_next-Updated e b a n w h g v)
]

-- After `update` each element has an object of its own, the maps find those that are shown and no others, if
-- it was so before; the element of the key has the new score and size and is not attempted, and for any
-- other key the same object is found, unchanged. There is room for one more element in 32 bits.
pub update-Updated :
    (e : ScoreBoardElement) (b : ScoreBoard)
    → b.showsize + 1 < u32_mod
    → IsLocated b
    → Returns (λ c. IsLocated c × Updated e b c) (update e b)
unfolding update
update-Updated e b w v = elim (Option-cases (find (key_of e) b)) [
  | inl n ↦ rw n (add-Updated e b n w v)
  | inr (a, f) ↦ rw f (update_found-Updated e a b f v)
]
