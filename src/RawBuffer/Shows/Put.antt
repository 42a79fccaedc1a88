-- ===== src/RawBuffer/Shows/Put.antt =====
-- Adding a line to a `Ring` of src/rawbuffer.cpp.
use cbftp.Common.{
  ℕ, zero, suc, ◌+◌, ◌<◌, ◌≡◌, ◌≢◌, sym, ap, ◌∙◌, some, List, [], ◌∷◌, ◌++◌, length, get_elem?, set,
  take, arith, true, false, ltb, lt→ltb, ltb→lt, Bool-cases, ◌⊎◌, inl, inr, length-append,
  length-set, get_elem?-set_self, get_elem?-set_ne, length-take, subst, min, u32, u32_mod, Returns,
  ◌%◌,
}
use native.Mathlib.Nat.{mod-lt}
use cbftp.RawBuffer.{Line, Ring, get_line, put, advance}
use cbftp.RawBuffer.Shows.{
  IsRing, Shows, get_elem?-append_left, get_elem?-append_end, get_elem?-end, get_elem?-take, place,
  position, get_line_in, get_line_out, wrapped, newest_place, older_place_grown, older_place,
}

-- What `put` leaves behind on a ring of either kind.
grown : Line → Ring → ℕ → Ring
grown line r m = record { lines = r.lines ++ (line ∷ []); latest = (r.latest + 1) % m }

replaced : Line → Ring → ℕ → Ring
replaced line r m = record { lines = set r.lines r.latest line; latest = (r.latest + 1) % m }

put-grown :
    (m : ℕ) (line : Line) (r : Ring)
    → (0 < m) × (m < u32_mod)
    → (r.latest ≡ length r.lines) × (length r.lines < m)
    → put m line r ≡ some (grown line r m)
unfolding put grown advance
put-grown zero line r h i = elim h.0 [ ]
put-grown (suc m) line r h i =
    let e : u32 (r.latest + 1) ≡ r.latest + 1 = omega arith in
    rw (lt→ltb (length r.lines) (suc m) i.1, e)

put-replaced :
    (m : ℕ) (line : Line) (r : Ring)
    → (0 < m) × (m < u32_mod)
    → (length r.lines ≡ m) × (r.latest < m)
    → put m line r ≡ some (replaced line r m)
unfolding put replaced advance
put-replaced zero line r h i = elim h.0 [ ]
put-replaced (suc m) line r h i =
    let e : u32 (r.latest + 1) ≡ r.latest + 1 = omega arith in
    let f : ltb (length r.lines) (suc m) ≡ false = ground arith in
    let g : ltb r.latest (length r.lines) ≡ true = ground arith in rw (f, g, e)

get_elem?-grown :
    (line : Line) (r : Ring) (m : ℕ) (num : ℕ)
    → (r.latest ≡ length r.lines) × (length r.lines < m)
    → num < length r.lines
    → get_line (grown line r m) (suc num) ≡ get_line r num
unfolding grown
get_elem?-grown line r m num i h =
    let t = grown line r m in
    let l : length t.lines ≡ length r.lines + 1 = length-append r.lines (line ∷ []) in
    let p : place (length r.lines + 1) (t.latest) (suc num) ≡ position r num =
      subst (λ n. place (length r.lines + 1) ((n + 1) % m) (suc num) ≡ place (length r.lines) n num)
        (sym i.0) (older_place_grown (length r.lines) m num i.1 h) in
    let q : position r num < length r.lines = ground arith in
    get_line_in t (suc num) (omega arith)
    ∙ ap (λ n. get_elem? t.lines (place n t.latest (suc num))) l
    ∙ ap (get_elem? t.lines) p
    ∙ get_elem?-append_left r.lines (line ∷ []) (position r num) q
    ∙ sym (get_line_in r num h)

get_elem?-replaced :
    (line : Line) (r : Ring) (m : ℕ) (num : ℕ)
    → (length r.lines ≡ m) × (r.latest < m)
    → suc num < m
    → get_line (replaced line r m) (suc num) ≡ get_line r num
unfolding replaced
get_elem?-replaced line r m num i h =
    let t = replaced line r m in
    let l : length t.lines ≡ m = length-set r.lines r.latest line ∙ i.0 in
    let p : place m t.latest (suc num) ≡ place m r.latest num = older_place r.latest m num i.1 h in
    let q : r.latest ≢ place m r.latest num = ground arith in
    get_line_in t (suc num) (omega arith)
    ∙ ap (λ n. get_elem? t.lines (place n t.latest (suc num))) l
    ∙ ap (get_elem? t.lines) p
    ∙ get_elem?-set_ne r.lines line q
    ∙ ap (λ n. get_elem? r.lines (place n r.latest num)) (sym i.0)
    ∙ sym (get_line_in r num (omega arith))

newest_grown :
    (line : Line) (r : Ring) (m : ℕ)
    → (r.latest ≡ length r.lines) × (length r.lines < m)
    → get_line (grown line r m) 0 ≡ some line
unfolding grown
newest_grown line r m i =
    let t = grown line r m in
    let l : length t.lines ≡ length r.lines + 1 = length-append r.lines (line ∷ []) in
    let p : position t 0 ≡ length r.lines =
      newest_place (length t.lines) r.latest m (omega arith) (inl (omega arith)) ∙ i.0 in
    get_line_in t 0 (omega arith) ∙ ap (get_elem? t.lines) p ∙ get_elem?-append_end r.lines line

newest_replaced :
    (line : Line) (r : Ring) (m : ℕ)
    → (length r.lines ≡ m) × (r.latest < m)
    → get_line (replaced line r m) 0 ≡ some line
unfolding replaced
newest_replaced line r m i =
    let t = replaced line r m in
    let l : length t.lines ≡ m = length-set r.lines r.latest line ∙ i.0 in
    let p : position t 0 ≡ r.latest = newest_place (length t.lines) r.latest m i.1 (inr l) in
    get_line_in t 0 (omega arith)
    ∙ ap (get_elem? t.lines) p
    ∙ get_elem?-set_self r.lines r.latest line (omega arith)

-- A ring whose newest line is `line` and whose others are the old ones, as far as there is room.
pushed :
    (m : ℕ) (line : Line) (r t : Ring) (h : List Line)
    → Shows r h
    → 0 < m
    → length t.lines ≡ min m (suc (length r.lines))
    → get_line t 0 ≡ some line
    → ((num : ℕ) → num < length r.lines → suc num < m → get_line t (suc num) ≡ get_line r num)
    → Shows t (take m (line ∷ h))
pushed zero line r t h s o l z k = elim o [ ]
pushed (suc m) line r t h s o l z k = record {
  size = omega (arith, s.size, length-take (suc m) (line ∷ h));
  shown = elim [
    | zero ↦ z
    | suc num ↦ elim (Bool-cases (ltb num m)) [
      | inl e ↦ elim (Bool-cases (ltb num (length r.lines))) [
        | inl f ↦
            k num (ltb→lt _ _ f) (ground arith)
            ∙ s.shown num
            ∙ sym (get_elem?-take m num h (ltb→lt _ _ e))
        | inr f ↦
            get_line_out t (suc num) (ground arith)
            ∙ sym (get_elem?-end (take m h) num (ground (arith, length-take m h, s.size)))
      ]
      | inr e ↦
          get_line_out t (suc num) (ground arith)
          ∙ sym (get_elem?-end (take m h) num (ground (arith, length-take m h, s.size)))
    ]
  ];
}

length-grown : (line : Line) (r : Ring) (m : ℕ) → length (grown line r m).lines ≡ length r.lines + 1
unfolding grown
length-grown line r m = length-append r.lines (line ∷ [])

length-replaced :
    (line : Line) (r : Ring) (m : ℕ) → length (replaced line r m).lines ≡ length r.lines
unfolding replaced
length-replaced line r m = length-set r.lines r.latest line

grown-IsRing :
    (line : Line) (r : Ring) (m : ℕ)
    → (0 < m) × (m < u32_mod)
    → (r.latest ≡ length r.lines) × (length r.lines < m)
    → IsRing m (grown line r m)
unfolding grown
grown-IsRing line r m h k = record {
  room = h;
  index = moved (length-grown line r m) (wrapped r.latest m (omega arith));
}
  where
    moved :
        length (grown line r m).lines ≡ length r.lines + 1
        → ((r.latest + 1) % m ≡ r.latest + 1) ⊎ (((r.latest + 1) % m ≡ 0) × (r.latest + 1 ≡ m))
        → (((grown line r m).latest ≡ length (grown line r m).lines)
            × (length (grown line r m).lines < m))
          ⊎ ((length (grown line r m).lines ≡ m) × ((grown line r m).latest < m))
    moved l (inl e) = let b = mod-lt (r.latest + 1) h.0 in inl (omega arith, omega arith)
    moved l (inr (e, f)) = inr (omega arith, omega arith)

replaced-IsRing :
    (line : Line) (r : Ring) (m : ℕ)
    → (0 < m) × (m < u32_mod)
    → (length r.lines ≡ m) × (r.latest < m)
    → IsRing m (replaced line r m)
unfolding replaced
replaced-IsRing line r m h k = record {
  room = h;
  index = inr (length-replaced line r m ∙ k.0, mod-lt (r.latest + 1) h.0);
}

-- Adding a line to a ring runs through; it then shows the new line and the old ones, the last `maxlength`
-- of them.
pub put-Shows :
    (m : ℕ) (line : Line) (r : Ring) (h : List Line)
    → IsRing m r
    → Shows r h
    → Returns (λ t. IsRing m t × Shows t (take m (line ∷ h))) (put m line r)
put-Shows m line r h i s = elim i.index [
  | inl k ↦ rw (put-grown m line r i.room k) (
    grown-IsRing line r m i.room k,
    pushed m line r (grown line r m) h s i.room.0 (omega (arith, length-grown line r m))
        (newest_grown line r m k) (λ num a b. get_elem?-grown line r m num k a),
  )
  | inr k ↦ rw (put-replaced m line r i.room k) (
    replaced-IsRing line r m i.room k,
    pushed m line r (replaced line r m) h s i.room.0 (omega (arith, length-replaced line r m))
        (newest_replaced line r m k) (λ num a b. get_elem?-replaced line r m num k b),
  )
]

pub put-IsRing :
    (m : ℕ) (line : Line) (r : Ring)
    → IsRing m r
    → (t : Ring) × ((put m line r ≡ some t) × (IsRing m t × (0 < length t.lines)))
put-IsRing m line r i = elim i.index [
  | inl k ↦ (
    grown line r m,
    (
      put-grown m line r i.room k,
      (grown-IsRing line r m i.room k, omega (arith, length-grown line r m)),
    ),
  )
  | inr k ↦ (
    replaced line r m,
    (
      put-replaced m line r i.room k,
      (replaced-IsRing line r m i.room k, omega (arith, length-replaced line r m, i.room)),
    ),
  )
]
