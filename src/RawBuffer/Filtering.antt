-- ===== src/RawBuffer/Filtering.antt =====
-- What the filtered vectors of src/rawbuffer.cpp show.
use cbftp.Common.{
  ℕ, zero, suc, ◌+◌, ◌≤◌, ◌<◌, ◌≡◌, refl, sym, ap, ◌∙◌, Bool, false, some, List, [], ◌∷◌, ◌++◌,
  if◌then◌else◌, Bytes, length, get_elem?, take, Returns, Returns-bind, length-append, arith,
  Bool-cases, inl, inr,
}
use mathlib.Core.Option.{some-injective}
use cbftp.RawBuffer.{
  RawBuffer, Ring, Line, passes, add_filter_line, apply_loop, apply_filters, empty_ring,
  set_wildcard_filters,
}
use cbftp.RawBuffer.Shows.{IsRing, Shows, empty_ring-IsRing, empty_ring-Shows, get_elem?-in}
use cbftp.RawBuffer.Shows.Put.{put-Shows}

abbrev pub filtered_by : List Bytes → RawBuffer → RawBuffer
filtered_by filters b = record b { wildcardfilters = filters; hasregexfilter = false }

append_assoc : (x y z : List Line) → (x ++ y) ++ z ≡ x ++ (y ++ z)
append_assoc [] y z = refl
append_assoc (a ∷ x) y z = ap (λ l. a ∷ l) (append_assoc x y z)

append_nil : (x : List Line) → x ++ [] ≡ x
append_nil [] = refl
append_nil (a ∷ x) = ap (λ l. a ∷ l) (append_nil x)

size_le : (m : ℕ) (r : Ring) {h : List Line} → IsRing m r → Shows r h → length h ≤ m
size_le m r v s = elim v.index [ inl k ↦ omega (arith, s.size) | inr k ↦ omega (arith, s.size) ]

module _ (regex_match : Bytes → Bytes → Bool) where
  -- The lines that pass the filters.
  abbrev pub kept : RawBuffer → List Line → List Line
  kept b [] = []
  kept b (line ∷ h) = if passes regex_match b line then line ∷ kept b h else kept b h

  length-kept : (b : RawBuffer) (h : List Line) → length (kept b h) ≤ length h
  length-kept b [] = omega arith
  length-kept b (line ∷ h) = elim (Bool-cases (passes regex_match b line)) [
    | inl e ↦ rw e (omega (arith, length-kept b h))
    | inr e ↦ rw e (omega (arith, length-kept b h))
  ]

  kept-append : (b : RawBuffer) (h g : List Line) → kept b (h ++ g) ≡ kept b h ++ kept b g
  kept-append b [] g = refl
  kept-append b (line ∷ h) g = elim (Bool-cases (passes regex_match b line)) [
    | inl e ↦ rw e (ap (λ k. line ∷ k) (kept-append b h g))
    | inr e ↦ rw e (kept-append b h g)
  ]

  take_all : (m : ℕ) (h : List Line) → length h ≤ m → take m h ≡ h
  take_all zero [] l = refl
  take_all zero (x ∷ h) l = absurd (omega arith)
  take_all (suc m) [] l = refl
  take_all (suc m) (x ∷ h) l = ap (λ k. x ∷ k) (take_all m h (omega arith))

  take-suc :
      (i : ℕ) (h : List Line) (line : Line)
      → get_elem? h i ≡ some line
      → take (suc i) h ≡ take i h ++ (line ∷ [])
  take-suc i [] line e = cc
  take-suc zero (x ∷ h) line e = ap (λ l. l ∷ []) (some-injective _ _ e)
  take-suc (suc i) (x ∷ h) line e = ap (λ k. x ∷ k) (take-suc i h line e)

  -- What a filtered vector of the buffer shows.
  pub FilterShows : RawBuffer → List Line → Ring → Type 0
  FilterShows b g t = IsRing b.maxlength t × Shows t g

  pub add_filter_line-Shows :
      (b : RawBuffer) (line : Line) (r : Ring) (g : List Line)
      → length g < b.maxlength
      → FilterShows b g r
      → Returns (FilterShows b (kept b (line ∷ []) ++ g)) (add_filter_line regex_match b line r)
  unfolding FilterShows add_filter_line
  add_filter_line-Shows b line r g l v = elim (Bool-cases (passes regex_match b line)) [
    | inl e ↦
        rw (e, ← take_all b.maxlength (line ∷ g) (omega arith))
          (put-Shows b.maxlength line r g v.0 v.1)
    | inr e ↦ rw e v
  ]

  apply_loop-Shows :
      (b : RawBuffer) (source : Ring) (h : List Line) (i : ℕ) (target : Ring) (g : List Line)
      → Shows source h
      → length h ≤ b.maxlength
      → i ≤ length h
      → i + length g ≤ b.maxlength
      → FilterShows b g target
      → Returns (FilterShows b (kept b (take i h) ++ g)) (apply_loop regex_match b source i target)
  unfolding apply_loop
  apply_loop-Shows b source h zero target g s l j k v = v
  apply_loop-Shows b source h (suc i) target g s l j k v =
      let (line, e) = get_elem?-in h i (omega arith) in
      let more = kept b (line ∷ []) ++ g in
      let n : length more ≤ suc (length g) =
        omega (arith, length-append (kept b (line ∷ [])) g, length-kept b (line ∷ [])) in
      let q : kept b (take (suc i) h) ++ g ≡ kept b (take i h) ++ more =
        ap (λ x. kept b x ++ g) (take-suc i h line e)
        ∙ ap (λ x. x ++ g) (kept-append b (take i h) (line ∷ []))
        ∙ append_assoc (kept b (take i h)) (kept b (line ∷ [])) g in
      rw (s.shown i ∙ e, q)
        (Returns-bind (FilterShows b more) _ (add_filter_line regex_match b line target)
          (apply_loop regex_match b source i)
          (add_filter_line-Shows b line target g (omega arith) v)
          (λ t w. apply_loop-Shows b source h i t more s l (omega arith) (omega arith) w))

  kept_all-Shows :
      (b : RawBuffer) (source : Ring) (h : List Line)
      → IsRing b.maxlength source
      → Shows source h
      → Returns
          (FilterShows b (kept b h))
          (apply_loop regex_match b source (length source.lines) empty_ring)
  unfolding FilterShows
  kept_all-Shows b source h v s =
      let l : length h ≤ b.maxlength = size_le b.maxlength source v s in
      let r =
        apply_loop-Shows b source h (length h) empty_ring [] s l (omega arith) (omega arith)
          (empty_ring-IsRing b.maxlength v.room, empty_ring-Shows) in
      let q : kept b h ≡ kept b (take (length h) h) ++ [] =
        sym (append_nil _ ∙ ap (kept b) (take_all (length h) h (omega arith))) in
      rw (s.size, q) r

  -- With the vectors of the log and its copy in order (`IsRing`), setting wildcard filters runs
  -- through: the filtered log then shows the lines of the log that pass them, the newest first and
  -- in order, and the filtered copy those of the copy. The log and the copy stay as they are.
  pub set_wildcard_filters-Shows :
      (filters : List Bytes) (b : RawBuffer) (h c : List Line)
      → IsRing b.maxlength b.log
      → IsRing b.maxlength b.logcopy
      → Shows b.log h
      → Shows b.logcopy c
      → Returns
          (λ t.
            (FilterShows b (kept (filtered_by filters b) h) t.logfiltered
              × FilterShows b (kept (filtered_by filters b) c) t.logcopyfiltered)
            × ((t.wildcardfilters ≡ filters) × ((t.log ≡ b.log) × (t.logcopy ≡ b.logcopy))))
          (set_wildcard_filters regex_match filters b)
  unfolding set_wildcard_filters apply_filters FilterShows
  set_wildcard_filters-Shows filters b h c v w s t =
      let f = filtered_by filters b in
      Returns-bind (FilterShows f (kept f h)) _ _ _ (kept_all-Shows f b.log h v s) λ x p.
        Returns-bind (FilterShows f (kept f c)) _ _ _ (kept_all-Shows f b.logcopy c w t)
          λ y q. ((p, q), (refl, (refl, refl)))
