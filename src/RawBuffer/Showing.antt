-- ===== src/RawBuffer/Showing.antt =====
-- What the log of src/rawbuffer.cpp shows after a line is written, and what a blank line does, also after a clear.
use cbftp.Common.{
  ℕ, zero, suc, ◌+◌, ◌<◌, ◌≡◌, ◌≢◌, refl, ap, ◌∙◌, Bool, true, false, Option, none, some, List, [],
  ◌∷◌, ◌++◌, if◌then◌else◌, ◌==◌, Bytes, length, length-append, get_elem?, take, ◌>>=◌, Returns,
  Returns-bind, Returns-map, arith, Bool-cases, inl, inr, is_set, u32, u32_mod, ltb,
}
use cbftp.RawBuffer.{
  RawBuffer, Ring, Line, empty_ring, get_line, put, passes, add_filter_line, line_finished,
  add_log_text,
}
use cbftp.RawBuffer.Operations.{
  split_newline, without_return, write_loop, write, write_line, unset_filters, clear,
}
use cbftp.RawBuffer.Shows.{IsRing, Shows, empty_ring-Shows}
use cbftp.RawBuffer.Shows.Put.{put-Shows}

-- A text of one line.
abbrev pub Plain : Bytes → Type 0
Plain [] = Unit {0}
Plain (c ∷ s) = (c ≢ 10) × ((c ≢ 13) × Plain s)

split_newline-line : (s : Bytes) → Plain s → split_newline (s ++ (10 ∷ [])) ≡ some (s, 10 ∷ [])
unfolding split_newline
split_newline-line [] p = refl
split_newline-line (c ∷ s) p =
    let e : (c == 10) ≡ false = ground (arith, p.0) in rw (e, split_newline-line s p.1.1)

split_newline-first : split_newline (10 ∷ []) ≡ some ([], 10 ∷ [])
unfolding split_newline
split_newline-first = refl

without_return-line : (s : Bytes) → Plain s → without_return s ≡ s
unfolding without_return
without_return-line [] p = refl
without_return-line (c ∷ []) p = let e : (c == 13) ≡ false = ground (arith, p.1.0) in rw e
without_return-line (c ∷ d ∷ s) p = ap (λ l. c ∷ l) (without_return-line (d ∷ s) p.1.1)

-- What writing one line does to a buffer that shows `h` and, filtered, `g`.
pub record WritesLine (regex_match : Bytes → Bytes → Bool) (line : Line) (h g : List Line)
    (b t : RawBuffer) : Type 0 where
  pub shown : Shows t.log (take b.maxlength (line ∷ h))
  pub filtered :
      Shows t.logfiltered (if passes regex_match b line then take b.maxlength (line ∷ g) else g)
  pub called_back :
      t.called_back ≡ (if is_set b.callback then line ∷ b.called_back else b.called_back)
  pub bookmarklines : t.bookmarklines ≡ u32 (b.bookmarklines + 1)
  pub ended : t.inprogress ≡ false

-- What a blank line does to a buffer whose newest line is `line` and which shows, filtered, `g`.
pub record RepeatsLine (regex_match : Bytes → Bytes → Bool) (line : Line) (g : List Line)
    (b t : RawBuffer) : Type 0 where
  pub log : t.log ≡ b.log
  pub bookmarklines : t.bookmarklines ≡ b.bookmarklines
  pub filtered :
      Shows t.logfiltered (if passes regex_match b line then take b.maxlength (line ∷ g) else g)
  pub called_back :
      t.called_back ≡ (if is_set b.callback then line ∷ b.called_back else b.called_back)

take_first :
    (m : ℕ) (line : Line) (h : List Line) → 0 < m → get_elem? (take m (line ∷ h)) 0 ≡ some line
take_first zero line h o = elim o [ ]
take_first (suc m) line h o = refl

abbrev begun_line : Bytes → Bytes → RawBuffer → Option RawBuffer
begun_line tag text b = put b.maxlength (record { first = tag; second = text }) b.log >>= λ log.
    some (record b { log = log; bookmarklines = u32 (b.bookmarklines + 1); inprogress = true })

starts_line :
    (tag text : Bytes) (b : RawBuffer)
    → b.inprogress ≡ false
    → add_log_text tag text b ≡ begun_line tag text b
unfolding add_log_text
starts_line tag text b e = rw e

module _ (regex_match : Bytes → Bytes → Bool) where
  add_filter_line-shown :
      (b : RawBuffer) (line : Line) (r : Ring) (g : List Line)
      → IsRing b.maxlength r
      → Shows r g
      → Returns
          (λ t. Shows t (if passes regex_match b line then take b.maxlength (line ∷ g) else g))
          (add_filter_line regex_match b line r)
  unfolding add_filter_line
  add_filter_line-shown b line r g v s = elim (Bool-cases (passes regex_match b line)) [
    | inl e ↦
        rw e (
          Returns-map _ _ (put b.maxlength line r) (put-Shows b.maxlength line r g v s)
            (λ t p. p.1))
    | inr e ↦ rw e s
  ]

  -- The log, the bookmark and the end of a line in progress.
  finishing :
      (b : RawBuffer) (line : Line) (r : Ring) (h g : List Line)
      → IsRing b.maxlength b.logfiltered
      → Shows b.logfiltered g
      → 0 < b.maxlength
      → Shows r (take b.maxlength (line ∷ h))
      → Returns (WritesLine regex_match line h g b) (
          line_finished regex_match
            (record b { log = r; bookmarklines = u32 (b.bookmarklines + 1); inprogress = true }))
  unfolding line_finished passes
  finishing b line r h g v s o t =
      let n = record b { log = r; bookmarklines = u32 (b.bookmarklines + 1); inprogress = true } in
      rw (t.shown 0 ∙ take_first b.maxlength line h o) (
        Returns-bind _ _ (add_filter_line regex_match n line b.logfiltered) _
          (add_filter_line-shown n line b.logfiltered g v s)
          (λ x p. record {
            shown = t;
            filtered = p;
            called_back = refl;
            bookmarklines = refl;
            ended = refl;
          }))

  last_round :
      (f : ℕ) (tag : Bytes) (P : RawBuffer → Type 0) (b : RawBuffer)
      → Returns P (line_finished regex_match b)
      → Returns P (write_loop regex_match (suc f) tag (10 ∷ []) b)
  unfolding write_loop
  last_round f tag P b h = rw split_newline-first (
      Returns-bind P P (line_finished regex_match b) (write_loop regex_match f tag []) h (λ t p. p))

  begins :
      (line : Line) (b : RawBuffer) (h g : List Line)
      → IsRing b.maxlength b.log
      → IsRing b.maxlength b.logfiltered
      → Shows b.log h
      → Shows b.logfiltered g
      → Returns
          (λ n. Returns (WritesLine regex_match line h g b) (line_finished regex_match n))
          (begun_line line.first line.second b)
  begins line b h g v w t u =
      Returns-bind (λ r. IsRing b.maxlength r × Shows r (take b.maxlength (line ∷ h)))
        (λ n. Returns (WritesLine regex_match line h g b) (line_finished regex_match n))
        (put b.maxlength line b.log) _ (put-Shows b.maxlength line b.log h v t)
        (λ r q. finishing b line r h g w u v.room.0 q.1)

  line_loop :
      (f : ℕ) (tag : Bytes) (c : ℕ) (s : Bytes) (b : RawBuffer) (h g : List Line)
      → Plain (c ∷ s)
      → b.inprogress ≡ false
      → IsRing b.maxlength b.log
      → IsRing b.maxlength b.logfiltered
      → Shows b.log h
      → Shows b.logfiltered g
      → Returns
          (WritesLine regex_match (record { first = tag; second = c ∷ s }) h g b)
          (write_loop regex_match (suc (suc f)) tag (c ∷ (s ++ (10 ∷ []))) b)
  unfolding write_loop
  line_loop f tag c s b h g p e v w t u =
      let line : Line = record { first = tag; second = c ∷ s } in
      let ends : RawBuffer → Type 0 =
        λ n. Returns (WritesLine regex_match line h g b) (line_finished regex_match n) in
      rw (split_newline-line (c ∷ s) p, without_return-line (c ∷ s) p, starts_line tag (c ∷ s) b e)
        (Returns-bind ends (WritesLine regex_match line h g b) (begun_line tag (c ∷ s) b)
          (write_loop regex_match (suc f) tag (10 ∷ [])) (begins line b h g v w t u)
          (λ n. last_round f tag (WritesLine regex_match line h g b) n))

  -- With vectors in order (`IsRing`) and no line in progress, writing a line that is not empty and
  -- has no `\n` or `\r` in it runs through: the log then shows the line and what it showed, the
  -- last `maxlength` lines of it, and so does the filtered log if the line passes the filters,
  -- which otherwise stays; the callback gets the line, the bookmark counts one line more (at 32
  -- bits), and no line is in progress.
  pub write_line-WritesLine :
      (tag : Bytes) (c : ℕ) (s : Bytes) (b : RawBuffer) (h g : List Line)
      → Plain (c ∷ s)
      → b.inprogress ≡ false
      → IsRing b.maxlength b.log
      → IsRing b.maxlength b.logfiltered
      → Shows b.log h
      → Shows b.logfiltered g
      → Returns
          (WritesLine regex_match (record { first = tag; second = c ∷ s }) h g b)
          (write_line regex_match tag (c ∷ s) b)
  unfolding write_line write
  write_line-WritesLine tag c s b h g p e v w t u =
      let line : Line = record { first = tag; second = c ∷ s } in
      let n : length (s ++ (10 ∷ [])) ≡ suc (length s) = omega (arith, length-append s (10 ∷ [])) in
      rw n (
        Returns-bind (WritesLine regex_match line h g b) (WritesLine regex_match line h g b)
          (write_loop regex_match (suc (suc (length s))) tag (c ∷ (s ++ (10 ∷ []))) b) _
          (line_loop (length s) tag c s b h g p e v w t u)
          (λ x q. record {
            shown = q.shown;
            filtered = q.filtered;
            called_back = q.called_back;
            bookmarklines = q.bookmarklines;
            ended = q.ended;
          }))

  -- A blank line on a log whose newest line is `line`, with the filtered vector in order, runs
  -- through and leaves the log and the bookmark, but the filtered log shows that line once more,
  -- if it passes the filters, and the callback gets it once more.
  pub write_line_blank :
      (tag : Bytes) (line : Line) (b : RawBuffer) (h g : List Line)
      → IsRing b.maxlength b.logfiltered
      → Shows b.log (line ∷ h)
      → Shows b.logfiltered g
      → Returns (RepeatsLine regex_match line g b) (write_line regex_match tag [] b)
  unfolding write_line write line_finished
  write_line_blank tag line b h g v s t =
      let repeats = RepeatsLine regex_match line g b in
      Returns-bind repeats repeats (write_loop regex_match 1 tag (10 ∷ []) b) _
        (last_round 0 tag repeats b (
          rw (s.shown 0) (
            Returns-bind _ repeats (add_filter_line regex_match b line b.logfiltered) _
              (add_filter_line-shown b line b.logfiltered g v t)
              (λ x p. record {
                log = refl;
                bookmarklines = refl;
                filtered = p;
                called_back = refl;
              }))))
        (λ x p. record {
          log = p.log;
          bookmarklines = p.bookmarklines;
          filtered = p.filtered;
          called_back = p.called_back;
        })

  -- `getLine` is asked for the newest line where there is none.
  write_line_faults :
      (tag : Bytes) (b : RawBuffer) → b.log.lines ≡ [] → write_line regex_match tag [] b ≡ none
  unfolding write_line write write_loop line_finished get_line
  write_line_faults tag b e = rw (split_newline-first, e)

  -- The ring of a cleared vector.
  empty-IsRing : (n : ℕ) → 0 < n → n < u32_mod → IsRing n empty_ring
  empty-IsRing n z w = record { room = (z, w); index = inl (refl, z) }

  Returns-is_set : {A : Type 0} (P : A → Type 0) (m : Option A) → Returns P m → is_set m ≡ true
  Returns-is_set P none h = absurd h
  Returns-is_set P (some a) h = refl

  -- After the log is cleared, writing a line that has no `\n` or `\r` in it runs through exactly if the
  -- line is not empty: an empty one fails the assertion of `getLine`, which is asked for a newest line.
  -- The length of the log is above 0 and a 32-bit word.
  pub write_line-clear :
      (tag s : Bytes) (b : RawBuffer)
      → Plain s
      → 0 < b.maxlength
      → b.maxlength < u32_mod
      → is_set (write_line regex_match tag s (clear b)) ≡ ltb 0 (length s)
  unfolding clear unset_filters
  write_line-clear tag [] b p z w = rw (write_line_faults tag (clear b) refl)
  write_line-clear tag (c ∷ s) b p z w =
      let r = empty-IsRing b.maxlength z w in
      let line : Line = record { first = tag; second = c ∷ s } in
      let e : ltb 0 (length (c ∷ s)) ≡ true = ground arith in
      rw e (
        Returns-is_set (WritesLine regex_match line [] [] (clear b)) _ (
          write_line-WritesLine tag c s (clear b) [] [] p refl r r empty_ring-Shows
            empty_ring-Shows))
