-- ===== src/RawBuffer/Writing.antt =====
-- `write` of src/rawbuffer.cpp runs through on any text and keeps the vectors in order.
use cbftp.Common.{
  ℕ, zero, suc, ◌+◌, ◌-◌, ◌≤◌, ◌<◌, ◌≡◌, refl, ◌∙◌, ap, subst₂, Bool, Option, none, some, [], ◌∷◌,
  if◌then◌else◌, ◌==◌, ltb, Bytes, length, set, ◌>>=◌, Returns, arith, Option-cases, Bool-cases,
  inl, inr, length-set,
}
use mathlib.Core.Option.{some-injective}
use cbftp.RawBuffer.{
  RawBuffer, Ring, Line, get_line, passes, add_filter_line, line_finished, add_log_text,
  append_text,
}
use cbftp.RawBuffer.Operations.{split_newline, without_return, write_loop, write_round, write}
use cbftp.RawBuffer.Shows.{IsRing, position, get_line_in, get_elem?-in}
use cbftp.RawBuffer.Shows.Put.{put-IsRing}

-- A log that has its first line, and vectors with indices in range.
pub record IsValid (b : RawBuffer) : Type 0 where
  pub log : IsRing b.maxlength b.log
  pub begun : 0 < length b.log.lines
  pub logfiltered : IsRing b.maxlength b.logfiltered

-- What writing leaves as it is.
pub record Writes (b t : RawBuffer) : Type 0 where
  pub valid : IsValid t
  pub maxlength : t.maxlength ≡ b.maxlength
  pub logcopy : t.logcopy ≡ b.logcopy
  pub logcopyfiltered : t.logcopyfiltered ≡ b.logcopyfiltered
  pub wildcardfilters : t.wildcardfilters ≡ b.wildcardfilters

Writes-refl : (b : RawBuffer) → IsValid b → Writes b b
Writes-refl b v = record {
  valid = v;
  maxlength = refl;
  logcopy = refl;
  logcopyfiltered = refl;
  wildcardfilters = refl;
}

Writes-then :
    (b : RawBuffer) (m : Option RawBuffer) (k : RawBuffer → Option RawBuffer)
    → Returns (Writes b) m
    → ((t : RawBuffer) → IsValid t → Returns (Writes t) (k t))
    → Returns (Writes b) (m >>= k)
Writes-then b none k h l = absurd h
Writes-then b (some t) k h l = after (k t) (l t h.valid)
  where
    after : (o : Option RawBuffer) → Returns (Writes t) o → Returns (Writes b) o
    after none w = absurd w
    after (some u) w = record {
      valid = w.valid;
      maxlength = w.maxlength ∙ h.maxlength;
      logcopy = w.logcopy ∙ h.logcopy;
      logcopyfiltered = w.logcopyfiltered ∙ h.logcopyfiltered;
      wildcardfilters = w.wildcardfilters ∙ h.wildcardfilters;
    }

position-in :
    (m : ℕ) (r : Ring) (num : ℕ)
    → IsRing m r
    → num < length r.lines
    → position r num < length r.lines
position-in m r num i h = elim i.index [ inl k ↦ ground arith | inr k ↦ ground arith ]

pub get_line-in :
    (m : ℕ) (r : Ring) (num : ℕ)
    → IsRing m r
    → num < length r.lines
    → (line : Line) × (get_line r num ≡ some line)
get_line-in m r num i h =
    let e = get_elem?-in r.lines (position r num) (position-in m r num i h) in
    (e.0, get_line_in r num h ∙ e.1)

module _ (regex_match : Bytes → Bytes → Bool) where
  add_filter_line-IsRing :
      (b : RawBuffer) (line : Line) (r : Ring)
      → IsRing b.maxlength r
      → (t : Ring) × ((add_filter_line regex_match b line r ≡ some t) × IsRing b.maxlength t)
  unfolding add_filter_line
  add_filter_line-IsRing b line r i = elim (Bool-cases (passes regex_match b line)) [
    | inl e ↦ let p = put-IsRing b.maxlength line r i in (p.0, (rw (e, p.1.0), p.1.1.0))
    | inr e ↦ (r, (rw e, i))
  ]

  line_finished-Writes :
      (b : RawBuffer) → IsValid b → Returns (Writes b) (line_finished regex_match b)
  unfolding line_finished
  line_finished-Writes b v =
      let l = get_line-in b.maxlength b.log 0 v.log v.begun in
      let r = add_filter_line-IsRing b l.0 b.logfiltered v.logfiltered in
      rw (l.1, r.1.0)
        (record {
          valid = record { log = v.log; begun = v.begun; logfiltered = r.1.1 };
          maxlength = refl;
          logcopy = refl;
          logcopyfiltered = refl;
          wildcardfilters = refl;
        })

newest_index :
    (m : ℕ) (r : Ring)
    → IsRing m r
    → 0 < length r.lines
    → (if ltb 0 r.latest then r.latest else m) - 1 < length r.lines
newest_index m r i h = elim i.index [ inl k ↦ ground arith | inr k ↦ ground arith ]

set-IsRing :
    (m : ℕ) (r : Ring) (i : ℕ) (line : Line)
    → IsRing m r
    → IsRing m (record { lines = set r.lines i line; latest = r.latest })
set-IsRing m r i line v = record {
  room = v.room;
  index = elim v.index [
    | inl k ↦
        inl (omega (arith, length-set r.lines i line), omega (arith, length-set r.lines i line))
    | inr k ↦ inr (length-set r.lines i line ∙ k.0, k.1)
  ];
}

add_log_text-Writes :
    (tag text : Bytes) (b : RawBuffer) → IsValid b → Returns (Writes b) (add_log_text tag text b)
unfolding add_log_text
add_log_text-Writes tag text b v = elim (Bool-cases b.inprogress) [
  | inl e ↦
      let i = (if ltb 0 b.log.latest then b.log.latest else b.maxlength) - 1 in
      let h : i < length b.log.lines = newest_index b.maxlength b.log v.log v.begun in
      let l = get_elem?-in b.log.lines i h in
      rw (e, l.1)
        (record {
          valid = record {
            log = set-IsRing b.maxlength b.log i (append_text text l.0) v.log;
            begun = omega (arith, v.begun, length-set b.log.lines i (append_text text l.0));
            logfiltered = v.logfiltered;
          };
          maxlength = refl;
          logcopy = refl;
          logcopyfiltered = refl;
          wildcardfilters = refl;
        })
  | inr e ↦
      let p = put-IsRing b.maxlength (record { first = tag; second = text }) b.log v.log in
      rw (e, p.1.0)
        (record {
          valid = record { log = p.1.1.0; begun = p.1.1.1; logfiltered = v.logfiltered };
          maxlength = refl;
          logcopy = refl;
          logcopyfiltered = refl;
          wildcardfilters = refl;
        })
]

length-split_newline :
    (s : Bytes) (text rest : Bytes)
    → split_newline s ≡ some (text, rest)
    → length text + length rest ≡ length s
unfolding split_newline
length-split_newline [] text rest e = cc
length-split_newline (c ∷ s) text rest e = elim (Bool-cases (c == 10)) [
  | inl k ↦ ground (arith, e, k)
  | inr k ↦ elim (Option-cases (split_newline s)) [
    | inl n ↦ ground (arith, e, k, n)
    | inr ((before, after), n) ↦
        let l = length-split_newline s before after n in
        let d : (c ∷ before, after) ≡ (text, rest) = some-injective _ _ (rw (k, n) at e) in
        subst₂ (λ x y. length x + length y ≡ length (c ∷ s)) (ap (λ p. p.0) d) (ap (λ p. p.1) d)
          (omega (arith, l))
  ]
]

module _ (regex_match : Bytes → Bytes → Bool) where
  write_round-Writes :
      (o : Option (Bytes × Bytes))
      → (next : Bytes → RawBuffer → Option RawBuffer)
      → (tag : Bytes) (c : ℕ) (s : Bytes) (b : RawBuffer) → split_newline (c ∷ s) ≡ o
      → IsValid b
      → ((rest : Bytes) (t : RawBuffer)
          → length rest ≤ length s
          → IsValid t
          → Returns (Writes t) (next rest t))
      → Returns (Writes b) (write_round regex_match o next tag (c ∷ s) s b)
  write_round-Writes none next tag c s b e v k = add_log_text-Writes tag (c ∷ s) b v
  write_round-Writes (some ([], rest)) next tag c s b e v k =
      Writes-then b (line_finished regex_match b) (next s) (line_finished-Writes regex_match b v)
        (λ t. k s t (omega arith))
  write_round-Writes (some (d ∷ ds, rest)) next tag c s b e v k =
      let text = without_return (d ∷ ds) in
      let l = length-split_newline (c ∷ s) (d ∷ ds) rest e in
      Writes-then b (add_log_text tag text b) (next rest) (add_log_text-Writes tag text b v)
        (λ t. k rest t (omega arith))

  write_loop-Writes :
      (f : ℕ) (tag s : Bytes) (b : RawBuffer)
      → length s ≤ f
      → IsValid b
      → Returns (Writes b) (write_loop regex_match f tag s b)
  unfolding write_loop
  write_loop-Writes f tag [] b h v = Writes-refl b v
  write_loop-Writes zero tag (c ∷ s) b h v = absurd (omega arith)
  write_loop-Writes (suc f) tag (c ∷ s) b h v =
      write_round-Writes (split_newline (c ∷ s)) (write_loop regex_match f tag) tag c s b refl v
        (λ rest t l. write_loop-Writes f tag rest t (omega arith))

  -- On a log that has its first line, with vectors in order (`IsRing`), writing any text runs
  -- through: no line is looked for outside the vectors, and their indices stay in range, with at
  -- most `maxlength` lines. The frozen copies and the wildcard filters stay as they are.
  pub write-Writes :
      (tag s : Bytes) (b : RawBuffer) → IsValid b → Returns (Writes b) (write regex_match tag s b)
  unfolding write
  write-Writes tag s b v =
      Writes-then b _ _ (write_loop-Writes (length s) tag s b (omega arith) v) λ t w. record {
        valid = record { log = w.log; begun = w.begun; logfiltered = w.logfiltered };
        maxlength = refl;
        logcopy = refl;
        logcopyfiltered = refl;
        wildcardfilters = refl;
      }
