-- ===== src/RawBuffer.antt =====
-- src/rawbuffer.h and src/rawbuffer.cpp: a log of the last `maxlength` lines, the lines that pass the
-- filters, and copies of both. A vector and its index of the next line to overwrite are a `Ring`. `none`
-- is a failed assertion, an access outside a vector or a remainder by 0. The time stamp of a line's tag
-- is an argument; std::regex is a parameter; the callback's and the interface's calls are recorded.
-- No text has a zero byte in it, where wildcmp would end.
pub mod Shows
pub mod Operations
pub mod Writing
pub mod Filtering
pub mod Showing
mod Examples
use cbftp.Common.{
  ℕ, zero, suc, ◌+◌, ◌-◌, ◌%◌, ◌==◌, Bool, true, false, not, ◌&&◌, ◌||◌, Option, none, some, List,
  [], ◌∷◌, ◌++◌, if◌then◌else◌, ltb, Bytes, Pointer, is_set, length, get_elem?, set, assert,
  is_true, ◌>>=◌, u32, codes, drop, take,
}
use cbftp.Util.Wildcard.{wildcmp}

pub record Line : Type 0 where
  pub first : Bytes
  pub second : Bytes

pub record Ring : Type 0 where
  pub lines : List Line
  pub latest : ℕ

pub record RawBuffer : Type 0 where
  pub log : Ring
  pub logfiltered : Ring
  pub logcopy : Ring
  pub logcopyfiltered : Ring
  pub maxlength : ℕ
  pub bookmarklines : ℕ
  pub site : Bytes
  pub id : Bytes
  pub inprogress : Bool
  pub uiwatching : Bool
  pub threads : Bool
  pub eventlog : Bool
  pub callback : Pointer
  pub wildcardfilters : List Bytes
  pub hasregexfilter : Bool
  pub regexfilter : Bytes
  -- The lines handed to the callback, the newest first, and the calls of `backendPush`.
  pub called_back : List Line
  pub backend_pushes : ℕ

abbrev pub empty_ring : Ring
empty_ring = record { lines = []; latest = 0 }

-- `getLine` and its three variants: the newest line has number 0.
pub get_line : Ring → ℕ → Option Line
get_line r num =
    let size = length r.lines in
    assert (ltb num size) (
      get_elem? r.lines
        (if ltb num r.latest then r.latest - num - 1 else size + r.latest - num - 1))

-- `++latest %= maxlength`.
pub advance : ℕ → ℕ → Option ℕ
advance zero latest = none
advance (suc m) latest = some (u32 (latest + 1) % suc m)

pub put : ℕ → Line → Ring → Option Ring
unfolding advance
put maxlength line r =
    (if ltb (length r.lines) maxlength
      then some (r.lines ++ (line ∷ []))
      else assert (ltb r.latest (length r.lines)) (some (set r.lines r.latest line)))
    >>= λ lines.
        advance maxlength r.latest >>= λ latest. some (record { lines = lines; latest = latest })

-- What the loop over the wildcard filters finds out.
pub record Verdict : Type 0 where
  pub negativepass : Bool
  pub foundpositive : Bool
  pub positivematch : Bool

pub wildcard_verdict : Bytes → List Bytes → Verdict → Verdict
wildcard_verdict text [] v = v
wildcard_verdict text ((c ∷ filter) ∷ filters) v =
    let rest = wildcard_verdict text filters in
    if c == 33
    then (if is_true (wildcmp filter text) then record v { negativepass = false } else rest v)
    else rest (record v {
      foundpositive = true;
      positivematch = is_true (wildcmp (c ∷ filter) text) || v.positivematch;
    })
wildcard_verdict text ([] ∷ filters) v = wildcard_verdict text filters (record v {
  foundpositive = true;
  positivematch = is_true (wildcmp [] text) || v.positivematch;
})

abbrev pub no_verdict : Verdict
no_verdict = record { negativepass = true; foundpositive = false; positivematch = false }

module _ (regex_match : Bytes → Bytes → Bool) where
  -- The tests of `addFilterLine`: true if it goes on to add the line.
  pub passes : RawBuffer → Line → Bool
  passes b line = elim b.wildcardfilters [
    | [] ↦ not b.hasregexfilter || regex_match b.regexfilter line.second
    | f ∷ fs ↦
        let v = wildcard_verdict line.second (f ∷ fs) no_verdict in
        not (not v.negativepass || (v.foundpositive && not v.positivematch))
  ]

  pub add_filter_line : RawBuffer → Line → Ring → Option Ring
  add_filter_line b line target = if passes b line then put b.maxlength line target else some target

  -- The loop of `applyFilters(bool)`, with `i` lines of the source left.
  pub apply_loop : RawBuffer → Ring → ℕ → Ring → Option Ring
  apply_loop b source zero target = some target
  apply_loop b source (suc i) target = do
    line ← get_line source i
    added ← add_filter_line b line target
    apply_loop b source i added

  pub apply_filters : RawBuffer → Option RawBuffer
  apply_filters b = do
    logfiltered ← apply_loop b b.log (length b.log.lines) empty_ring
    logcopyfiltered ← apply_loop b b.logcopy (length b.logcopy.lines) empty_ring
    some (record b { logfiltered = logfiltered; logcopyfiltered = logcopyfiltered })

  pub set_wildcard_filters : List Bytes → RawBuffer → Option RawBuffer
  set_wildcard_filters filters b =
      apply_filters (record b { wildcardfilters = filters; hasregexfilter = false })

  pub set_regex_filter : Bytes → RawBuffer → Option RawBuffer
  set_regex_filter regexfilter b =
      apply_filters
        (record b { regexfilter = regexfilter; hasregexfilter = true; wildcardfilters = [] })

  pub line_finished : RawBuffer → Option RawBuffer
  line_finished b = do
    line ← get_line b.log 0
    logfiltered ← add_filter_line b line b.logfiltered
    some (record b {
      inprogress = false;
      logfiltered = logfiltered;
      called_back = if is_set b.callback then line ∷ b.called_back else b.called_back;
    })

pub append_text : Bytes → Line → Line
append_text text line = record line { second = line.second ++ text }

pub add_log_text : Bytes → Bytes → RawBuffer → Option RawBuffer
add_log_text tag text b =
    if b.inprogress
    then (let i = (if ltb 0 b.log.latest then b.log.latest else b.maxlength) - 1 in
        get_elem? b.log.lines i >>= λ line. some (record b {
          log = record { lines = set b.log.lines i (append_text text line); latest = b.log.latest };
        }))
    else (put b.maxlength (record { first = tag; second = text }) b.log >>= λ log.
        some (record b { log = log; bookmarklines = u32 (b.bookmarklines + 1); inprogress = true }))
