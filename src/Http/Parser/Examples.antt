-- ===== src/Http/Parser/Examples.antt =====
-- Runs of src/http/parser.cpp where the headers are one line.
use cbftp.Common.{
  ℕ, suc, ◌<◌, ◌≤◌, ◌==◌, Option, none, Option-cases, ◌≡◌, refl, true, some, [], ◌∷◌, ◌++◌, Bytes,
  codes, length, arith, if◌then◌else◌, inl, inr, length-replicate,
}
use cbftp.Http.Parser.{
  MessageParser, State, Parsed, parsed, need_more_data, maxheaderslen, clear, feed, feed_all, new,
}
use cbftp.Http.Parser.Limits.{Awaits, starts, waits, IsValid, EndsInNew, IsSound, feed-IsSound}
use cbftp.Http.Parser.Body.{goes_on, feed_all-body}

find_end : Bytes → Option ℕ
find_end [] = none
find_end (c ∷ cs) =
    if c == 10 then some 1 else (elim (find_end cs) [ none ↦ none | some n ↦ some (suc n) ])

parse_line : Bytes → ℕ → Parsed
parse_line buffer prevlen = elim (find_end buffer) [
  | none ↦ need_more_data
  | some n ↦ parsed n (some 5)
]

find_end-bound : (cs : Bytes) (n : ℕ) → find_end cs ≡ some n → (0 < n) × (n ≤ length cs)
unfolding find_end
find_end-bound [] n e = cc
find_end-bound (c ∷ cs) n e = elim (Option-cases (find_end cs)) [
  | inl h ↦ ground (arith, e, h)
  | inr (m, h) ↦ ground (arith, e, h, find_end-bound cs m h)
]

find_end-append :
    (old more : Bytes) (n : ℕ)
    → find_end old ≡ none
    → find_end (old ++ more) ≡ some n
    → (length old < n) × (n ≤ length (old ++ more))
unfolding find_end
find_end-append [] more n d e = find_end-bound more n e
find_end-append (c ∷ old) more n d e = elim (Option-cases (find_end (old ++ more))) [
  | inl h ↦ ground (arith, d, e, h)
  | inr (m, h) ↦ ground (arith, d, e, h, find_end-append old more m (ground (arith, d)) h)
]

awaited : {old : Bytes} → Awaits parse_line old → find_end old ≡ none
unfolding find_end parse_line
awaited starts = refl
awaited (waits old more w e) = elim (Option-cases (find_end (old ++ more))) [
  | inl h ↦ h
  | inr (n, h) ↦ ground (arith, e, h)
]

parse_line-EndsInNew : EndsInNew parse_line
unfolding parse_line
parse_line-EndsInNew old more nbytes contentlen w e = elim (Option-cases (find_end (old ++ more))) [
  | inl h ↦ ground (arith, e, h)
  | inr (n, h) ↦ find_end-append old more nbytes (awaited w) (ground (arith, e, h))
]

new-IsValid : IsValid parse_line new
unfolding new
new-IsValid = record {
  buffer = length-replicate {A = ℕ} maxheaderslen 0;
  room = λ e. omega arith;
  rest = cc;
  fresh = λ e. refl;
  awaits = λ e. starts;
}

abbrev half : MessageParser
half = (feed parse_line (codes "GET /") new).1

half-IsValid : IsValid parse_line half
half-IsValid =
    (feed-IsSound parse_line parse_line-EndsInNew (codes "GET /") new (omega arith) new-IsValid).1

feed-IsSound_example :
    IsSound parse_line (10 ∷ codes "body") (feed parse_line (10 ∷ codes "body") half)
feed-IsSound_example =
    feed-IsSound parse_line parse_line-EndsInNew (10 ∷ codes "body") half (omega arith) half-IsValid

abbrev awaiting : MessageParser
awaiting = record { headers = []; headerslen = 80; bodylen = 0; contentlen = 5; inbody = true }

feed_all-body_example :
    feed_all parse_line (codes "ab" ∷ (codes "cde" ++ codes "GET") ∷ []) awaiting ≡ (
      goes_on (codes "ab")
          ∷ record { state = State.body; data_at = codes "cdeGET"; datalen = 3; complete = true }
          ∷ [],
      clear awaiting,
    )
feed_all-body_example =
    feed_all-body parse_line (codes "ab" ∷ []) (codes "cde") (codes "GET") awaiting refl
      (omega arith) (omega arith) (omega arith)
