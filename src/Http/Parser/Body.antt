-- ===== src/Http/Parser/Body.antt =====
-- A body that is fed to the parser of src/http/parser.cpp in pieces.
use cbftp.Common.{
  ℕ, suc, ◌+◌, ◌≤◌, ◌<◌, ◌≡◌, ap, true, false, List, [], ◌∷◌, ◌++◌, map, Bytes, length,
  length-append, u64, sub64, arith, ltb,
}
use cbftp.Http.Parser.{
  MessageParser, Result, State, Parsed, maxbodylen, clear, feed, feed_body, feed_all,
}

abbrev pub total : List Bytes → ℕ
total [] = 0
total (c ∷ cs) = length c + total cs

-- The result for a piece with the body going on behind it.
abbrev pub goes_on : Bytes → Result
goes_on c = record { state = State.body; data_at = c; datalen = length c; complete = false }

abbrev with_body : ℕ → MessageParser → MessageParser
with_body n p = record p { bodylen = n }

feed_body-more :
    (c : Bytes) (p : MessageParser)
    → p.bodylen + length c < p.contentlen
    → p.contentlen ≤ maxbodylen
    → feed_body c p ≡ (goes_on c, with_body (p.bodylen + length c) p)
unfolding feed_body
feed_body-more c p h k =
    let n = p.bodylen + length c in
    let u : u64 n ≡ n = omega arith in
    let a : ltb maxbodylen n ≡ false = ground arith in
    let b : ltb p.contentlen n ≡ false = ground arith in
    let d : ltb n p.contentlen ≡ true = ground arith in simp (u, a, b, d)

feed_body-last :
    (c extra : Bytes) (p : MessageParser)
    → p.bodylen + length c ≡ p.contentlen
    → p.contentlen + length extra ≤ maxbodylen
    → feed_body (c ++ extra) p ≡ (
      record { state = State.body; data_at = c ++ extra; datalen = length c; complete = true },
      clear p,
    )
unfolding feed_body
feed_body-last c [] p h k =
    let m : length (c ++ []) ≡ length c = omega (arith, length-append c []) in
    let u : u64 p.contentlen ≡ p.contentlen = omega arith in
    let a : ltb maxbodylen p.contentlen ≡ false = ground arith in
    let b : ltb p.contentlen p.contentlen ≡ false = ground arith in simp (m, h, u, a, b)
feed_body-last c (x ∷ extra) p h k =
    let n = p.bodylen + length (c ++ (x ∷ extra)) in
    let l : n ≡ p.contentlen + suc (length extra) = omega (arith, length-append c (x ∷ extra)) in
    let u : u64 n ≡ n = omega arith in
    let a : ltb maxbodylen n ≡ false = ground arith in
    let b : ltb p.contentlen n ≡ true = ground arith in
    let m : sub64 p.contentlen p.bodylen ≡ length c = omega arith in simp (u, a, b, m)

module _ (parse : Bytes → ℕ → Parsed) where
  feed_inbody : (c : Bytes) (p : MessageParser) → p.inbody ≡ true → feed parse c p ≡ feed_body c p
  unfolding feed
  feed_inbody c p e = rw e

  -- A body that, with what comes behind it in its last piece, is within the limit may be fed in
  -- any pieces, the last of which has bytes of the body: each piece but the last is handed on
  -- whole as body that goes on, the last up to the end of the body and as its end, and the parser
  -- is then cleared.
  pub feed_all-body :
      (chunks : List Bytes) (last extra : Bytes) (p : MessageParser)
      → p.inbody ≡ true
      → 0 < length last
      → p.bodylen + (total chunks + length last) ≡ p.contentlen
      → p.contentlen + length extra ≤ maxbodylen
      → feed_all parse (chunks ++ ((last ++ extra) ∷ [])) p ≡ (
        map goes_on chunks
            ++ (record {
              state = State.body;
              data_at = last ++ extra;
              datalen = length last;
              complete = true;
            }
                ∷ []),
        clear p,
      )
  unfolding feed_all
  feed_all-body [] last extra p b o h k =
      rw (feed_inbody (last ++ extra) p b, feed_body-last last extra p (omega arith) k)
  feed_all-body (c ∷ chunks) last extra p b o h k =
      rw (feed_inbody c p b, feed_body-more c p (omega arith) (omega arith))
        (ap (λ r. (goes_on c ∷ r.0, r.1))
          (feed_all-body chunks last extra (with_body (p.bodylen + length c) p) b o (omega arith)
            k))
