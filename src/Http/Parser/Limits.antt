-- ===== src/Http/Parser/Limits.antt =====
-- The limits of the parser of src/http/parser.cpp.
use cbftp.Common.{
  ℕ, ◌+◌, ◌≤◌, ◌<◌, ◌≡◌, ◌^◌, refl, subst, sym, ◌∙◌, true, false, Option, [], ◌∷◌, ◌++◌, Bytes,
  length, length-append, length-take, length-drop, take, drop, u64, sub64, arith, ltb, leb, ◌==◌,
  Bool-cases, inl, inr,
}
use cbftp.Http.Parser.{
  MessageParser, Result, Parsed, parsed, need_more_data, failed, maxheaderslen, maxbodylen, clear,
  feed, feed_body, headers_parsed, copy_at, content_length, copy_headers, copied_len,
}

-- The bytes that earlier calls of `parse` have waited on, each with the number of bytes that were not new.
pub data Awaits (parse : Bytes → ℕ → Parsed) : Bytes → Type 0 where
  starts : Awaits parse []
  waits :
      (old more : Bytes)
      → Awaits parse old
      → parse (old ++ more) (length old) ≡ need_more_data
      → Awaits parse (old ++ more)

-- The buffer keeps its size, has room left for headers and starts with bytes that were waited on; a body
-- has not ended, nor passed the limit.
pub record IsValid (parse : Bytes → ℕ → Parsed) (p : MessageParser) : Type 0 where
  pub buffer : length p.headers ≡ maxheaderslen
  pub room : p.inbody ≡ false → p.headerslen < maxheaderslen
  pub rest : p.inbody ≡ true → (p.bodylen < p.contentlen) × (p.bodylen ≤ maxbodylen)
  pub fresh : p.inbody ≡ false → p.bodylen ≡ 0
  pub awaits : p.inbody ≡ false → Awaits parse (take p.headerslen p.headers)

-- If all earlier calls on the buffer wanted more, the headers end among the new bytes: picohttpparser
-- returns how many bytes a message's headers take and, called for more and more of the message with the
-- number of bytes that it has seen, wants more only if they do not end among the bytes so far.
abbrev pub EndsInNew : (Bytes → ℕ → Parsed) → Type 0
EndsInNew parse =
    (old more : Bytes) (nbytes : ℕ) (contentlen : Option ℕ)
    → Awaits parse old
    → parse (old ++ more) (length old) ≡ parsed nbytes contentlen
    → (length old < nbytes) × (nbytes ≤ length (old ++ more))

length-copy_at :
    (at : ℕ) (more old : Bytes)
    → at + length more ≤ length old
    → length (copy_at at more old) ≡ length old
length-copy_at at more old h = omega (
  arith,
  length-append (take at old) (more ++ drop (at + length more) old),
  length-append more (drop (at + length more) old),
  length-take at old,
  length-drop (at + length more) old,
)

take-length-append : (xs ys : Bytes) → take (length xs) (xs ++ ys) ≡ xs
take-length-append [] ys = refl
take-length-append (x ∷ xs) ys = rw (take-length-append xs ys)

append_assoc : (xs ys zs : Bytes) → xs ++ (ys ++ zs) ≡ (xs ++ ys) ++ zs
append_assoc [] ys zs = refl
append_assoc (x ∷ xs) ys zs = rw (append_assoc xs ys zs)

-- What is copied stands after what was there.
take-copy_at :
    (at : ℕ) (more old : Bytes)
    → at ≤ length old
    → take (at + length more) (copy_at at more old) ≡ take at old ++ more
take-copy_at at more old h =
    let n : length (take at old ++ more) ≡ at + length more =
      omega (arith, length-append (take at old) more, length-take at old) in
    let r = drop (at + length more) old in
    subst (λ k. take k (copy_at at more old) ≡ take at old ++ more) n
      (subst (λ xs. take (length (take at old ++ more)) xs ≡ take at old ++ more)
        (sym (append_assoc (take at old) more r)) (take-length-append (take at old ++ more) r))

module _ (parse : Bytes → ℕ → Parsed) where
  abbrev pub IsSound : Bytes → Result × MessageParser → Type 0
  IsSound data_at r = (r.0.datalen ≤ length data_at) × IsValid parse r.1

  clear-IsValid : (p : MessageParser) → length p.headers ≡ maxheaderslen → IsValid parse (clear p)
  clear-IsValid p h = record {
    buffer = h;
    room = λ e. omega arith;
    rest = cc;
    fresh = λ e. refl;
    awaits = λ e. starts;
  }

  feed_body-IsSound :
      (data_at : Bytes) (p : MessageParser)
      → length data_at < 2 ^ 62
      → IsValid parse p
      → p.inbody ≡ true
      → IsSound data_at (feed_body data_at p)
  unfolding feed_body
  feed_body-IsSound data_at p l v b =
      let n = p.bodylen + length data_at in
      let r = v.rest b in
      let u : u64 n ≡ n = omega arith in
      elim (Bool-cases (ltb maxbodylen n)) [
        | inl e ↦ rw (u, e) (omega arith, clear-IsValid p v.buffer)
        | inr e ↦ elim (Bool-cases (ltb p.contentlen n)) [
          | inl f ↦
              let m : sub64 p.contentlen p.bodylen ≤ length data_at = ground arith in
              rw (u, e, f) (m, clear-IsValid p v.buffer)
          | inr f ↦ elim (Bool-cases (ltb n p.contentlen)) [
            | inl g ↦
                rw (u, e, f, g)
                  (
                    omega arith,
                    record {
                      buffer = v.buffer;
                      room = v.room;
                      rest = λ i. (ground arith, ground arith);
                      fresh = λ i. cc;
                      awaits = λ i. cc;
                    },
                  )
            | inr g ↦ rw (u, e, f, g) (omega arith, clear-IsValid p v.buffer)
          ]
        ]
      ]

  headers_parsed-IsSound :
      (o : Parsed) (data_at : Bytes) (prevlen : ℕ) (p : MessageParser)
      → length p.headers ≡ maxheaderslen
      → p.inbody ≡ false
      → p.bodylen ≡ 0
      → p.headerslen ≤ maxheaderslen
      → p.headerslen ≤ prevlen + length data_at
      → ((nbytes : ℕ) (contentlen : Option ℕ)
          → o ≡ parsed nbytes contentlen
          → (prevlen < nbytes) × (nbytes ≤ p.headerslen))
      → (o ≡ need_more_data → Awaits parse (take p.headerslen p.headers))
      → IsSound data_at (headers_parsed o data_at prevlen p)
  unfolding headers_parsed
  headers_parsed-IsSound (parsed nbytes contentlen) data_at prevlen p h b z m l k w =
      let q = k nbytes contentlen refl in
      let s : sub64 nbytes prevlen ≤ length data_at = omega arith in
      let c = content_length contentlen p.contentlen in
      elim (Bool-cases (c == 0)) [
        | inl e ↦ rw e (s, clear-IsValid p h)
        | inr e ↦ rw e (
          s,
          record {
            buffer = h;
            room = λ i. cc;
            rest = λ i. (ground arith, omega arith);
            fresh = λ i. cc;
            awaits = λ i. cc;
          },
        )
      ]
  headers_parsed-IsSound need_more_data data_at prevlen p h b z m l k w =
      elim (Bool-cases (leb maxheaderslen p.headerslen)) [
        | inl e ↦ rw e (omega arith, clear-IsValid p h)
        | inr e ↦ rw e (
          omega arith,
          record {
            buffer = h;
            room = λ i. ground arith;
            rest = λ i. cc;
            fresh = λ i. z;
            awaits = λ i. w refl;
          },
        )
      ]
  headers_parsed-IsSound failed data_at prevlen p h b z m l k w =
      elim (Bool-cases (leb maxheaderslen p.headerslen)) [
        | inl e ↦ rw e (omega arith, clear-IsValid p h)
        | inr e ↦ rw e (omega arith, clear-IsValid p h)
      ]

  feed_inbody : (c : Bytes) (p : MessageParser) → p.inbody ≡ true → feed parse c p ≡ feed_body c p
  unfolding feed
  feed_inbody c p e = rw e

  feed_headers :
      (c : Bytes) (p : MessageParser)
      → p.inbody ≡ false
      → feed parse c p
        ≡ headers_parsed
            (parse (take (copy_headers c p).headerslen (copy_headers c p).headers) p.headerslen)
            c
            p.headerslen
            (copy_headers c p)
  unfolding feed
  feed_headers c p e = simp e

  -- If the headers that `parse` finds end among the new bytes wherever all earlier calls on the buffer
  -- wanted more, then every feed of less than 2^62 bytes to a valid parser writes within the buffer, hands
  -- on no more bytes than it was given, and leaves a valid parser: while headers are awaited there is room
  -- left for them and all calls on those in the buffer wanted more, and while a body is awaited it has
  -- neither ended nor passed the limit.
  pub feed-IsSound :
      EndsInNew parse
      → (data_at : Bytes) (p : MessageParser) → length data_at < 2 ^ 62
      → IsValid parse p
      → IsSound data_at (feed parse data_at p)
  unfolding feed
  feed-IsSound ends data_at p l v = elim (Bool-cases p.inbody) [
    | inl b ↦
        subst (IsSound data_at) (sym (feed_inbody data_at p b)) (feed_body-IsSound data_at p l v b)
    | inr b ↦
        let q = copy_headers data_at p in
        let n = copied_len data_at p in
        let r = v.room b in
        let m : p.headerslen + n ≤ maxheaderslen = ground arith in
        let k : n ≤ length data_at = ground arith in
        let t : length (take n data_at) ≡ n = omega (arith, length-take n data_at) in
        let h : length q.headers ≡ maxheaderslen =
          length-copy_at p.headerslen (take n data_at) p.headers (omega (arith, v.buffer))
          ∙ v.buffer in
        let e : q.headerslen ≡ p.headerslen + n = omega arith in
        let old = take p.headerslen p.headers in
        let g : length old ≡ p.headerslen =
          omega (arith, length-take p.headerslen p.headers, v.buffer) in
        let u : take q.headerslen q.headers ≡ old ++ take n data_at =
          subst (λ j. take j q.headers ≡ old ++ take n data_at) (omega (arith, e, t))
            (take-copy_at p.headerslen (take n data_at) p.headers (omega (arith, v.buffer))) in
        let o = parse (old ++ take n data_at) (length old) in
        let y : parse (take q.headerslen q.headers) p.headerslen ≡ o = rw (u, g) in
        let x : length (old ++ take n data_at) ≡ q.headerslen =
          omega (arith, length-append old (take n data_at), g, t, e) in
        subst (IsSound data_at) (sym (feed_headers data_at p b)) (
          subst (λ z. IsSound data_at (headers_parsed z data_at p.headerslen q)) (sym y)
            (headers_parsed-IsSound o data_at p.headerslen q h b (v.fresh b) (omega arith)
              (omega arith)
              (λ nbytes contentlen z.
                let w = ends old (take n data_at) nbytes contentlen (v.awaits b) z in
                (omega (arith, w, g), omega (arith, w, x)))
              (λ z. subst (Awaits parse) (sym u) (waits old (take n data_at) (v.awaits b) z))))
  ]
