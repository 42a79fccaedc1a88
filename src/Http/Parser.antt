-- ===== src/Http/Parser.antt =====
-- src/http/parser.h and src/http/parser.cpp: a message is fed in pieces, its headers first and then its
-- body. `parse` of a subclass, which calls picohttpparser and then `parseHeaders`, is a parameter: what
-- it returns for the bytes so far, of which some are not new. A pointer to data is what stands there.
pub mod Limits
pub mod Body
mod Examples
use cbftp.Common.{
  ℕ, ◌+◌, ◌-◌, ◌==◌, Bool, true, false, Option, none, some, List, [], ◌∷◌, ◌++◌, if◌then◌else◌, ltb,
  leb, Bytes, length, take, drop, replicate, u64, sub64,
}

abbrev pub maxheaderslen : ℕ
maxheaderslen = 8192

abbrev pub maxbodylen : ℕ
maxbodylen = 1048576

pub data State : Type 0 where
  body headers parsing_failed partial body_too_long uri_too_long unknown : State

pub record Result : Type 0 where
  pub state : State
  pub data_at : Bytes
  pub datalen : ℕ
  pub complete : Bool

-- The defaults of the constructor; a null pointer is no bytes.
abbrev pub only : State → Result
only state = record { state = state; data_at = []; datalen = 0; complete = false }

pub record MessageParser : Type 0 where
  pub headers : Bytes
  pub headerslen : ℕ
  pub bodylen : ℕ
  pub contentlen : ℕ
  pub inbody : Bool

-- What `parse` returns: a length above 0, and the content length if there is such a header;
-- NEED_MORE_DATA; or anything else.
pub data Parsed : Type 0 where
  parsed : ℕ → Option ℕ → Parsed
  need_more_data : Parsed
  failed : Parsed

pub new : MessageParser
new = record {
  headers = replicate maxheaderslen 0;
  headerslen = 0;
  bodylen = 0;
  contentlen = 0;
  inbody = false;
}

abbrev pub clear : MessageParser → MessageParser
clear p = record p { headerslen = 0; bodylen = 0; contentlen = 0; inbody = false }

-- `memcpy(&headers[at], data, n)`.
abbrev pub copy_at : ℕ → Bytes → Bytes → Bytes
copy_at at new old = take at old ++ (new ++ drop (at + length new) old)

abbrev pub content_length : Option ℕ → ℕ → ℕ
content_length none old = old
content_length (some n) old = n

-- `feed` once the headers so far have been parsed; `prevlen` of them are not from `data`.
pub headers_parsed : Parsed → Bytes → ℕ → MessageParser → Result × MessageParser
headers_parsed (parsed nbytes contentlen) data_at prevlen p =
    let q = record p { contentlen = content_length contentlen p.contentlen } in
    let complete = q.contentlen == 0 in
    (
      record {
        state = State.headers;
        data_at = data_at;
        datalen = sub64 nbytes prevlen;
        complete = complete;
      },
      if complete then clear q else record q { inbody = true },
    )
headers_parsed need_more_data data_at prevlen p =
    if leb maxheaderslen p.headerslen
    then (only State.uri_too_long, clear p)
    else (only State.partial, p)
headers_parsed failed data_at prevlen p =
    if leb maxheaderslen p.headerslen
    then (only State.uri_too_long, clear p)
    else (only State.parsing_failed, clear p)

pub feed_body : Bytes → MessageParser → Result × MessageParser
feed_body data_at p =
    let q = record p { bodylen = u64 (p.bodylen + length data_at) } in
    if ltb maxbodylen q.bodylen
    then (only State.body_too_long, clear q)
    else (if ltb q.contentlen q.bodylen
        then (
          record {
            state = State.body;
            data_at = data_at;
            datalen = sub64 q.contentlen p.bodylen;
            complete = true;
          },
          clear q,
        )
        else (if ltb q.bodylen q.contentlen
            then (
              record {
                state = State.body;
                data_at = data_at;
                datalen = length data_at;
                complete = false;
              },
              q,
            )
            else (
              record {
                state = State.body;
                data_at = data_at;
                datalen = length data_at;
                complete = true;
              },
              clear q,
            )))

-- The start of `feed` for headers: as much of the data as there is room for.
abbrev pub copied_len : Bytes → MessageParser → ℕ
copied_len data_at p =
    let headersleftlen = sub64 maxheaderslen p.headerslen in
    if ltb (length data_at) headersleftlen then length data_at else headersleftlen

abbrev pub copy_headers : Bytes → MessageParser → MessageParser
copy_headers data_at p = record p {
  headers = copy_at p.headerslen (take (copied_len data_at p) data_at) p.headers;
  headerslen = u64 (p.headerslen + copied_len data_at p);
}

module _ (parse : Bytes → ℕ → Parsed) where
  pub feed : Bytes → MessageParser → Result × MessageParser
  feed data_at p =
      if p.inbody
      then feed_body data_at p
      else (let q = copy_headers data_at p in
          headers_parsed (parse (take q.headerslen q.headers) p.headerslen) data_at p.headerslen q)

  pub feed_all : List Bytes → MessageParser → List Result × MessageParser
  feed_all [] p = ([], p)
  feed_all (chunk ∷ chunks) p =
      let r = feed chunk p in let rs = feed_all chunks r.1 in (r.0 ∷ rs.0, rs.1)
