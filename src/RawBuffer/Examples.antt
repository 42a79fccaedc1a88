-- ===== src/RawBuffer/Examples.antt =====
-- Runs of src/rawbuffer.cpp on a log of two lines.
use cbftp.Common.{
  zero, suc, ◌≡◌, refl, Bytes, Bool, true, false, some, [], ◌∷◌, ◌++◌, codes, arith, Returns, inl,
  inr, is_set,
}
use cbftp.RawBuffer.{RawBuffer, Ring, Line, get_line, empty_ring, set_wildcard_filters}
use cbftp.RawBuffer.Operations.{write, write_line, clear}
use cbftp.RawBuffer.Shows.{IsRing, Shows, empty_ring-Shows}
use cbftp.RawBuffer.Writing.{Writes, write-Writes}
use cbftp.RawBuffer.Filtering.{FilterShows, kept, filtered_by, set_wildcard_filters-Shows}
use cbftp.RawBuffer.Showing.{
  WritesLine, RepeatsLine, Plain, write_line-WritesLine, write_line_blank, write_line-clear,
}

abbrev never : Bytes → Bytes → Bool
never pattern text = false

abbrev tag : Bytes
tag = codes "[x]"

abbrev line : Bytes → Line
line text = record { first = tag; second = text }

-- The line at index 1 is older than the one at index 0.
abbrev two_lines : Ring
two_lines = record { lines = line (codes "PASV") ∷ line (codes "USER") ∷ []; latest = 1 }

abbrev buffer : RawBuffer
buffer = record {
  log = two_lines;
  logfiltered = record { lines = []; latest = 0 };
  logcopy = empty_ring;
  logcopyfiltered = empty_ring;
  maxlength = 2;
  bookmarklines = 5;
  site = codes "SITE";
  id = codes "0";
  inprogress = false;
  uiwatching = true;
  threads = true;
  eventlog = false;
  callback = some 1;
  wildcardfilters = [];
  hasregexfilter = false;
  regexfilter = [];
  called_back = [];
  backend_pushes = 0;
}

two_lines-IsRing : IsRing 2 two_lines
two_lines-IsRing = record { room = (omega arith, omega arith); index = inr (refl, omega arith) }

empty-IsRing : IsRing 2 empty_ring
empty-IsRing = record { room = (omega arith, omega arith); index = inl (refl, omega arith) }

write-Writes_example :
    Returns
      (Writes buffer)
      (write never tag (codes "LIST" ++ (13 ∷ 10 ∷ 10 ∷ codes "226 ok")) buffer)
write-Writes_example =
    write-Writes never tag (codes "LIST" ++ (13 ∷ 10 ∷ 10 ∷ codes "226 ok")) buffer
      (record { log = two_lines-IsRing; begun = omega arith; logfiltered = empty-IsRing })

two_lines-Shows : Shows two_lines (line (codes "PASV") ∷ line (codes "USER") ∷ [])
unfolding get_line
two_lines-Shows = record {
  size = refl;
  shown = elim [ zero ↦ refl | suc zero ↦ refl | suc (suc n) ↦ ground arith ];
}

empty-Shows : Shows empty_ring []
empty-Shows = empty_ring-Shows

set_wildcard_filters-Shows_example :
    Returns
      (λ t.
        (FilterShows never buffer
            (kept never
              (filtered_by (codes "P*" ∷ []) buffer)
              (line (codes "PASV") ∷ line (codes "USER") ∷ []))
            t.logfiltered
          × FilterShows never buffer
              (kept never (filtered_by (codes "P*" ∷ []) buffer) [])
              t.logcopyfiltered)
        × ((t.wildcardfilters ≡ codes "P*" ∷ [])
            × ((t.log ≡ two_lines) × (t.logcopy ≡ empty_ring))))
      (set_wildcard_filters never (codes "P*" ∷ []) buffer)
set_wildcard_filters-Shows_example =
    set_wildcard_filters-Shows never (codes "P*" ∷ []) buffer
      (line (codes "PASV") ∷ line (codes "USER") ∷ []) [] two_lines-IsRing empty-IsRing
      two_lines-Shows empty-Shows

quit-Plain : Plain (codes "QUIT")
quit-Plain = ground arith

write_line-WritesLine_example :
    Returns
      (WritesLine never
        (line (codes "QUIT"))
        (line (codes "PASV") ∷ line (codes "USER") ∷ [])
        []
        buffer)
      (write_line never tag (codes "QUIT") buffer)
write_line-WritesLine_example =
    write_line-WritesLine never tag 81 (codes "UIT") buffer
      (line (codes "PASV") ∷ line (codes "USER") ∷ []) [] quit-Plain refl two_lines-IsRing
      empty-IsRing two_lines-Shows empty-Shows

write_line_blank_example :
    Returns (RepeatsLine never (line (codes "PASV")) [] buffer) (write_line never tag [] buffer)
write_line_blank_example =
    write_line_blank never tag (line (codes "PASV")) buffer (line (codes "USER") ∷ []) []
      empty-IsRing two_lines-Shows empty-Shows

write_line-clear_example : is_set (write_line never tag [] (clear buffer)) ≡ false
write_line-clear_example = write_line-clear never tag [] buffer tt (omega arith) (omega arith)
