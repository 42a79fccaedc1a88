-- ===== src/Util/Names.antt =====
-- The comparison of user names and the lower case of src/util.cpp, for ASCII.
use cbftp.Common.{ℕ, ◌+◌, ◌&&◌, Bool, if◌then◌else◌, ltb, leb, Bytes, length, take, map, same_text}

pub to_lower_char : ℕ → ℕ
to_lower_char c = if leb 65 c && leb c 90 then c + 32 else c

pub to_lower : Bytes → Bytes
to_lower s = map to_lower_char s

unfoldable pub eight_char_user_compare : Bytes → Bytes → Bool
eight_char_user_compare a b =
    if ltb 8 (length a) && ltb 8 (length b) then same_text a b else same_text (take 8 a) (take 8 b)
