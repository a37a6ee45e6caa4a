-- ===== src/Network/PropStream.antt =====
-- PropStream and PropWriteStream (src/fileloader.h): the properties of items, conditions and
-- players as bytes. A reader is the list of the bytes from `p` to `end`; a writer is its buffer.
pub mod RoundTrip
use baiak_fonticak.Base.{ℕ, zero, suc, ◌+◌, ◌-◌, ◌*◌, ◌/◌, ◌%◌, ◌^◌, ◌≤◌, ◌<◌, min, max}
use baiak_fonticak.Base.{bit_and, bit_or, bit_xor, String, ◌≡◌, refl, sym, ap, ap₂, subst}
use baiak_fonticak.Base.{fun_ext, ◌∙◌, ◌≢◌, ◌↔◌, ◌⊎◌, inl, inr, Bool, true, false, not, ◌&&◌}
use baiak_fonticak.Base.{◌||◌, Option, none, some, List, [], ◌∷◌, ◌++◌, map, append-nil}
use baiak_fonticak.Base.{append_assoc, arith, str_eq, length, is_empty, get_elem?, set}
use baiak_fonticak.Base.{get_or, take, drop, length-append, take_prefix, drop_prefix}
use baiak_fonticak.Base.{take-append-drop, length-take-le, length-drop-le, length-set, All}
use baiak_fonticak.Base.{contains, erase_first, count, IsDistinct, count-append}
use baiak_fonticak.Base.{contains-iff-count, count-erase_first, length-erase_first-le, ltb}
use baiak_fonticak.Base.{leb, ◌==◌, ◌!=◌, if◌then◌else◌, ltb→lt, lt→ltb, leb→le, le→leb}
use baiak_fonticak.Base.{lt→leb_false, lt→ltb_false, ==_iff, ==_self, tests, Bool-cases}
use baiak_fonticak.Base.{Option-cases}
use baiak_fonticak.Base.Words.{le_bytes, of_le}

-- read<T>(ret) at an unsigned T of `size` bytes: `none` is the result false.
unfoldable pub read : ℕ → List ℕ → Option ℕ × List ℕ
read size bytes =
    if ltb (length bytes) size
    then (none, bytes)
    else (some (of_le (take size bytes)), drop size bytes)

-- The part of readString after the length was read: the two bytes stay consumed if it fails.
unfoldable pub read_string_body : Option ℕ × List ℕ → Option (List ℕ) × List ℕ
read_string_body (none, bytes) = (none, bytes)
read_string_body (some str_len, bytes) =
    if ltb (length bytes) str_len
    then (none, bytes)
    else (some (take str_len bytes), drop str_len bytes)

unfoldable pub read_string : List ℕ → Option (List ℕ) × List ℕ
read_string bytes = read_string_body (read 2 bytes)

unfoldable pub skip : ℕ → List ℕ → Bool × List ℕ
skip n bytes = if ltb (length bytes) n then (false, bytes) else (true, drop n bytes)

-- write<T>(add) at an unsigned T of `size` bytes.
unfoldable pub write : ℕ → ℕ → List ℕ → List ℕ
write size v buffer = buffer ++ le_bytes size v

unfoldable pub write_string : List ℕ → List ℕ → List ℕ
write_string str buffer =
    let str_length = length str in
    if ltb 65535 str_length then write 2 0 buffer else write 2 (str_length % 2 ^ 16) buffer ++ str
