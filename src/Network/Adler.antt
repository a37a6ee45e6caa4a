-- ===== src/Network/Adler.antt =====
-- adlerChecksum (src/tools.cpp): the Adler-32 checksum, with the remainders taken once for each
-- block of 5552 bytes. `a` and `b` are uint32_t.
pub mod Reference
use baiak_fonticak.Base.{ℕ, zero, suc, ◌+◌, ◌-◌, ◌*◌, ◌/◌, ◌%◌, ◌^◌, ◌≤◌, ◌<◌, min, max}
use baiak_fonticak.Base.{bit_and, bit_or, bit_xor, String, ◌≡◌, refl, sym, ap, ap₂, subst}
use baiak_fonticak.Base.{fun_ext, ◌∙◌, ◌≢◌, ◌↔◌, ◌⊎◌, inl, inr, Bool, true, false, not, ◌&&◌}
use baiak_fonticak.Base.{◌||◌, Option, none, some, List, [], ◌∷◌, ◌++◌, map, append-nil}
use baiak_fonticak.Base.{append_assoc, arith, str_eq, length, is_empty, get_elem?, set}
use baiak_fonticak.Base.{get_or, take, drop, length-append, take_prefix, drop_prefix}
use baiak_fonticak.Base.{length-set, All, contains, erase_first, count, IsDistinct}
use baiak_fonticak.Base.{count-append, contains-iff-count, count-erase_first}
use baiak_fonticak.Base.{length-erase_first-le, ltb, leb, ◌==◌, ◌!=◌, if◌then◌else◌, ltb→lt}
use baiak_fonticak.Base.{lt→ltb, leb→le, le→leb, lt→leb_false, lt→ltb_false, ==_iff, ==_self}
use baiak_fonticak.Base.{tests, Bool-cases, Option-cases}
use baiak_fonticak.Base.Words.{add_u32, u32}
use baiak_fonticak.Network.Message.{network_message_max_size}

abbrev pub adler : ℕ
adler = 65521

abbrev pub block_size : ℕ
block_size = 5552

-- The inner loop over the bytes of a block.
unfoldable pub adler_block : List ℕ → ℕ → ℕ → ℕ × ℕ
adler_block [] a b = (a, b)
adler_block (byte ∷ bytes) a b = adler_block bytes (add_u32 a byte) (add_u32 b (add_u32 a byte))

-- The outer loop, on fuel for its rounds: each takes a block, the last a shorter one.
unfoldable pub adler_loop : ℕ → List ℕ → ℕ → ℕ → ℕ × ℕ
adler_loop zero bytes a b = (a, b)
adler_loop (suc fuel) [] a b = (a, b)
adler_loop (suc fuel) (byte ∷ bytes) a b =
    let (a', b') = adler_block (take block_size (byte ∷ bytes)) a b in
    adler_loop fuel (drop block_size (byte ∷ bytes)) (a' % adler) (b' % adler)

unfoldable pub adler_checksum : List ℕ → ℕ
adler_checksum bytes =
    if ltb network_message_max_size (length bytes)
    then 0
    else let (a, b) = adler_loop (length bytes) bytes 1 0 in bit_or (u32 (b * 2 ^ 16)) a
