-- ===== src/Network/Xtea.antt =====
-- The block cipher of the game protocol (src/xtea.cpp). Words are uint32_t; the bytes of a word
-- have disjoint bits, so joining them by `|` is the sum `of_le`, and the casts that split a word
-- are `le_bytes`. The key schedule is an array of 64 words, given as a function of the index.
pub mod Inverse
use baiak_fonticak.Base.{ℕ, zero, suc, ◌+◌, ◌-◌, ◌*◌, ◌/◌, ◌%◌, ◌^◌, ◌≤◌, ◌<◌, min, max}
use baiak_fonticak.Base.{bit_and, bit_or, bit_xor, String, ◌≡◌, refl, sym, ap, ap₂, subst}
use baiak_fonticak.Base.{fun_ext, ◌∙◌, ◌≢◌, ◌↔◌, ◌⊎◌, inl, inr, Bool, true, false, not, ◌&&◌}
use baiak_fonticak.Base.{◌||◌, Option, none, some, List, [], ◌∷◌, ◌++◌, map, append-nil}
use baiak_fonticak.Base.{append_assoc, arith, str_eq, length, is_empty, get_elem?, set}
use baiak_fonticak.Base.{get_or, take, drop, length-append, take_prefix, drop_prefix}
use baiak_fonticak.Base.{take-append-drop, length-take-le, length-drop-le, length-set, All}
use baiak_fonticak.Base.{contains, erase_first, count, IsDistinct, count-append}
use baiak_fonticak.Base.{contains-iff-count, count-erase_first, length-erase_first-le, ltb}
use baiak_fonticak.Base.{leb, ◌==◌, ◌!=◌, if◌then◌else◌, ltb→lt, lt→ltb, leb→le, le→leb}
use baiak_fonticak.Base.{lt→leb_false, lt→ltb_false, ==_iff, ==_self, tests, Bool-cases}
use baiak_fonticak.Base.{Option-cases}
use baiak_fonticak.Base.Words.{u32, add_u32, sub_u32, le_bytes, of_le}

abbrev pub delta : ℕ
delta = 0x9E3779B9

-- The bytes of the two words, before what follows.
unfoldable pub store_words : ℕ × ℕ → List ℕ → List ℕ
store_words (left, right) rest = le_bytes 4 left ++ (le_bytes 4 right ++ rest)

-- The loop over a buffer in steps of eight bytes.
unfoldable pub apply_blocks : (ℕ → ℕ → ℕ × ℕ) → ℕ → List ℕ → List ℕ
apply_blocks round zero bytes = bytes
apply_blocks round (suc n) bytes =
    store_words (round (of_le (take 4 bytes)) (of_le (take 4 (drop 4 bytes))))
      (apply_blocks round n (drop 8 bytes))

-- apply_rounds(data, length, round); the callers pass a multiple of eight bytes.
unfoldable pub apply_rounds : (ℕ → ℕ → ℕ × ℕ) → List ℕ → List ℕ
apply_rounds round bytes = apply_blocks round ((length bytes + 7) / 8) bytes

-- The round keys from `i` on, two for each turn of the loop.
unfoldable pub expand_loop : (ℕ → ℕ) → ℕ → ℕ → ℕ → List ℕ
expand_loop k zero sum next_sum = []
expand_loop k (suc n) sum next_sum =
    add_u32 sum (k (bit_and sum 3))
    ∷ add_u32 next_sum (k (bit_and (next_sum / 2 ^ 11) 3))
    ∷ expand_loop k n next_sum (add_u32 next_sum delta)

unfoldable pub expand_key : (ℕ → ℕ) → List ℕ
expand_key k = expand_loop k 32 0 (add_u32 0 delta)

-- ((v << 4 ^ v >> 5) + v) ^ key
unfoldable pub feistel : ℕ → ℕ → ℕ
feistel v key = bit_xor (add_u32 (bit_xor (u32 (v * 2 ^ 4)) (v / 2 ^ 5)) v) key

-- The lambda of encrypt at `i`, and that of decrypt at `i`.
unfoldable pub encrypt_round : (ℕ → ℕ) → ℕ → ℕ → ℕ → ℕ × ℕ
encrypt_round k i left right =
    let left' = add_u32 left (feistel right (k i)) in
    let right' = add_u32 right (feistel left' (k (i + 1))) in (left', right')

unfoldable pub decrypt_round : (ℕ → ℕ) → ℕ → ℕ → ℕ → ℕ × ℕ
decrypt_round k i left right =
    let right' = sub_u32 right (feistel left (k i)) in
    let left' = sub_u32 left (feistel right' (k (i - 1))) in (left', right')

-- for (i = i; n rounds; i += 2)
unfoldable pub encrypt_loop : (ℕ → ℕ) → ℕ → ℕ → List ℕ → List ℕ
encrypt_loop k zero i bytes = bytes
encrypt_loop k (suc n) i bytes = encrypt_loop k n (i + 2) (apply_rounds (encrypt_round k i) bytes)

-- for (i = i; n rounds; i -= 2)
unfoldable pub decrypt_loop : (ℕ → ℕ) → ℕ → ℕ → List ℕ → List ℕ
decrypt_loop k zero i bytes = bytes
decrypt_loop k (suc n) i bytes = decrypt_loop k n (i - 2) (apply_rounds (decrypt_round k i) bytes)

-- k.size() is 64: i = 0, 2, ..., 62.
unfoldable pub encrypt : List ℕ → (ℕ → ℕ) → List ℕ
encrypt bytes k = encrypt_loop k 32 0 bytes

-- i = 63, 61, ..., 1.
unfoldable pub decrypt : List ℕ → (ℕ → ℕ) → List ℕ
decrypt bytes k = decrypt_loop k 32 63 bytes
