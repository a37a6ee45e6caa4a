-- ===== src/Network/Message.antt =====
-- NetworkMessage (src/networkmessage.h, src/networkmessage.cpp): a buffer that is read and
-- written at a moving position. `length` and `position` are the uint16_t fields of `info`; the
-- arithmetic of the tests is that of int and size_t, which does not wrap at these sizes. What
-- needs the item tables or floats (addItem, addItemId, addDouble) is left out.
pub mod Writes
pub mod RoundTrip
pub mod ReadBack
use baiak_fonticak.Base.{
  ℕ, zero, suc, ◌+◌, ◌-◌, ◌*◌, ◌%◌, ◌^◌, Bool, true, false, ◌||◌, List, [], ◌∷◌,
}
use baiak_fonticak.Base.{ltb, leb, ◌==◌, if◌then◌else◌, length}
use baiak_fonticak.Base.Words.{u16, le_bytes, of_le}
use baiak_fonticak.Network.Buffer.{Buffer, store, load}
use baiak_fonticak.Base.{bit_or}
use baiak_fonticak.Base.Int.{ℤ, pos_part, neg_part}
use baiak_fonticak.World.Position.{Position}

abbrev pub network_message_max_size : ℕ
network_message_max_size = 65500

abbrev pub initial_buffer_position : ℕ
initial_buffer_position = 8

-- NETWORKMESSAGE_MAXSIZE - HEADER_LENGTH - CHECKSUM_LENGTH - XTEA_MULTIPLE
abbrev pub max_body_length : ℕ
max_body_length = network_message_max_size - 2 - 4 - 8

abbrev pub max_protocol_body_length : ℕ
max_protocol_body_length = max_body_length - 10

pub record NetworkMessage : Type 0 where
  pub length : ℕ
  pub position : ℕ
  pub overrun : Bool
  pub buffer : Buffer

-- reset(): `info = {}`; the buffer stays.
unfoldable pub reset : NetworkMessage → NetworkMessage
reset m = record m { length = 0; position = initial_buffer_position; overrun = false }

unfoldable pub can_add : ℕ → NetworkMessage → Bool
can_add size m = ltb (size + m.position) max_body_length

-- The second test is `size >= NETWORKMESSAGE_MAXSIZE - info.position` in int.
unfoldable pub can_read : ℕ → NetworkMessage → Bool × NetworkMessage
can_read size m =
    if ltb (m.length + 8) (m.position + size) || leb network_message_max_size (size + m.position)
    then (false, record m { overrun = true })
    else (true, m)

unfoldable pub get_byte : NetworkMessage → ℕ × NetworkMessage
unfolding can_read
get_byte m =
    let (fits, m') = can_read 1 m in
    if fits
    then (m'.buffer m'.position, record m' { position = u16 (m'.position + 1) })
    else (0, m')

-- getPreviousByte(): the position is decremented first.
unfoldable pub get_previous_byte : NetworkMessage → ℕ × NetworkMessage
get_previous_byte m =
    let p = (m.position + 2 ^ 16 - 1) % 2 ^ 16 in (m.buffer p, record m { position = p })

-- get<T>() at an unsigned T of `size` bytes.
unfoldable pub get : ℕ → NetworkMessage → ℕ × NetworkMessage
get size m =
    let (fits, m') = can_read size m in
    if fits
    then (
      of_le (load m'.buffer m'.position size),
      record m' { position = u16 (m'.position + size) },
    )
    else (0, m')

-- The part of getString after the length is known.
unfoldable pub get_string_body : ℕ → NetworkMessage → List ℕ × NetworkMessage
get_string_body n m =
    let (fits, m') = can_read n m in
    if fits
    then (load m'.buffer m'.position n, record m' { position = u16 (m'.position + n) })
    else ([], m')

-- getString(stringLen): a length of 0 says that the length stands in the message.
unfoldable pub get_string : ℕ → NetworkMessage → List ℕ × NetworkMessage
get_string n m =
    let (string_len, m') = (if n == 0 then get 2 m else (n, m)) in get_string_body string_len m'

unfoldable pub get_position : NetworkMessage → Position × NetworkMessage
get_position m =
    let (x, m1) = get 2 m in
    let (y, m2) = get 2 m1 in let (z, m3) = get_byte m2 in (record { x = x; y = y; z = z }, m3)

-- Stores bytes and counts them, in the position and in the length.
abbrev pub append_bytes : List ℕ → NetworkMessage → NetworkMessage
append_bytes bs m = record m {
  buffer = store m.buffer m.position bs;
  position = u16 (m.position + length bs);
  length = u16 (m.length + length bs);
}

-- add<T>(value) at an unsigned T of `size` bytes; addByte is the case of one byte.
unfoldable pub add : ℕ → ℕ → NetworkMessage → NetworkMessage
unfolding can_add
add size v m = if can_add size m then append_bytes (le_bytes size v) m else m

unfoldable pub add_byte : ℕ → NetworkMessage → NetworkMessage
unfolding can_add
add_byte v m = if can_add 1 m then append_bytes (le_bytes 1 v) m else m

unfoldable pub add_string : List ℕ → NetworkMessage → NetworkMessage
add_string s m =
    let string_len = length s in
    if (if can_add (string_len + 2) m then false else true) || ltb 8192 string_len
    then m
    else append_bytes s (add 2 string_len m)

unfoldable pub add_bytes : List ℕ → NetworkMessage → NetworkMessage
unfolding can_add
add_bytes bs m =
    let size = length bs in
    if (if can_add size m then false else true) || ltb 8192 size then m else append_bytes bs m

-- `n` bytes 0x33 at the position; only the length moves.
unfoldable pub fill : ℕ → List ℕ
fill zero = []
fill (suc n) = 0x33 ∷ fill n

unfoldable pub add_padding_bytes : ℕ → NetworkMessage → NetworkMessage
unfolding can_add
add_padding_bytes n m =
    if can_add n m
    then record m { buffer = store m.buffer m.position (fill n); length = u16 (m.length + n) }
    else m

unfoldable pub add_position : Position → NetworkMessage → NetworkMessage
add_position p m = add_byte p.z (add 2 p.y (add 2 p.x m))

-- skipBytes(int16_t count)
unfoldable pub skip_bytes : ℤ → NetworkMessage → NetworkMessage
skip_bytes count m = record m {
  position = (m.position + pos_part count + 2 ^ 16 - neg_part count) % 2 ^ 16;
}

unfoldable pub set_buffer_position : ℕ → NetworkMessage → Bool × NetworkMessage
set_buffer_position p m =
    if ltb p (network_message_max_size - initial_buffer_position)
    then (true, record m { position = u16 (p + initial_buffer_position) })
    else (false, m)

unfoldable pub get_length_header : NetworkMessage → ℕ
get_length_header m = u16 (bit_or (m.buffer 0) (m.buffer 1 * 2 ^ 8))
