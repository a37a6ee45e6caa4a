-- ===== src/Network/Message/ReadBack.antt =====
-- One field of any sort, written to a message and read back (src/networkmessage.h,
-- src/networkmessage.cpp).
use baiak_fonticak.Base.{ℕ, ◌+◌, ◌^◌, ◌≤◌, ◌<◌, ◌≡◌, ap, List, length}
use baiak_fonticak.World.Position.{Position, IsPosition}
use baiak_fonticak.Network.Message.{NetworkMessage, add, add_string, add_position, get}
use baiak_fonticak.Network.Message.{get_string, get_position, max_body_length}
use baiak_fonticak.Network.Message.Writes.{IsWritten}
use baiak_fonticak.Network.Message.RoundTrip.{rewind, get-add, get_string-add_string}
use baiak_fonticak.Network.Message.RoundTrip.{get_position-add_position}

-- A number of some bytes, a string, or a position.
pub data Entry : Type 0 where
  number : ℕ → ℕ → Entry
  string : List ℕ → Entry
  place : Position → Entry

pub data Sort : Type 0 where
  number_of : ℕ → Sort
  string_of : Sort
  place_of : Sort

unfoldable pub sort_of : Entry → Sort
sort_of (number size v) = number_of size
sort_of (string s) = string_of
sort_of (place p) = place_of

unfoldable pub add_entry : Entry → NetworkMessage → NetworkMessage
add_entry (number size v) m = add size v m
add_entry (string s) m = add_string s m
add_entry (place p) m = add_position p m

unfoldable pub get_entry : Sort → NetworkMessage → Entry × NetworkMessage
get_entry (number_of size) m = let r = get size m in (number size r.0, r.1)
get_entry string_of m = let r = get_string 0 m in (string r.0, r.1)
get_entry place_of m = let r = get_position m in (place r.0, r.1)

-- It fits the bytes of its sort, and getString takes it.
unfoldable pub IsReadable : Entry → Type 0
IsReadable (number size v) = v < 256 ^ size
IsReadable (string s) = length s ≤ 8192
IsReadable (place p) = IsPosition p

unfoldable pub size_of : Entry → ℕ
size_of (number size v) = size
size_of (string s) = length s + 2
size_of (place p) = 5

-- A number that fits its bytes, a string of at most 8192 bytes or a position, added to a message
-- with room for it, is what the reader of its sort reads at the place where it was added, and the
-- reader then stands at the end of the message.
pub get_entry-add_entry :
    (e : Entry) (m : NetworkMessage)
    → IsReadable e
    → IsWritten m
    → size_of e + m.position < max_body_length
    → get_entry (sort_of e) (rewind m.position (add_entry e m)) ≡ (e, add_entry e m)
unfolding get_entry sort_of add_entry IsReadable size_of
get_entry-add_entry (number size v) m fits w room =
    ap (λ (r : ℕ × NetworkMessage). (number size r.0, r.1)) (get-add size v m w fits room)
get_entry-add_entry (string s) m fits w room =
    ap (λ (r : List ℕ × NetworkMessage). (string r.0, r.1)) (get_string-add_string s m w fits room)
get_entry-add_entry (place p) m fits w room =
    ap (λ (r : Position × NetworkMessage). (place r.0, r.1))
      (get_position-add_position p m fits w room)
