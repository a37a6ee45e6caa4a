-- ===== src/Network/Message/RoundTrip.antt =====
-- What was written to a message is read back from where it was written.
use baiak_fonticak.Base.{ℕ, ◌+◌, ◌^◌, ◌≤◌, ◌<◌, ◌≡◌, sym, ap, subst, ◌∙◌, List, arith}
use baiak_fonticak.Base.{length, lt→ltb, lt→ltb_false}
use baiak_fonticak.Base.Words.{le_bytes, of_le, length-le_bytes, of_le-le_bytes}
use baiak_fonticak.Network.Buffer.{store, load, load-store, load-store_below}
use baiak_fonticak.World.Position.{Position, IsPosition}
use baiak_fonticak.Network.Message.{NetworkMessage, can_add, can_read, append_bytes, add}
use baiak_fonticak.Network.Message.{add_byte, add_string, add_position, max_body_length, get}
use baiak_fonticak.Network.Message.{get_byte, get_string, get_string_body, get_position}
use baiak_fonticak.Network.Message.Writes.{IsWritten}

-- A reader at position `p` of the message.
abbrev pub rewind : ℕ → NetworkMessage → NetworkMessage
rewind p m = record m { position = p }

-- What lies at `p` in the received part of a message is read as its number, and the position
-- moves behind it.
pub get_at :
    (m : NetworkMessage) (p size v : ℕ)
    → load m.buffer p size ≡ le_bytes size v
    → v < 256 ^ size
    → p + size ≤ m.length + 8
    → p + size < max_body_length
    → get size (rewind p m) ≡ (v, rewind (p + size) m)
unfolding get can_read
get_at m p size v here fits received inside =
    ground (arith, ap of_le here, of_le-le_bytes size v fits)

pub get_string_body_at :
    (m : NetworkMessage) (p : ℕ) (s : List ℕ)
    → load m.buffer p (length s) ≡ s
    → p + length s ≤ m.length + 8
    → p + length s < max_body_length
    → get_string_body (length s) (rewind p m) ≡ (s, rewind (p + length s) m)
unfolding get_string_body can_read
get_string_body_at m p s here received inside = ground (arith, here)

-- A message with `bs` appended, where nothing wraps.
abbrev appended : List ℕ → NetworkMessage → NetworkMessage
appended bs m = record m {
  buffer = store m.buffer m.position bs;
  position = m.position + length bs;
  length = m.length + length bs;
}

append_bytes_room :
    (bs : List ℕ) (m : NetworkMessage)
    → IsWritten m
    → length bs + m.position < max_body_length
    → append_bytes bs m ≡ appended bs m
append_bytes_room bs m w room = ground arith

add_room :
    (size v : ℕ) (m : NetworkMessage)
    → IsWritten m
    → size + m.position < max_body_length
    → add size v m ≡ appended (le_bytes size v) m
unfolding add
add_room size v m w room =
    rw (lt→ltb _ _ room)
      (append_bytes_room (le_bytes size v) m w (omega (arith, length-le_bytes size v)))

load-appended :
    (bs : List ℕ) (m : NetworkMessage) → load (appended bs m).buffer m.position (length bs) ≡ bs
load-appended bs m = load-store m.buffer m.position bs

-- A number of `size` bytes that was added to a message, with room for it, is what `get` reads at
-- the place where it was added, and the reader then stands at the end of the message.
pub get-add :
    (size v : ℕ) (m : NetworkMessage)
    → IsWritten m
    → v < 256 ^ size
    → size + m.position < max_body_length
    → get size (rewind m.position (add size v m)) ≡ (v, add size v m)
get-add size v m w fits room = rw (add_room size v m w room) (
    subst
      (λ n.
        get size (rewind m.position (appended (le_bytes size v) m))
        ≡ (v, rewind (m.position + n) (appended (le_bytes size v) m)))
      (sym (length-le_bytes size v))
      (get_at (appended (le_bytes size v) m) m.position size v
        (subst (λ n. load (appended (le_bytes size v) m).buffer m.position n ≡ le_bytes size v)
          (length-le_bytes size v) (load-appended (le_bytes size v) m))
        fits (omega (arith, length-le_bytes size v)) (omega arith)))

abbrev with_string : List ℕ → NetworkMessage → NetworkMessage
with_string s m = appended s (appended (le_bytes 2 (length s)) m)

add_string_room :
    (s : List ℕ) (m : NetworkMessage)
    → IsWritten m
    → length s ≤ 8192
    → length s + 2 + m.position < max_body_length
    → add_string s m ≡ with_string s m
unfolding add_string can_add
add_string_room s m w short room =
    let h = length-le_bytes 2 (length s) in
    rw (lt→ltb (length s + 2 + m.position) max_body_length room) (
      rw (lt→ltb_false 8192 (length s) short) (
        rw (add_room 2 (length s) m w (omega arith)) (
          append_bytes_room s (appended (le_bytes 2 (length s)) m) (omega (arith, h))
            (omega (arith, h)))))

get_length :
    (s : List ℕ) (m : NetworkMessage)
    → IsWritten m
    → length s ≤ 8192
    → length s + 2 + m.position < max_body_length
    → get 2 (rewind m.position (with_string s m))
      ≡ (length s, rewind (m.position + 2) (with_string s m))
get_length s m w short room =
    let h = length-le_bytes 2 (length s) in
    get_at (with_string s m) m.position 2 (length s)
      (load-store_below (appended (le_bytes 2 (length s)) m).buffer m.position
          (m.position + length (le_bytes 2 (length s))) 2 s (omega (arith, h))
        ∙ subst
            (λ n.
              load (appended (le_bytes 2 (length s)) m).buffer m.position n ≡ le_bytes 2 (length s))
            h (load-appended (le_bytes 2 (length s)) m))
      (omega arith) (omega (arith, h)) (omega arith)

get_text :
    (s : List ℕ) (m : NetworkMessage)
    → IsWritten m
    → length s + 2 + m.position < max_body_length
    → get_string_body (length s) (rewind (m.position + 2) (with_string s m)) ≡ (s, with_string s m)
unfolding le_bytes
get_text s m w room =
    get_string_body_at (with_string s m) (m.position + 2) s
      (load-appended s (appended (le_bytes 2 (length s)) m)) (omega arith) (omega arith)

-- A string of at most 8192 bytes that was added to a message, with room for it and its length,
-- is what `getString()` reads at the place where it was added.
pub get_string-add_string :
    (s : List ℕ) (m : NetworkMessage)
    → IsWritten m
    → length s ≤ 8192
    → length s + 2 + m.position < max_body_length
    → get_string 0 (rewind m.position (add_string s m)) ≡ (s, add_string s m)
unfolding get_string
get_string-add_string s m w short room =
    rw (add_string_room s m w short room) (rw (get_length s m w short room) (get_text s m w room))

-- The place that was added to a message, with room for its five bytes, is what `getPosition`
-- reads there.
pub get_position-add_position :
    (p : Position) (m : NetworkMessage)
    → IsPosition p
    → IsWritten m
    → 5 + m.position < max_body_length
    → get_position (rewind m.position (add_position p m)) ≡ (p, add_position p m)
unfolding get_position add_position get can_read get_byte add_byte add can_add le_bytes of_le load
    store
get_position-add_position p m hp w room = ground arith
