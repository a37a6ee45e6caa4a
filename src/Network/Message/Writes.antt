-- ===== src/Network/Message/Writes.antt =====
-- What the writers of a message keep: the position stands eight bytes above the length, and no
-- byte is stored below the position or above the body.
use baiak_fonticak.Base.{[], ltb, ◌∷◌, ℕ, ◌+◌, ◌≤◌, ◌<◌, ◌≡◌, refl, ◌∙◌, arith, inl, inr}
use baiak_fonticak.Base.{List, length, Bool-cases}
use baiak_fonticak.Network.Message.{reset, add_string, add_position, add_bytes, add_byte}
use baiak_fonticak.Network.Message.{NetworkMessage, can_add, append_bytes, add}
use baiak_fonticak.Network.Message.{max_body_length}
use baiak_fonticak.World.Position.{Position}
use baiak_fonticak.Base.Words.{le_bytes, length-le_bytes}
use baiak_fonticak.Network.Buffer.{store_below, store_above}

pub record IsWritten (m : NetworkMessage) : Type 0 where
  pub aligned : m.position ≡ m.length + 8
  pub within : m.position < max_body_length

-- `n` was written after `m`: only bytes of the body at or above the position of `m` differ.
pub record Extends (m n : NetworkMessage) : Type 0 where
  pub grows : m.position ≤ n.position
  pub keeps_below : (i : ℕ) → i < m.position → n.buffer i ≡ m.buffer i
  pub keeps_above : (i : ℕ) → max_body_length ≤ i → n.buffer i ≡ m.buffer i

Extends-refl : (m : NetworkMessage) → Extends m m
Extends-refl m = record {
  grows = omega arith;
  keeps_below = λ i h. refl;
  keeps_above = λ i h. refl;
}

Extends-trans : {m n o : NetworkMessage} → Extends m n → Extends n o → Extends m o
Extends-trans e f = record {
  grows = omega (arith, e.grows, f.grows);
  keeps_below = λ i h. f.keeps_below i (omega (arith, e.grows)) ∙ e.keeps_below i h;
  keeps_above = λ i h. f.keeps_above i h ∙ e.keeps_above i h;
}

append_bytes-IsWritten :
    (bs : List ℕ) (m : NetworkMessage)
    → IsWritten m
    → m.position + length bs < max_body_length
    → IsWritten (append_bytes bs m)
append_bytes-IsWritten bs m w h = omega arith

append_bytes-Extends :
    (bs : List ℕ) (m : NetworkMessage)
    → m.position + length bs < max_body_length
    → Extends m (append_bytes bs m)
append_bytes-Extends bs m h = record {
  grows = omega arith;
  keeps_below = λ i below. store_below m.buffer m.position i bs below;
  keeps_above = λ i above. store_above m.buffer m.position i bs (omega arith);
}

abbrev Good : NetworkMessage → NetworkMessage → Type 0
Good m n = IsWritten n × Extends m n

append_bytes-Good :
    (bs : List ℕ) (m : NetworkMessage)
    → IsWritten m
    → m.position + length bs < max_body_length
    → Good m (append_bytes bs m)
append_bytes-Good bs m w h = (append_bytes-IsWritten bs m w h, append_bytes-Extends bs m h)

pub add-Good : (size v : ℕ) (m : NetworkMessage) → IsWritten m → Good m (add size v m)
unfolding add
add-Good size v m w = elim (Bool-cases (can_add size m)) [
  | inl fits ↦
      rw (fits, add)
        (append_bytes-Good (le_bytes size v) m w
          (unfold can_add in ground (arith, length-le_bytes size v)))
  | inr full ↦ rw (full, add) (w, Extends-refl m)
]

add_byte-Good : (v : ℕ) (m : NetworkMessage) → IsWritten m → Good m (add_byte v m)
unfolding add_byte add
add_byte-Good v m w = add-Good 1 v m w

append_add-Good :
    (s : List ℕ) (m : NetworkMessage)
    → IsWritten m
    → length s + 2 + m.position < max_body_length
    → Good m (append_bytes s (add 2 (length s) m))
append_add-Good s m w h =
    let first = add-Good 2 (length s) m w in
    let placed : (add 2 (length s) m).position ≡ m.position + 2 =
      unfold add can_add le_bytes in ground arith in
    let second = append_bytes-Good s (add 2 (length s) m) first.0 (omega (arith, placed)) in
    (second.0, Extends-trans first.1 second.1)

add_string-Good : (s : List ℕ) (m : NetworkMessage) → IsWritten m → Good m (add_string s m)
unfolding add_string
add_string-Good s m w = elim (Bool-cases (can_add (length s + 2) m)) [
  | inl fits ↦ elim (Bool-cases (ltb 8192 (length s))) [
    | inl long ↦ rw (fits, long) (w, Extends-refl m)
    | inr short ↦ rw (fits, short) (append_add-Good s m w (unfold can_add in ground arith))
  ]
  | inr full ↦ rw full (w, Extends-refl m)
]

add_bytes-Good : (bs : List ℕ) (m : NetworkMessage) → IsWritten m → Good m (add_bytes bs m)
unfolding add_bytes
add_bytes-Good bs m w = elim (Bool-cases (can_add (length bs) m)) [
  | inl fits ↦ elim (Bool-cases (ltb 8192 (length bs))) [
    | inl long ↦ rw (fits, long) (w, Extends-refl m)
    | inr short ↦ rw (fits, short) (append_bytes-Good bs m w (unfold can_add in ground arith))
  ]
  | inr full ↦ rw full (w, Extends-refl m)
]

add_position-Good : (p : Position) (m : NetworkMessage) → IsWritten m → Good m (add_position p m)
unfolding add_position
add_position-Good p m w =
    let a = add-Good 2 p.x m w in
    let b = add-Good 2 p.y (add 2 p.x m) a.0 in
    let c = add_byte-Good p.z (add 2 p.y (add 2 p.x m)) b.0 in
    (c.0, Extends-trans a.1 (Extends-trans b.1 c.1))

-- A call of one of the writers.
pub data Write : Type 0 where
  byte : ℕ → Write
  num : ℕ → ℕ → Write
  text : List ℕ → Write
  raw : List ℕ → Write
  place : Position → Write

pub write : Write → NetworkMessage → NetworkMessage
write (byte v) m = add_byte v m
write (num size v) m = add size v m
write (text s) m = add_string s m
write (raw bs) m = add_bytes bs m
write (place p) m = add_position p m

pub write_all : List Write → NetworkMessage → NetworkMessage
write_all [] m = m
write_all (w ∷ ws) m = write_all ws (write w m)

write-Good : (w : Write) (m : NetworkMessage) → IsWritten m → Good m (write w m)
unfolding write
write-Good (byte v) m h = add_byte-Good v m h
write-Good (num size v) m h = add-Good size v m h
write-Good (text s) m h = add_string-Good s m h
write-Good (raw bs) m h = add_bytes-Good bs m h
write-Good (place p) m h = add_position-Good p m h

-- Any sequence of addByte, add, addString, addBytes and addPosition, of whatever sizes, on a
-- message whose position is eight above its length and below MAX_BODY_LENGTH, keeps it so, never
-- moves the position back, and changes no byte below the position where it began nor at or above
-- MAX_BODY_LENGTH. addPaddingBytes, which moves the length alone, is not among them.
pub write_all_in_bounds :
    (ws : List Write) (m : NetworkMessage)
    → IsWritten m
    → IsWritten (write_all ws m) × Extends m (write_all ws m)
unfolding write_all
write_all_in_bounds [] m h = (h, Extends-refl m)
write_all_in_bounds (w ∷ ws) m h =
    let first = write-Good w m h in
    let rest = write_all_in_bounds ws (write w m) first.0 in (rest.0, Extends-trans first.1 rest.1)

-- A message that was reset may be written.
pub reset-IsWritten : (m : NetworkMessage) → IsWritten (reset m)
unfolding reset
reset-IsWritten m = omega arith
