-- ===== src/Network/Output/Headers.antt =====
-- The headers of a message that is sent.
use baiak_fonticak.Network.Buffer.{load-store, length-load, store, load}
use baiak_fonticak.Network.Message.{max_body_length, NetworkMessage, initial_buffer_position}
use baiak_fonticak.Network.Message.{add_padding_bytes}
use baiak_fonticak.Network.Output.{append, OutputMessage, xtea_encrypt, on_send_message}
use baiak_fonticak.Base.{ℕ, ◌+◌, ◌*◌, ◌/◌, ◌<◌, ◌≡◌, subst, true, false, Option, none, some}
use baiak_fonticak.Base.{arith}
use baiak_fonticak.Network.Message.Writes.{IsWritten}

-- A message that was written by the checked writers and has no header yet.
pub record IsBody (o : OutputMessage) : Type 0 where
  pub written : IsWritten o.message
  pub fresh : o.output_buffer_start ≡ initial_buffer_position

-- Headers and padding: the start of the headers and the length of all that is sent.
abbrev pub Sends : Option OutputMessage → ℕ → ℕ → Type 0
Sends none start size = ⊥
Sends (some o) start size = (o.output_buffer_start ≡ start) × (o.message.length ≡ size)

-- The length after the padding to a multiple of eight.
abbrev pub padded : ℕ → ℕ
padded n = (n + 7) / 8 * 8

-- A body with room for the padding is sent with no assertion failing. Without encryption the two
-- bytes of the length stand before it, from index 6. With it the length and the body are padded
-- to a multiple of eight, and the outer length stands before them, with the checksum between if
-- it is enabled: exactly the eight bytes kept free before the body.
pub on_send_layout :
    (key : ℕ → ℕ) (o : OutputMessage)
    → IsBody o
    → o.message.position + 8 < max_body_length
    → let n = o.message.length in
      Sends (on_send_message false false false key o) 6 (n + 2)
      × Sends (on_send_message false false true key o) 6 (n + 2)
      × Sends (on_send_message false true false key o) 4 (padded (n + 2) + 2)
      × Sends (on_send_message false true true key o) 0 (padded (n + 2) + 6)
unfolding on_send_message xtea_encrypt add_padding_bytes
on_send_layout key o b room = (ground arith, ground arith, ground arith, ground arith)

-- `append` has no test for room. Where the other body fits behind this one, the message stays
-- well written, and the bytes at its old position are those of the other body.
append-IsWritten :
    (msg : NetworkMessage) (o : OutputMessage)
    → IsWritten o.message
    → o.message.position + msg.length < max_body_length
    → IsWritten (append msg o).message
      × (load (append msg o).message.buffer o.message.position msg.length
          ≡ load msg.buffer 8 msg.length)
unfolding append
append-IsWritten msg o w room = (
  omega arith,
  subst
      (λ n.
        load (store o.message.buffer o.message.position (load msg.buffer 8 msg.length))
          o.message.position n
        ≡ load msg.buffer 8 msg.length)
      (length-load msg.buffer 8 msg.length)
      (load-store o.message.buffer o.message.position (load msg.buffer 8 msg.length)),
)
