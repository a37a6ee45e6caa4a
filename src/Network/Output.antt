-- ===== src/Network/Output.antt =====
-- OutputMessage (src/outputmessage.h) and the sending half of Protocol (src/protocol.cpp): the
-- headers are written in front of the body, downwards from `outputBufferStart`.
pub mod Headers
use baiak_fonticak.Base.{ℕ, zero, suc, ◌+◌, ◌-◌, ◌*◌, ◌/◌, ◌%◌, ◌^◌, ◌≤◌, ◌<◌, min, max}
use baiak_fonticak.Base.{bit_and, bit_or, bit_xor, String, ◌≡◌, refl, sym, ap, ap₂, subst}
use baiak_fonticak.Base.{fun_ext, ◌∙◌, ◌≢◌, ◌↔◌, ◌⊎◌, inl, inr, Bool, true, false, not, ◌&&◌}
use baiak_fonticak.Base.{◌||◌, Option, none, some, List, [], ◌∷◌, ◌++◌, map, append-nil}
use baiak_fonticak.Base.{append_assoc, arith, str_eq, length, is_empty, get_elem?, set}
use baiak_fonticak.Base.{get_or, take, drop, length-append, take_prefix, drop_prefix}
use baiak_fonticak.Base.{take-append-drop, length-take-le, length-drop-le, length-set, All}
use baiak_fonticak.Base.{contains, erase_first, count, IsDistinct, count-append}
use baiak_fonticak.Base.{contains-iff-count, count-erase_first, length-erase_first-le, ltb}
use baiak_fonticak.Base.{leb, ◌==◌, ◌!=◌, if◌then◌else◌, ltb→lt, lt→ltb, leb→le, le→leb}
use baiak_fonticak.Base.{lt→leb_false, lt→ltb_false, ==_iff, ==_self, tests, Bool-cases}
use baiak_fonticak.Base.{Option-cases}
use baiak_fonticak.Base.Words.{u16, le_bytes}
use baiak_fonticak.Network.Buffer.{store, load}
use baiak_fonticak.Network.Message.{NetworkMessage, initial_buffer_position}
use baiak_fonticak.Network.Message.{add_padding_bytes, max_protocol_body_length}
use baiak_fonticak.Network.Adler.{adler_checksum}
use baiak_fonticak.Network.Xtea.{encrypt}

pub record OutputMessage : Type 0 where
  pub message : NetworkMessage
  pub output_buffer_start : ℕ

-- add_header<T>(add): `none` is the failed assertion.
unfoldable pub add_header : ℕ → ℕ → OutputMessage → Option OutputMessage
add_header size v o =
    let m = o.message in
    let start = o.output_buffer_start - size in
    if ltb o.output_buffer_start size
    then none
    else some (record {
      message = record m {
        buffer = store m.buffer start (le_bytes size v);
        length = u16 (m.length + size);
      };
      output_buffer_start = start;
    })

unfoldable pub write_message_length : OutputMessage → Option OutputMessage
unfolding add_header
write_message_length o = add_header 2 o.message.length o

infixl 5 ◌>>=◌
abbrev pub ◌>>=◌ :
    Option OutputMessage → (OutputMessage → Option OutputMessage) → Option OutputMessage
none >>= f = none
some o >>= f = f o

unfoldable pub add_crypto_header : Bool → OutputMessage → Option OutputMessage
unfolding add_header write_message_length
add_crypto_header add_checksum o =
    (if add_checksum
      then add_header 4
          (adler_checksum (load o.message.buffer o.output_buffer_start o.message.length)) o
      else some o)
    >>= write_message_length

-- append(msg): the body of another message behind this one; there is no test for room.
unfoldable pub append : NetworkMessage → OutputMessage → OutputMessage
append msg o =
    let m = o.message in
    record o {
      message = record m {
        buffer = store m.buffer m.position (load msg.buffer 8 msg.length);
        length = u16 (m.length + msg.length);
        position = u16 (m.position + msg.length);
      };
    }

-- XTEA_encrypt(msg, key)
unfoldable pub xtea_encrypt : (ℕ → ℕ) → OutputMessage → OutputMessage
xtea_encrypt key o =
    let padding_bytes = o.message.length % 8 in
    let m =
      if padding_bytes != 0 then add_padding_bytes (8 - padding_bytes) o.message else o.message in
    record o {
      message = record m {
        buffer =
            store m.buffer o.output_buffer_start
              (encrypt (load m.buffer o.output_buffer_start m.length) key);
      };
    }

-- Protocol::onSendMessage, over the protocol's three flags.
unfoldable pub on_send_message : Bool → Bool → Bool → (ℕ → ℕ) → OutputMessage → Option OutputMessage
unfolding write_message_length add_crypto_header
on_send_message raw_messages encryption_enabled checksum_enabled key o =
    if raw_messages
    then some o
    else write_message_length o >>= λ sized.
        if encryption_enabled
        then add_crypto_header checksum_enabled (xtea_encrypt key sized)
        else some sized

-- Protocol::getOutputBuffer: what is sent, and the buffer to write to.
unfoldable pub get_output_buffer :
    Option OutputMessage → ℕ → OutputMessage → Option OutputMessage × OutputMessage
get_output_buffer none size fresh = (none, fresh)
get_output_buffer (some o) size fresh =
    if ltb max_protocol_body_length (o.message.length + size) then (some o, fresh) else (none, o)
