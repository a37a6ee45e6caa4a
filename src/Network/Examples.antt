-- ===== src/Network/Examples.antt =====
-- Concrete messages, buffers and strings, and the theorems of the network modules at them.
use baiak_fonticak.Base.{ℕ, ◌+◌, ◌*◌, ◌≡◌, refl, true, false, some, List, [], ◌∷◌, ◌++◌}
use baiak_fonticak.Base.{arith, get_or, take, drop, ltb, if◌then◌else◌}
use baiak_fonticak.World.Position.{Position}
use baiak_fonticak.Network.Message.{NetworkMessage, network_message_max_size}
use baiak_fonticak.Network.Message.Writes.{IsWritten, Extends, byte, text, place, write_all}
use baiak_fonticak.Network.Message.Writes.{write_all_in_bounds}
use baiak_fonticak.Network.Message.RoundTrip.{rewind}
use baiak_fonticak.Network.Message.ReadBack.{IsReadable, size_of, sort_of, get_entry}
use baiak_fonticak.Network.Message.ReadBack.{add_entry, string, string_of}
use baiak_fonticak.Network.Message.ReadBack.{get_entry-add_entry}
use baiak_fonticak.Network.Adler.{adler_checksum}
use baiak_fonticak.Network.Adler.Reference.{checksum-reference, reference_checksum}
use baiak_fonticak.Network.Xtea.{encrypt, decrypt, expand_key, expand_loop}
use baiak_fonticak.Network.Xtea.Inverse.{decrypt-encrypt}
use baiak_fonticak.Network.PropStream.{read_string, write_string}
use baiak_fonticak.Network.PropStream.RoundTrip.{read_string-write_string}
use baiak_fonticak.Network.Output.{OutputMessage, on_send_message}
use baiak_fonticak.Network.Output.Headers.{Sends, padded, on_send_layout}

abbrev empty_message : NetworkMessage
empty_message = record { length = 0; position = 8; overrun = false; buffer = λ i. 0 }

abbrev temple : Position
temple = record { x = 1000; y = 2000; z = 7 }

write_all_in_bounds_example :
    IsWritten (write_all (byte 10 ∷ text (1 ∷ 2 ∷ []) ∷ place temple ∷ []) empty_message)
    × Extends empty_message
        (write_all (byte 10 ∷ text (1 ∷ 2 ∷ []) ∷ place temple ∷ []) empty_message)
write_all_in_bounds_example =
    write_all_in_bounds (byte 10 ∷ text (1 ∷ 2 ∷ []) ∷ place temple ∷ []) empty_message
      (omega arith)

get_entry-add_entry_example :
    get_entry string_of (rewind 8 (add_entry (string (104 ∷ 105 ∷ [])) empty_message))
    ≡ (string (104 ∷ 105 ∷ []), add_entry (string (104 ∷ 105 ∷ [])) empty_message)
unfolding IsReadable size_of sort_of
get_entry-add_entry_example =
    get_entry-add_entry (string (104 ∷ 105 ∷ [])) empty_message (omega arith) (omega arith)
      (omega arith)

checksum-reference_example :
    adler_checksum (87 ∷ 105 ∷ 107 ∷ 105 ∷ [])
    ≡ (if ltb network_message_max_size 4 then 0 else reference_checksum (87 ∷ 105 ∷ 107 ∷ 105 ∷ []))
checksum-reference_example = checksum-reference (87 ∷ 105 ∷ 107 ∷ 105 ∷ []) (omega arith)

abbrev sample_key : ℕ → ℕ
sample_key i = get_or (1 ∷ 2 ∷ 3 ∷ 4 ∷ []) i 0

abbrev schedule : ℕ → ℕ
schedule i = i * 7919

abbrev one_block : List ℕ
one_block = 1 ∷ 2 ∷ 3 ∷ 4 ∷ 5 ∷ 6 ∷ 7 ∷ 255 ∷ []

decrypt-encrypt_example : decrypt (encrypt one_block schedule) schedule ≡ one_block
decrypt-encrypt_example =
    decrypt-encrypt schedule 1 one_block (record { sized = omega arith; byte = omega arith })

-- The first two round keys of the key 1, 2, 3, 4.
expand_key_runs : take 2 (expand_key sample_key) ≡ 1 ∷ 0x9E3779BD ∷ []
unfolding expand_key expand_loop
expand_key_runs = refl

read_string-write_string_example :
    read_string (drop 1 (write_string (104 ∷ 105 ∷ []) (9 ∷ []) ++ 5 ∷ []))
    ≡ (some (if ltb 65535 2 then [] else 104 ∷ 105 ∷ []), 5 ∷ [])
read_string-write_string_example = read_string-write_string (104 ∷ 105 ∷ []) (9 ∷ []) (5 ∷ [])

abbrev outgoing : OutputMessage
outgoing = record {
  message = record { length = 3; position = 11; overrun = false; buffer = λ i. 7 };
  output_buffer_start = 8;
}

on_send_layout_example :
    Sends (on_send_message false false false schedule outgoing) 6 5
    × Sends (on_send_message false false true schedule outgoing) 6 5
    × Sends (on_send_message false true false schedule outgoing) 4 (padded 5 + 2)
    × Sends (on_send_message false true true schedule outgoing) 0 (padded 5 + 6)
on_send_layout_example = on_send_layout schedule outgoing (omega arith) (omega arith)
