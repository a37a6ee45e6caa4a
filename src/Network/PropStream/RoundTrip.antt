-- ===== src/Network/PropStream/RoundTrip.antt =====
-- What a PropWriteStream wrote, a PropStream reads.
use baiak_fonticak.Base.{ℕ, ◌%◌, ◌^◌, ◌<◌, ◌≡◌, sym, ap, ap₂, ◌∙◌, inl, inr, false, some}
use baiak_fonticak.Base.{List, [], ◌++◌, append_assoc, arith, length, take, drop}
use baiak_fonticak.Base.{length-append, take_prefix, drop_prefix, ltb, if◌then◌else◌}
use baiak_fonticak.Base.{lt→ltb_false, Bool-cases}
use baiak_fonticak.Base.Words.{le_bytes, of_le, length-le_bytes, of_le-le_bytes}
use baiak_fonticak.Network.PropStream.{read, read_string, read_string_body, write}
use baiak_fonticak.Network.PropStream.{write_string}

-- The number that the bytes of `v` give, and the rest.
pub read_bytes :
    (size v : ℕ) (rest : List ℕ)
    → v < 256 ^ size
    → read size (le_bytes size v ++ rest) ≡ (some v, rest)
unfolding read
read_bytes size v rest h =
    let n = length-le_bytes size v in
    let enough : ltb (length (le_bytes size v ++ rest)) size ≡ false =
      lt→ltb_false _ size (omega (arith, length-append (le_bytes size v) rest)) in
    rw enough (
      ap₂ (λ (a : List ℕ) b. (some (of_le a), b))
        (ap (λ k. take k (le_bytes size v ++ rest)) (sym n) ∙ take_prefix (le_bytes size v) rest)
        (ap (λ k. drop k (le_bytes size v ++ rest)) (sym n) ∙ drop_prefix (le_bytes size v) rest)
      ∙ ap (λ (a : ℕ). (some a, rest)) (of_le-le_bytes size v h))

after : (buffer xs : List ℕ) → drop (length buffer) (buffer ++ xs) ≡ xs
after buffer xs = drop_prefix buffer xs

-- A number of `size` bytes that was written after any buffer and before any rest is read back,
-- with the reader at the rest.
pub read-write :
    (size v : ℕ) (buffer rest : List ℕ)
    → v < 256 ^ size
    → read size (drop (length buffer) (write size v buffer ++ rest)) ≡ (some v, rest)
unfolding write
read-write size v buffer rest h =
    ap (λ xs. read size (drop (length buffer) xs)) (append_assoc buffer (le_bytes size v) rest)
    ∙ ap (read size) (after buffer (le_bytes size v ++ rest))
    ∙ read_bytes size v rest h

body_bytes :
    (str rest : List ℕ) → read_string_body (some (length str), str ++ rest) ≡ (some str, rest)
unfolding read_string_body
body_bytes str rest =
    let enough : ltb (length (str ++ rest)) (length str) ≡ false =
      lt→ltb_false _ (length str) (omega (arith, length-append str rest)) in
    rw enough
      (ap₂ (λ (a : List ℕ) (b : List ℕ). (some a, b)) (take_prefix str rest) (drop_prefix str rest))

-- A string that was written after any buffer and before any rest is read back whole, with the
-- reader at the rest, if it has at most 65535 bytes; a longer one is read back as the empty string.
pub read_string-write_string :
    (str buffer rest : List ℕ)
    → read_string (drop (length buffer) (write_string str buffer ++ rest))
      ≡ (some (if ltb 65535 (length str) then [] else str), rest)
read_string-write_string str buffer rest = elim (Bool-cases (ltb 65535 (length str))) [
  | inl long ↦
      unfold read_string write_string in
      rw long (ap read_string_body (read-write 2 0 buffer rest (omega arith)) ∙ body_bytes [] rest)
  | inr short ↦
      let size : length str % 2 ^ 16 ≡ length str = ground arith in
      unfold read_string write_string in
      rw (short, size)
        (ap (λ xs. read_string_body (read 2 (drop (length buffer) xs)))
            (append_assoc (write 2 (length str) buffer) str rest)
          ∙ ap read_string_body (read-write 2 (length str) buffer (str ++ rest) (ground arith))
          ∙ body_bytes str rest)
]
