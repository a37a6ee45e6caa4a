-- ===== src/Network/Adler/Reference.antt =====
-- The checksum against the definition of Adler-32: both sums reduced after each byte.
use baiak_fonticak.Base.Words.{mul_mono, add_u32, u32}
use baiak_fonticak.Base.{ℕ, zero, suc, ◌+◌, ◌*◌, ◌%◌, ◌^◌, ◌≤◌, ◌<◌, bit_or, ◌≡◌, refl, sym}
use baiak_fonticak.Base.{ap, ap₂, ◌∙◌, List, [], ◌∷◌, ◌++◌, arith, length, take, drop}
use baiak_fonticak.Base.{take-append-drop, length-take-le, length-drop-le, All, ltb}
use baiak_fonticak.Base.{if◌then◌else◌}
use baiak_fonticak.Network.Message.{network_message_max_size}
use baiak_fonticak.Network.Adler.{adler, block_size, adler_block, adler_loop, adler_checksum}

abbrev pub IsByte : ℕ → Type 0
IsByte b = b < 256

-- The definition: a = 1 + the sum of the bytes, b = the sum of the values of a, both modulo 65521.
pub reference : List ℕ → ℕ → ℕ → ℕ × ℕ
reference [] a b = (a, b)
reference (byte ∷ bytes) a b =
    reference bytes ((a + byte) % adler) ((b + (a + byte) % adler) % adler)

pub reference_checksum : List ℕ → ℕ
reference_checksum bytes = let (a, b) = reference bytes 1 0 in bit_or (b * 2 ^ 16) a

-- Neither sum can wrap within the block that is left.
record IsSmall (n a b : ℕ) : Type 0 where
  sum_fits : a + 255 * n < 2 ^ 32
  total_fits : 2 * b + 2 * (n * a) + 255 * (n * (n + 1)) < 2 ^ 33

IsSmall-step : (n a b d : ℕ) → d < 256 → IsSmall (suc n) a b → IsSmall n (a + d) (b + (a + d))
IsSmall-step n a b d h s =
    let scaled : n * d ≤ n * 255 = mul_mono n d 255 (omega arith) in
    record {
      sum_fits = omega (arith, s.sum_fits);
      total_fits = omega (arith, scaled, s.total_fits);
    }

abbrev reduce : ℕ × ℕ → ℕ × ℕ
reduce p = (p.0 % adler, p.1 % adler)

mod_sum : (a d : ℕ) → (a % adler + d) % adler ≡ (a + d) % adler
mod_sum a d = omega arith

mod_total : (a b d : ℕ) → (b % adler + (a + d) % adler) % adler ≡ (b + (a + d)) % adler
mod_total a b d = omega arith

-- A block whose sums do not wrap, reduced at its end, is the reference from the reduced start.
block-reference :
    (bytes : List ℕ) (a b : ℕ)
    → All IsByte bytes
    → IsSmall (length bytes) a b
    → reduce (adler_block bytes a b) ≡ reference bytes (a % adler) (b % adler)
unfolding adler_block reference
block-reference [] a b hb s = refl
block-reference (d ∷ bytes) a b hb s =
    let next = IsSmall-step (length bytes) a b d hb.0 s in
    let ea : add_u32 a d ≡ a + d = omega (arith, s.sum_fits) in
    let eb : add_u32 b (a + d) ≡ b + (a + d) = omega (arith, next.total_fits) in
    ap₂ (λ s t. reduce (adler_block bytes s t)) ea (ap (add_u32 b) ea ∙ eb)
    ∙ block-reference bytes (a + d) (b + (a + d)) hb.1 next
    ∙ ap₂ (reference bytes) (sym (mod_sum a d))
        (sym (ap (λ t. (b % adler + t) % adler) (mod_sum a d) ∙ mod_total a b d))

IsSmall-block : (n a b : ℕ) → n ≤ block_size → a < adler → b < adler → IsSmall n a b
IsSmall-block n a b hn ha hb =
    let p : n * a ≤ n * adler = mul_mono n a adler (omega arith) in
    let q : n * (n + 1) ≤ n * (block_size + 1) =
      mul_mono n (n + 1) (block_size + 1) (omega arith) in
    record { sum_fits = omega arith; total_fits = omega (arith, p, q) }

reference-append :
    (xs ys : List ℕ) (a b : ℕ)
    → reference (xs ++ ys) a b ≡ (let (a', b') = reference xs a b in reference ys a' b')
unfolding reference
reference-append [] ys a b = refl
reference-append (x ∷ xs) ys a b =
    reference-append xs ys ((a + x) % adler) ((b + (a + x) % adler) % adler)

reference-lt :
    (xs : List ℕ) (a b : ℕ)
    → a < adler
    → b < adler
    → ((reference xs a b).0 < adler) × ((reference xs a b).1 < adler)
unfolding reference
reference-lt [] a b ha hb = (ha, hb)
reference-lt (x ∷ xs) a b ha hb = reference-lt xs _ _ (omega arith) (omega arith)

All-take : (n : ℕ) (xs : List ℕ) → All IsByte xs → All IsByte (take n xs)
All-take zero xs h = tt
All-take (suc n) [] h = tt
All-take (suc n) (x ∷ xs) h = (h.0, All-take n xs h.1)

All-drop : (n : ℕ) (xs : List ℕ) → All IsByte xs → All IsByte (drop n xs)
All-drop zero xs h = h
All-drop (suc n) [] h = tt
All-drop (suc n) (x ∷ xs) h = All-drop n xs h.1

-- Enough fuel for the bytes gives the reference's pair.
loop-reference :
    (fuel : ℕ) (bytes : List ℕ) (a b : ℕ)
    → length bytes ≤ fuel
    → All IsByte bytes
    → a < adler
    → b < adler
    → adler_loop fuel bytes a b ≡ reference bytes a b
unfolding adler_loop
loop-reference zero [] a b h hx ha hb = unfold reference in refl
loop-reference zero (x ∷ bytes) a b h hx ha hb = absurd (omega arith)
loop-reference (suc fuel) [] a b h hx ha hb = unfold reference in refl
loop-reference (suc fuel) (x ∷ bytes) a b h hx ha hb =
    let blk = take block_size (x ∷ bytes) in
    let rest = drop block_size (x ∷ bytes) in
    let ea : a % adler ≡ a = omega arith in
    let eb : b % adler ≡ b = omega arith in
    let small = IsSmall-block (length blk) a b (length-take-le block_size (x ∷ bytes)) ha hb in
    let e : reduce (adler_block blk a b) ≡ reference blk a b =
      block-reference blk a b (All-take block_size (x ∷ bytes) hx) small
      ∙ ap₂ (reference blk) ea eb in
    let bounds = reference-lt blk a b ha hb in
    ap (λ (t : ℕ × ℕ). adler_loop fuel rest t.0 t.1) e
    ∙ loop-reference fuel rest (reference blk a b).0 (reference blk a b).1
        (omega (arith, length-drop-le 5551 bytes)) (All-drop block_size (x ∷ bytes) hx) bounds.0
        bounds.1
    ∙ sym (reference-append blk rest a b)
    ∙ ap (λ xs. reference xs a b) (take-append-drop block_size (x ∷ bytes))

-- For at most NETWORKMESSAGE_MAXSIZE bytes the checksum is the Adler-32 of the bytes: reducing
-- once for each 5552 bytes loses nothing, as neither 32-bit sum wraps within a block. For more
-- bytes it is 0.
pub checksum-reference :
    (bytes : List ℕ)
    → All IsByte bytes
    → adler_checksum bytes
      ≡ (if ltb network_message_max_size (length bytes) then 0 else reference_checksum bytes)
unfolding adler_checksum reference_checksum
checksum-reference bytes h =
    let same =
      loop-reference (length bytes) bytes 1 0 (omega arith) h (omega arith) (omega arith) in
    let small = reference-lt bytes 1 0 (omega arith) (omega arith) in
    let shift : u32 ((reference bytes 1 0).1 * 2 ^ 16) ≡ (reference bytes 1 0).1 * 2 ^ 16 =
      omega (arith, small.1) in
    ap (λ t. if ltb network_message_max_size (length bytes) then 0 else t)
      (ap (λ (t : ℕ × ℕ). bit_or (u32 (t.1 * 2 ^ 16)) t.0) same
        ∙ ap (λ t. bit_or t (reference bytes 1 0).0) shift)
