-- ===== src/Network/Xtea/Inverse.antt =====
-- Decryption undoes encryption.
use baiak_fonticak.Network.Xtea.{store_words, apply_blocks, apply_rounds, feistel}
use baiak_fonticak.Network.Xtea.{encrypt_round, decrypt_round, encrypt_loop, decrypt_loop}
use baiak_fonticak.Network.Xtea.{encrypt, decrypt}
use baiak_fonticak.Base.{ℕ, zero, suc, ◌+◌, ◌-◌, ◌*◌, ◌/◌, ◌%◌, ◌^◌, ◌<◌, ◌≡◌, refl, sym, ap}
use baiak_fonticak.Base.{ap₂, subst, ◌∙◌, List, [], ◌∷◌, ◌++◌, arith, length, All}
use baiak_fonticak.Base.Words.{add_u32, sub_u32-add_u32, le_bytes, of_le, of_le-le_bytes}

-- One round of decryption undoes the round of encryption with the same two keys.
decrypt_round-encrypt_round :
    (k : ℕ → ℕ) (i l r : ℕ)
    → l < 2 ^ 32
    → r < 2 ^ 32
    → (let (l', r') = encrypt_round k i l r in decrypt_round k (i + 1) l' r') ≡ (l, r)
unfolding encrypt_round decrypt_round
decrypt_round-encrypt_round k i l r hl hr =
    let e : i + 1 - 1 ≡ i = omega arith in
    let l' = add_u32 l (feistel r (k i)) in
    rw (sub_u32-add_u32 r (feistel l' (k (i + 1))) hr, e, sub_u32-add_u32 l (feistel r (k i)) hl)

-- A buffer of `n` blocks of bytes.
pub record IsBlocks (n : ℕ) (bytes : List ℕ) : Type 0 where
  pub sized : length bytes ≡ 8 * n
  pub byte : All (λ b. b < 256) bytes

le_bytes-byte : (n v : ℕ) → All (λ b. b < 256) (le_bytes n v)
unfolding le_bytes
le_bytes-byte zero v = tt
le_bytes-byte (suc n) v = (omega arith, le_bytes-byte n (v / 256))

le_bytes-of_le : (bs : List ℕ) → All (λ b. b < 256) bs → le_bytes (length bs) (of_le bs) ≡ bs
unfolding le_bytes of_le
le_bytes-of_le [] h = refl
le_bytes-of_le (b ∷ bs) h =
    let e : (b + 256 * of_le bs) % 256 ≡ b = omega (arith, h.0) in
    let f : (b + 256 * of_le bs) / 256 ≡ of_le bs = omega (arith, h.0) in
    ap₂ ◌∷◌ e (ap (le_bytes (length bs)) f ∙ le_bytes-of_le bs h.1)

word_bytes : (v : ℕ) → v < 2 ^ 32 → of_le (le_bytes 4 v) ≡ v
word_bytes v h = of_le-le_bytes 4 v h

-- What one pass of rounds does to a buffer: words in, words out.
record IsRound (f : ℕ → ℕ → ℕ × ℕ) : Type 0 where
  left_fits : (l r : ℕ) → (f l r).0 < 2 ^ 32
  right_fits : (l r : ℕ) → (f l r).1 < 2 ^ 32

encrypt_round-IsRound : (k : ℕ → ℕ) (i : ℕ) → IsRound (encrypt_round k i)
unfolding encrypt_round
encrypt_round-IsRound k i = record {
  left_fits = λ l r. omega arith;
  right_fits = λ l r. omega arith;
}

of_le-lt :
    (a b c d : ℕ) → All (λ b. b < 256) (a ∷ b ∷ c ∷ d ∷ []) → of_le (a ∷ b ∷ c ∷ d ∷ []) < 2 ^ 32
unfolding of_le
of_le-lt a b c d h = omega (arith, h)

apply_blocks-IsBlocks :
    (f : ℕ → ℕ → ℕ × ℕ) (n : ℕ) (bytes : List ℕ)
    → IsBlocks n bytes
    → IsBlocks n (apply_blocks f n bytes)
unfolding apply_blocks le_bytes store_words
apply_blocks-IsBlocks f zero bytes h = h
apply_blocks-IsBlocks f (suc n) (a ∷ b ∷ c ∷ d ∷ e ∷ g ∷ i ∷ j ∷ rest) h =
    let ih =
      apply_blocks-IsBlocks f n rest
        (record { sized = omega (arith, h.sized); byte = h.byte.1.1.1.1.1.1.1.1 }) in
    record {
      sized = omega (arith, ih.sized);
      byte = (
        omega arith,
        (
          omega arith,
          (
            omega arith,
            (omega arith, (omega arith, (omega arith, (omega arith, (omega arith, ih.byte))))),
          ),
        ),
      );
    }
apply_blocks-IsBlocks f (suc n) bytes h = absurd (omega (arith, h.sized))

blocks-store_words :
    (g : ℕ → ℕ → ℕ × ℕ) (n : ℕ) (w : ℕ × ℕ) (rest : List ℕ)
    → w.0 < 2 ^ 32
    → w.1 < 2 ^ 32
    → apply_blocks g (suc n) (store_words w rest) ≡ store_words (g w.0 w.1) (apply_blocks g n rest)
unfolding apply_blocks store_words le_bytes
blocks-store_words g n (l, r) rest hl hr =
    ap₂ (λ x y. store_words (g x y) (apply_blocks g n rest)) (word_bytes l hl) (word_bytes r hr)

store_words-of_le :
    (a b c d e m i j : ℕ) (rest : List ℕ)
    → All (λ b. b < 256) (a ∷ b ∷ c ∷ d ∷ [])
    → All (λ b. b < 256) (e ∷ m ∷ i ∷ j ∷ [])
    → store_words (of_le (a ∷ b ∷ c ∷ d ∷ []), of_le (e ∷ m ∷ i ∷ j ∷ [])) rest
      ≡ a ∷ b ∷ c ∷ d ∷ e ∷ m ∷ i ∷ j ∷ rest
unfolding store_words
store_words-of_le a b c d e m i j rest h k =
    ap₂ (λ xs ys. xs ++ (ys ++ rest)) (le_bytes-of_le (a ∷ b ∷ c ∷ d ∷ []) h)
      (le_bytes-of_le (e ∷ m ∷ i ∷ j ∷ []) k)

module _ (f g : ℕ → ℕ → ℕ × ℕ) (fits : IsRound f)
    (undoes : (l r : ℕ) → l < 2 ^ 32 → r < 2 ^ 32 → g (f l r).0 (f l r).1 ≡ (l, r)) where
  blocks_inverse :
      (n : ℕ) (bytes : List ℕ)
      → IsBlocks n bytes
      → apply_blocks g n (apply_blocks f n bytes) ≡ bytes
  unfolding apply_blocks
  blocks_inverse zero bytes h = refl
  blocks_inverse (suc n) (a ∷ b ∷ c ∷ d ∷ e ∷ m ∷ i ∷ j ∷ rest) h =
      let l = of_le (a ∷ b ∷ c ∷ d ∷ []) in
      let r = of_le (e ∷ m ∷ i ∷ j ∷ []) in
      let hb = h.byte in
      let low : All (λ b. b < 256) (a ∷ b ∷ c ∷ d ∷ []) = omega (arith, hb) in
      let high : All (λ b. b < 256) (e ∷ m ∷ i ∷ j ∷ []) = omega (arith, hb) in
      let ih =
        blocks_inverse n rest
          (record { sized = omega (arith, h.sized); byte = h.byte.1.1.1.1.1.1.1.1 }) in
      blocks-store_words g n (f l r) (apply_blocks f n rest) (fits.left_fits l r)
        (fits.right_fits l r)
      ∙ ap₂ store_words (undoes l r (of_le-lt a b c d low) (of_le-lt e m i j high)) ih
      ∙ store_words-of_le a b c d e m i j rest low high
  blocks_inverse (suc n) bytes h = absurd (omega (arith, h.sized))

apply_rounds-blocks :
    (f : ℕ → ℕ → ℕ × ℕ) (n : ℕ) (bytes : List ℕ)
    → IsBlocks n bytes
    → apply_rounds f bytes ≡ apply_blocks f n bytes
unfolding apply_rounds
apply_rounds-blocks f n bytes h =
    let e : (length bytes + 7) / 8 ≡ n = omega (arith, h.sized) in
    ap (λ k. apply_blocks f k bytes) e

-- Decryption at `i + 1` undoes the pass of encryption at `i`.
pass_inverse :
    (k : ℕ → ℕ) (i n : ℕ) (bytes : List ℕ)
    → IsBlocks n bytes
    → (IsBlocks n (apply_rounds (encrypt_round k i) bytes))
      × (apply_rounds (decrypt_round k (i + 1)) (apply_rounds (encrypt_round k i) bytes) ≡ bytes)
pass_inverse k i n bytes h =
    let f = encrypt_round k i in
    let g = decrypt_round k (i + 1) in
    let e = apply_rounds-blocks f n bytes h in
    let good = apply_blocks-IsBlocks f n bytes h in
    (
      subst (IsBlocks n) (sym e) good,
      ap (apply_rounds g) e
          ∙ apply_rounds-blocks g n (apply_blocks f n bytes) good
          ∙ blocks_inverse f g (encrypt_round-IsRound k i) (decrypt_round-encrypt_round k i) n bytes
              h,
    )

-- The last pass of a decryption taken apart from those before it.
decrypt_loop-suc :
    (k : ℕ → ℕ) (n j : ℕ) (bytes : List ℕ)
    → decrypt_loop k (suc n) j bytes
      ≡ apply_rounds (decrypt_round k (j - 2 * n)) (decrypt_loop k n j bytes)
unfolding decrypt_loop
decrypt_loop-suc k zero j bytes =
    let e : j ≡ j - 2 * 0 = omega arith in ap (λ t. apply_rounds (decrypt_round k t) bytes) e
decrypt_loop-suc k (suc n) j bytes =
    let e : j - 2 - 2 * n ≡ j - 2 * suc n = omega arith in
    decrypt_loop-suc k n (j - 2) (apply_rounds (decrypt_round k j) bytes)
    ∙ ap
        (λ t.
          apply_rounds (decrypt_round k t)
            (decrypt_loop k n (j - 2) (apply_rounds (decrypt_round k j) bytes)))
        e

loop_inverse :
    (k : ℕ → ℕ) (n i j blocks : ℕ) (bytes : List ℕ)
    → j + 1 ≡ i + 2 * n
    → IsBlocks blocks bytes
    → decrypt_loop k n j (encrypt_loop k n i bytes) ≡ bytes
unfolding encrypt_loop
loop_inverse k zero i j blocks bytes e h = unfold decrypt_loop in refl
loop_inverse k (suc n) i j blocks bytes e h =
    let p = pass_inverse k i blocks bytes h in
    let mid = apply_rounds (encrypt_round k i) bytes in
    let at : j - 2 * n ≡ i + 1 = omega arith in
    decrypt_loop-suc k n j (encrypt_loop k n (i + 2) mid)
    ∙ ap₂ (λ t b. apply_rounds (decrypt_round k t) b) at
        (loop_inverse k n (i + 2) j blocks mid (omega arith) p.0)
    ∙ p.1

-- For every key schedule, a buffer of whole blocks of eight bytes comes back from encryption by
-- decryption with the same schedule.
pub decrypt-encrypt :
    (k : ℕ → ℕ) (blocks : ℕ) (bytes : List ℕ)
    → IsBlocks blocks bytes
    → decrypt (encrypt bytes k) k ≡ bytes
unfolding decrypt encrypt
decrypt-encrypt k blocks bytes h = loop_inverse k 32 0 63 blocks bytes (omega arith) h
