-- ===== src/Network/Buffer.antt =====
-- std::array<uint8_t, N> as a function of the index, with the stores and loads of memcpy.
use baiak_fonticak.Base.{ap, ℕ, zero, suc, ◌+◌, ◌≤◌, ◌<◌, ◌≡◌, refl, ap₂, arith, List, []}
use baiak_fonticak.Base.{◌∷◌, ◌==◌, if◌then◌else◌, length}

abbrev pub Buffer : Type 0
Buffer = ℕ → ℕ

-- memcpy(buffer.data() + p, bytes)
unfoldable pub store : Buffer → ℕ → List ℕ → Buffer
store buf p [] = buf
store buf p (b ∷ bs) = store (λ i. if i == p then b else buf i) (p + 1) bs

-- The `n` bytes at `p`.
unfoldable pub load : Buffer → ℕ → ℕ → List ℕ
load buf p zero = []
load buf p (suc n) = buf p ∷ load buf (p + 1) n

pub store_below : (buf : Buffer) (p i : ℕ) (bs : List ℕ) → i < p → store buf p bs i ≡ buf i
unfolding store
store_below buf p i [] h = refl
store_below buf p i (b ∷ bs) h =
    ground (arith, store_below (λ j. if j == p then b else buf j) (p + 1) i bs)

pub store_above :
    (buf : Buffer) (p i : ℕ) (bs : List ℕ) → p + length bs ≤ i → store buf p bs i ≡ buf i
unfolding store
store_above buf p i [] h = refl
store_above buf p i (b ∷ bs) h =
    ground (arith, store_above (λ j. if j == p then b else buf j) (p + 1) i bs)

-- What was stored is loaded.
pub load-store : (buf : Buffer) (p : ℕ) (bs : List ℕ) → load (store buf p bs) p (length bs) ≡ bs
unfolding store load
load-store buf p [] = refl
load-store buf p (b ∷ bs) =
    ap₂ ◌∷◌ (ground (arith, store_below (λ j. if j == p then b else buf j) (p + 1) p bs))
      (load-store (λ j. if j == p then b else buf j) (p + 1) bs)

-- A load below a later store is not changed by it.
pub load-store_below :
    (buf : Buffer) (p q n : ℕ) (bs : List ℕ) → p + n ≤ q → load (store buf q bs) p n ≡ load buf p n
unfolding load
load-store_below buf p q zero bs h = refl
load-store_below buf p q (suc n) bs h =
    ap₂ ◌∷◌ (store_below buf q p bs (omega arith))
      (load-store_below buf (p + 1) q n bs (omega arith))

pub length-load : (buf : Buffer) (p n : ℕ) → length (load buf p n) ≡ n
unfolding load
length-load buf p zero = refl
length-load buf p (suc n) = ap suc (length-load buf (p + 1) n)
