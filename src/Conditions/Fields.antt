-- ===== src/Conditions/Fields.antt =====
-- Attributes that are written one after another are read one after another (src/condition.cpp).
use baiak_fonticak.Base.{ℕ, zero, suc, ◌%◌, ◌^◌, ◌<◌, ◌≡◌, refl, ap, ◌∙◌, true, false}
use baiak_fonticak.Base.{Option, none, some, List, [], ◌∷◌, ◌++◌, append_assoc, arith}
use baiak_fonticak.Base.{length, All, ◌==◌, if◌then◌else◌, ==_self}
use baiak_fonticak.Conditions.{Condition}
use mathlib.Core.Option.{none-ne-some, some-injective}
use baiak_fonticak.Base.Words.{le_bytes}
use baiak_fonticak.Network.PropStream.{read, write}
use baiak_fonticak.Network.PropStream.RoundTrip.{read_bytes}
use baiak_fonticak.Conditions.Writing.{Written, write_fields}
use baiak_fonticak.Conditions.Reading.{Field, kind_field}
use baiak_fonticak.Conditions.Loading.{fill, unserialize_prop, unserialize, expect}
use baiak_fonticak.Conditions.Loading.{with_rest}

-- The bytes of attributes before a rest.
unfoldable pub onto : List Written → List ℕ → List ℕ
onto [] rest = rest
onto (f ∷ fs) rest = f.attr ∷ (le_bytes f.size f.value ++ onto fs rest)

-- The value fits into its size, and the attribute is none of the reserved ones.
abbrev pub IsWritable : Written → Type 0
IsWritable f = (f.attr < 254) × (f.value < 256 ^ f.size)

pub write_fields-onto :
    (fs : List Written) (buffer rest : List ℕ)
    → All IsWritable fs
    → write_fields fs buffer ++ rest ≡ buffer ++ onto fs rest
unfolding write_fields onto write le_bytes
write_fields-onto [] buffer rest h = refl
write_fields-onto (f ∷ fs) buffer rest (fits, others) =
    let small : f.attr % 256 ≡ f.attr = omega (arith, fits.0) in
    write_fields-onto fs ((buffer ++ (f.attr % 256) ∷ []) ++ le_bytes f.size f.value) rest others
    ∙ append_assoc (buffer ++ (f.attr % 256) ∷ []) (le_bytes f.size f.value) (onto fs rest)
    ∙ append_assoc buffer ((f.attr % 256) ∷ []) (le_bytes f.size f.value ++ onto fs rest)
    ∙ ap (λ a. buffer ++ a ∷ (le_bytes f.size f.value ++ onto fs rest)) small

-- What reading the attributes makes of a condition, with no bytes between.
unfoldable pub absorb_into :
    Option Field → Written → (Condition → Option Condition) → Option Condition
absorb_into none f next = none
absorb_into (some g) f next = if g.size == f.size then next (g.put f.value) else none

unfoldable pub absorb : ℕ → List Written → Condition → Option Condition
absorb now [] c = some c
absorb now (f ∷ fs) c = absorb_into (kind_field now f.attr c.kind c) f (absorb now fs)

absorbed :
    (o : Option Field) (f : Written) (next : Condition → Option Condition) (c : Condition)
    → absorb_into o f next ≡ some c
    → (g : Field) × (o ≡ some g) × (g.size ≡ f.size) × (next (g.put f.value) ≡ some c)
unfolding absorb_into
absorbed none f next c h = absurd (none-ne-some c h)
absorbed (some g) f next c h = (g, refl, ground (arith, h), ground (arith, h))

read_prop :
    (now : ℕ) (f : Written) (c : Condition) (g : Field) (rest : List ℕ)
    → kind_field now f.attr c.kind c ≡ some g
    → g.size ≡ f.size
    → f.value < 256 ^ f.size
    → unserialize_prop now f.attr c (le_bytes f.size f.value ++ rest) ≡ (some (g.put f.value), rest)
unfolding unserialize_prop fill
read_prop now f c g rest found same fits =
    ap
      (λ o. elim o as (λ x. Option Condition × List ℕ) [
        | none ↦ (none, le_bytes f.size f.value ++ rest)
        | some k ↦ fill k.put (read k.size (le_bytes f.size f.value ++ rest))
      ])
      found
    ∙ ap (λ n. fill g.put (read n (le_bytes f.size f.value ++ rest))) same
    ∙ ap (fill g.put) (read_bytes f.size f.value rest fits)

one_prop :
    (now fuel attr : ℕ) (c c1 : Condition) (bytes rest : List ℕ)
    → attr < 254
    → unserialize_prop now attr c bytes ≡ (some c1, rest)
    → unserialize now (suc fuel) c (attr ∷ bytes) ≡ unserialize now fuel c1 rest
unfolding unserialize
one_prop now fuel attr c c1 bytes rest small read_it =
    let more : (attr == 254) ≡ false = ground (arith, small) in ground (arith, more, read_it)

pub unserialize-onto :
    (now fuel : ℕ) (fs : List Written) (c c1 : Condition) (rest : List ℕ)
    → absorb now fs c ≡ some c1
    → All IsWritable fs
    → length fs < fuel
    → unserialize now fuel c (onto fs (254 ∷ rest)) ≡ (some c1, rest)
unfolding absorb onto
unserialize-onto now zero fs c c1 rest h fits enough = absurd (omega (arith, enough))
unserialize-onto now (suc fuel) [] c c1 rest h fits enough =
    unfold unserialize in ap (λ x. (some x, rest)) (some-injective c c1 h)
unserialize-onto now (suc fuel) (f ∷ fs) c c1 rest h (fit, fits) enough =
    let (g, found, same, later) =
      absorbed (kind_field now f.attr c.kind c) f (absorb now fs) c1 h in
    one_prop now fuel f.attr c (g.put f.value) (le_bytes f.size f.value ++ onto fs (254 ∷ rest))
      (onto fs (254 ∷ rest)) fit.0 (read_prop now f c g (onto fs (254 ∷ rest)) found same fit.1)
    ∙ unserialize-onto now fuel fs (g.put f.value) c1 rest later fits (omega (arith, enough))

pub expect_lem :
    (attr size v : ℕ) (rest : List ℕ)
    → v < 256 ^ size
    → expect attr size (attr ∷ (le_bytes size v ++ rest)) ≡ some (v, rest)
unfolding expect with_rest
expect_lem attr size v rest fits =
    ap (λ b. if b then with_rest (read size (le_bytes size v ++ rest)) else none) (==_self attr)
    ∙ ap with_rest (read_bytes size v rest fits)

pub absorb-append :
    (now : ℕ) (fs gs : List Written) (c c1 c2 : Condition)
    → absorb now fs c ≡ some c1
    → absorb now gs c1 ≡ some c2
    → absorb now (fs ++ gs) c ≡ some c2
unfolding absorb absorb_into
absorb-append now [] gs c c1 c2 h1 h2 = ap (absorb now gs) (some-injective c c1 h1) ∙ h2
absorb-append now (f ∷ fs) gs c c1 c2 h1 h2 =
    let (g, found, same, later) =
      absorbed (kind_field now f.attr c.kind c) f (absorb now fs) c1 h1 in
    let here : (g.size == f.size) ≡ true = ground (arith, same) in
    ap (λ o. absorb_into o f (absorb now (fs ++ gs))) found
    ∙ ap (λ b. if b then absorb now (fs ++ gs) (g.put f.value) else none) here
    ∙ absorb-append now fs gs (g.put f.value) c1 c2 later h2

pub onto-append :
    (fs gs : List Written) (rest : List ℕ) → onto (fs ++ gs) rest ≡ onto fs (onto gs rest)
unfolding onto
onto-append [] gs rest = refl
onto-append (f ∷ fs) gs rest =
    ap (λ xs. f.attr ∷ (le_bytes f.size f.value ++ xs)) (onto-append fs gs rest)
