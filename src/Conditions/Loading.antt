-- ===== src/Conditions/Loading.antt =====
-- The loops that read conditions: unserialize and createCondition of src/condition.cpp, and the
-- loading of the conditions of a player (src/iologindata.cpp).
use baiak_fonticak.Base.Words.{u8}
use baiak_fonticak.Conditions.Creating.{create_condition}
use baiak_fonticak.Conditions.Reading.{kind_field}
use baiak_fonticak.Conditions.{Condition}
use baiak_fonticak.Conditions.Codes.{type_attr, id_attr, ticks_attr, is_buff_attr}
use baiak_fonticak.Conditions.Codes.{sub_id_attr, is_aggressive_attr, end_attr}
use baiak_fonticak.Base.{ℕ, zero, suc, true, false, Option, none, some, option_map, List, []}
use baiak_fonticak.Base.{◌∷◌, length, ◌==◌, ◌!=◌, if◌then◌else◌}
use baiak_fonticak.Network.PropStream.{read}

infixl 5 ◌>>=◌
abbrev pub ◌>>=◌ : {A B : Type 0} → Option A → (A → Option B) → Option B
none >>= f = none
some a >>= f = f a

-- A value of an attribute, once it is read.
unfoldable pub fill : (ℕ → Condition) → Option ℕ × List ℕ → Option Condition × List ℕ
fill put (none, bytes) = (none, bytes)
fill put (some v, bytes) = (some (put v), bytes)

-- unserializeProp: none is the result false.
unfoldable pub unserialize_prop : ℕ → ℕ → Condition → List ℕ → Option Condition × List ℕ
unserialize_prop now attr c bytes = elim (kind_field now attr c.kind c) [
  | none ↦ (none, bytes)
  | some f ↦ fill f.put (read f.size bytes)
]

-- unserialize: at the end of the stream the loop ends as at CONDITIONATTR_END.
unfoldable pub unserialize : ℕ → ℕ → Condition → List ℕ → Option Condition × List ℕ
unserialize now zero c bytes = (none, bytes)
unserialize now (suc fuel) c [] = (some c, [])
unserialize now (suc fuel) c (attr ∷ bytes) = elim (attr == end_attr) [
  | true ↦ (some c, bytes)
  | false ↦
      let r = unserialize_prop now attr c bytes in
      elim r.0 [ none ↦ (none, r.1) | some c1 ↦ unserialize now fuel c1 r.1 ]
]

unfoldable pub with_rest : Option ℕ × List ℕ → Option (ℕ × List ℕ)
with_rest (none, bytes) = none
with_rest (some v, bytes) = some (v, bytes)

-- An attribute that is to stand next, and its value: none where createCondition returns nullptr.
unfoldable pub expect : ℕ → ℕ → List ℕ → Option (ℕ × List ℕ)
expect attr size [] = none
expect attr size (a ∷ bytes) = if a == attr then with_rest (read size bytes) else none

-- createCondition from a stream.
unfoldable pub create_from : List ℕ → Option (Condition × List ℕ)
create_from bytes0 = do
  (type, bytes1) ← expect type_attr 4 bytes0
  (id, bytes2) ← expect id_attr 4 bytes1
  (ticks, bytes3) ← expect ticks_attr 4 bytes2
  (buff, bytes4) ← expect is_buff_attr 1 bytes3
  (sub_id, bytes5) ← expect sub_id_attr 4 bytes4
  (aggressive, bytes6) ← expect is_aggressive_attr 1 bytes5
  option_map (λ c. (c, bytes6))
      (create_condition (u8 id) type ticks 0 (buff != 0) sub_id (aggressive != 0))

-- The loop of loadPlayer, on fuel; `stored` is storedConditionList. A condition whose attributes
-- cannot be read is dropped, and the loop goes on behind what was read.
unfoldable pub load_conditions : ℕ → ℕ → List ℕ → List Condition → Option (List Condition)
load_conditions now zero bytes stored = none
load_conditions now (suc fuel) bytes stored = elim (create_from bytes) [
  | none ↦ some stored
  | some p ↦
      let r = unserialize now (suc (length p.1)) p.0 p.1 in
      elim r.0 [
        | none ↦ load_conditions now fuel r.1 stored
        | some c ↦ load_conditions now fuel r.1 (c ∷ stored)
      ]
]
