-- ===== src/Tools/Laws.antt =====
-- The lookups of src/tools.cpp: names find their values, codes translate back.
use baiak_fonticak.Tools.Effects.{find_name, magic_effect_names, get_magic_effect}
use baiak_fonticak.Tools.Effects.{shoot_type_names, get_shoot_type}
use baiak_fonticak.Tools.Names.{item_attributes, string_to_item_attribute}
use baiak_fonticak.Tools.Codes.{combat_type_to_index, index_to_combat_type}
use baiak_fonticak.Tools.Codes.{server_fluid_to_client, client_fluid_to_server}
use baiak_fonticak.Tools.Codes.{client_to_server_fluid_map, fluid_index}
use mathlib.Core.Option.{none-ne-some, some-injective}
use baiak_fonticak.Base.{ℕ, zero, suc, ◌<◌, String, ◌≡◌, refl, sym, ap, subst, ◌∙◌, inl, inr}
use baiak_fonticak.Base.{Bool, true, ◌&&◌, some, List, [], ◌∷◌, arith, get_elem?, ◌==◌}
use baiak_fonticak.Base.{Bool-cases}

-- A statement that holds of every number below `n`, by running it there.
unfoldable all_below : ℕ → (ℕ → Bool) → Bool
all_below zero test = true
all_below (suc n) test = test n && all_below n test

and_true : (a b : Bool) → (a && b) ≡ true → (a ≡ true) × (b ≡ true)
and_true a b h = ground arith

all_below_lem :
    (n : ℕ) (test : ℕ → Bool) → all_below n test ≡ true → (i : ℕ) → i < n → test i ≡ true
unfolding all_below
all_below_lem zero test h i below = absurd (omega (arith, below))
all_below_lem (suc n) test h i below =
    let (here, rest) = and_true (test n) (all_below n test) h in
    elim (Bool-cases (i == n)) [
      | inl last ↦
          let same : i ≡ n = ground (arith, last) in subst (λ j. test j ≡ true) (sym same) here
      | inr before ↦ all_below_lem n test rest i (ground (arith, before, below))
    ]

index_to_combat_type_back : (v : ℕ) → v < 12 → combat_type_to_index (index_to_combat_type v) ≡ v
unfolding combat_type_to_index index_to_combat_type all_below
index_to_combat_type_back v below =
    let ran =
      all_below_lem 12 (λ i. combat_type_to_index (index_to_combat_type i) == i) refl v below in
    ground (arith, ran)

client_fluid_back :
    (fluid : ℕ) → fluid < 19 → server_fluid_to_client (client_fluid_to_server fluid) ≡ fluid
unfolding server_fluid_to_client client_fluid_to_server client_to_server_fluid_map fluid_index
    all_below
client_fluid_back fluid below =
    let ran =
      all_below_lem 19 (λ i. server_fluid_to_client (client_fluid_to_server i) == i) refl fluid
        below in
    ground (arith, ran)

-- The codes that are translated there and back, with the number of them.
pub data Code : Type 0 where
  combat_index : Code
  client_fluid : Code

unfoldable pub codes : Code → ℕ
codes combat_index = 12
codes client_fluid = 19

unfoldable pub translate : Code → ℕ → ℕ
translate combat_index v = index_to_combat_type v
translate client_fluid v = client_fluid_to_server v

unfoldable pub translate_back : Code → ℕ → ℕ
translate_back combat_index v = combat_type_to_index v
translate_back client_fluid v = server_fluid_to_client v

-- Codes translate back: each of the 12 indices of damage types is the index of its flag, and each
-- of the 19 fluids of the client's table is told to the client again as itself.
translate_back-translate : (c : Code) (v : ℕ) → v < codes c → translate_back c (translate c v) ≡ v
unfolding codes translate translate_back
translate_back-translate combat_index v below = index_to_combat_type_back v below
translate_back-translate client_fluid v below = client_fluid_back v below

-- Whether `f` answers each name of a table with its value.
unfoldable are_answered : (String → ℕ) → List (String × ℕ) → Bool
are_answered f [] = true
are_answered f ((key, value) ∷ rest) = f key == value && are_answered f rest

are_answered_lem :
    (f : String → ℕ) (table : List (String × ℕ))
    → are_answered f table ≡ true
    → (i : ℕ) (key : String) (value : ℕ) → get_elem? table i ≡ some (key, value)
    → f key ≡ value
unfolding are_answered
are_answered_lem f [] h i key value found = absurd (none-ne-some (key, value) found)
are_answered_lem f ((key', value') ∷ rest) h zero key value found =
    let (here, others) = and_true (f key' == value') (are_answered f rest) h in
    let answer : f key' ≡ value' = ground (arith, here) in
    let same : (key', value') ≡ (key, value) = some-injective (key', value') (key, value) found in
    ap f (sym (ap (λ p. p.0) same)) ∙ answer ∙ ap (λ p. p.1) same
are_answered_lem f ((key', value') ∷ rest) h (suc i) key value found =
    let (here, others) = and_true (f key' == value') (are_answered f rest) h in
    are_answered_lem f rest others i key value found

-- The tables of names: magic effects, missiles, and what stringToItemAttribute compares with.
pub data NameTable : Type 0 where
  magic_effects : NameTable
  shoot_types : NameTable
  attribute_names : NameTable

unfoldable pub names_of : NameTable → List (String × ℕ)
names_of magic_effects = magic_effect_names
names_of shoot_types = shoot_type_names
names_of attribute_names = item_attributes

unfoldable pub look_up : NameTable → String → ℕ
look_up magic_effects name = get_magic_effect name
look_up shoot_types name = get_shoot_type name
look_up attribute_names name = string_to_item_attribute name

-- Every name in a table, of magic effects, of missiles or of item attributes, is looked up to the
-- value that stands beside it: no name is hidden by an earlier entry.
look_up_lem :
    (table : NameTable) (i : ℕ) (name : String) (value : ℕ)
    → get_elem? (names_of table) i ≡ some (name, value)
    → look_up table name ≡ value
unfolding are_answered look_up names_of get_magic_effect magic_effect_names get_shoot_type
    shoot_type_names string_to_item_attribute item_attributes find_name
look_up_lem magic_effects = are_answered_lem get_magic_effect magic_effect_names refl
look_up_lem shoot_types = are_answered_lem get_shoot_type shoot_type_names refl
look_up_lem attribute_names = are_answered_lem string_to_item_attribute item_attributes refl
