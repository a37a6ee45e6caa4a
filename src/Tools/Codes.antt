-- ===== src/Tools/Codes.antt =====
-- Codes of damage and fluids, and the names of skills, weapons and vocations (src/tools.cpp).
use baiak_fonticak.Base.Words.{u16}
use baiak_fonticak.Base.{ℕ, suc, ◌^◌, String, ◌||◌, List, [], ◌∷◌, length, get_or, leb, ◌==◌}
use baiak_fonticak.Base.{if◌then◌else◌}

-- CombatType_t is one flag of 12.
unfoldable pub combat_type_to_index : ℕ → ℕ
combat_type_to_index combat_type =
    if combat_type == 1
    then 0
    else if combat_type == 2
    then 1
    else if combat_type == 4
    then 2
    else if combat_type == 8
    then 3
    else if combat_type == 16
    then 4
    else if combat_type == 32
    then 5
    else if combat_type == 64
    then 6
    else if combat_type == 128
    then 7
    else if combat_type == 256
    then 8
    else if combat_type == 512
    then 9
    else if combat_type == 1024
    then 10
    else if combat_type == 2048
    then 11
    else 0

unfoldable pub index_to_combat_type : ℕ → ℕ
index_to_combat_type v = u16 (2 ^ v)

-- clientToServerFluidMap of src/const.h.
unfoldable pub client_to_server_fluid_map : List ℕ
client_to_server_fluid_map =
    0 ∷ 1 ∷ 7 ∷ 3 ∷ 19 ∷ 2 ∷ 4 ∷ 27 ∷ 5 ∷ 6 ∷ 15 ∷ 10 ∷ 13 ∷ 11 ∷ 21 ∷ 14 ∷ 35 ∷ 43 ∷ 8 ∷ []

-- The loop of serverFluidToClient from the client's fluid `i` on.
unfoldable pub fluid_index : ℕ → ℕ → List ℕ → ℕ
fluid_index server_fluid i [] = 0
fluid_index server_fluid i (fluid ∷ rest) =
    if fluid == server_fluid then i else fluid_index server_fluid (suc i) rest

unfoldable pub server_fluid_to_client : ℕ → ℕ
server_fluid_to_client server_fluid = fluid_index server_fluid 0 client_to_server_fluid_map

unfoldable pub client_fluid_to_server : ℕ → ℕ
client_fluid_to_server client_fluid =
    if leb (length client_to_server_fluid_map) client_fluid
    then 0
    else get_or client_to_server_fluid_map client_fluid 0

unfoldable pub get_vocation_short_name : ℕ → String
get_vocation_short_name id =
    if id == 1 || id == 5
    then "MS"
    else if id == 2 || id == 6
    then "ED"
    else if id == 3 || id == 7
    then "RP"
    else if id == 4 || id == 8
    then "EK"
    else "-"

unfoldable pub get_skill_name : ℕ → String
get_skill_name id =
    if id == 0
    then "fist fighting"
    else if id == 1
    then "club fighting"
    else if id == 2
    then "sword fighting"
    else if id == 3
    then "axe fighting"
    else if id == 4
    then "distance fighting"
    else if id == 5
    then "shielding"
    else if id == 6
    then "fishing"
    else if id == 7
    then "magic level"
    else if id == 8
    then "level"
    else "unknown"

unfoldable pub get_special_skill_name : ℕ → String
get_special_skill_name id =
    if id == 0
    then "critical hit chance"
    else if id == 1
    then "critical extra damage"
    else if id == 2
    then "hitpoints leech chance"
    else if id == 3
    then "hitpoints leech amount"
    else if id == 4
    then "manapoints leech chance"
    else if id == 5
    then "mana points leech amount"
    else "unknown"

unfoldable pub get_weapon_name : ℕ → String
get_weapon_name weapon_type =
    if weapon_type == 1
    then "sword"
    else if weapon_type == 2
    then "club"
    else if weapon_type == 3
    then "axe"
    else if weapon_type == 5
    then "distance"
    else if weapon_type == 6
    then "wand"
    else if weapon_type == 7
    then "ammunition"
    else ""
