-- ===== src/Tools/Effects.antt =====
-- The name tables of src/tools.cpp and their lookups. The values are those of the
-- enumerations of src/const.h and src/enums.h.
use baiak_fonticak.Base.{ℕ, String, Option, none, some, List, [], ◌∷◌, str_eq, if◌then◌else◌}

-- std::unordered_map::find, on the entries as they are listed.
unfoldable pub find_name : String → List (String × ℕ) → Option ℕ
find_name name [] = none
find_name name ((key, value) ∷ rest) = if str_eq key name then some value else find_name name rest

abbrev pub value_or : Option ℕ → ℕ → ℕ
value_or none default_value = default_value
value_or (some value) default_value = value

unfoldable pub magic_effect_names : List (String × ℕ)
magic_effect_names =
    ("redspark", 1)
    ∷ ("bluebubble", 2)
    ∷ ("poff", 3)
    ∷ ("yellowspark", 4)
    ∷ ("explosionarea", 5)
    ∷ ("explosion", 6)
    ∷ ("firearea", 7)
    ∷ ("yellowbubble", 8)
    ∷ ("greenbubble", 9)
    ∷ ("blackspark", 10)
    ∷ ("teleport", 11)
    ∷ ("energy", 12)
    ∷ ("blueshimmer", 13)
    ∷ ("redshimmer", 14)
    ∷ ("greenshimmer", 15)
    ∷ ("fire", 16)
    ∷ ("greenspark", 17)
    ∷ ("mortarea", 18)
    ∷ ("greennote", 19)
    ∷ ("rednote", 20)
    ∷ ("poison", 21)
    ∷ ("yellownote", 22)
    ∷ ("purplenote", 23)
    ∷ ("bluenote", 24)
    ∷ ("whitenote", 25)
    ∷ ("bubbles", 26)
    ∷ ("dice", 27)
    ∷ ("giftwraps", 28)
    ∷ ("yellowfirework", 29)
    ∷ ("redfirework", 30)
    ∷ ("bluefirework", 31)
    ∷ ("stun", 32)
    ∷ ("sleep", 33)
    ∷ ("watercreature", 34)
    ∷ ("groundshaker", 35)
    ∷ ("hearts", 36)
    ∷ ("fireattack", 37)
    ∷ ("energyarea", 38)
    ∷ ("smallclouds", 39)
    ∷ ("holydamage", 40)
    ∷ ("bigclouds", 41)
    ∷ ("icearea", 42)
    ∷ ("icetornado", 43)
    ∷ ("iceattack", 44)
    ∷ ("stones", 45)
    ∷ ("smallplants", 46)
    ∷ ("carniphila", 47)
    ∷ ("purpleenergy", 48)
    ∷ ("yellowenergy", 49)
    ∷ ("holyarea", 50)
    ∷ ("bigplants", 51)
    ∷ ("cake", 52)
    ∷ ("giantice", 53)
    ∷ ("watersplash", 54)
    ∷ ("plantattack", 55)
    ∷ ("tutorialarrow", 56)
    ∷ ("tutorialsquare", 57)
    ∷ ("mirrorhorizontal", 58)
    ∷ ("mirrorvertical", 59)
    ∷ ("skullhorizontal", 60)
    ∷ ("skullvertical", 61)
    ∷ ("assassin", 62)
    ∷ ("stepshorizontal", 63)
    ∷ ("bloodysteps", 64)
    ∷ ("stepsvertical", 65)
    ∷ ("yalaharighost", 66)
    ∷ ("bats", 67)
    ∷ ("smoke", 68)
    ∷ ("insects", 69)
    ∷ ("dragonhead", 70)
    ∷ []

unfoldable pub shoot_type_names : List (String × ℕ)
shoot_type_names =
    ("spear", 1)
    ∷ ("bolt", 2)
    ∷ ("arrow", 3)
    ∷ ("fire", 4)
    ∷ ("energy", 5)
    ∷ ("poisonarrow", 6)
    ∷ ("burstarrow", 7)
    ∷ ("throwingstar", 8)
    ∷ ("throwingknife", 9)
    ∷ ("smallstone", 10)
    ∷ ("death", 11)
    ∷ ("largerock", 12)
    ∷ ("snowball", 13)
    ∷ ("powerbolt", 14)
    ∷ ("poison", 15)
    ∷ ("infernalbolt", 16)
    ∷ ("huntingspear", 17)
    ∷ ("enchantedspear", 18)
    ∷ ("redstar", 19)
    ∷ ("greenstar", 20)
    ∷ ("royalspear", 21)
    ∷ ("sniperarrow", 22)
    ∷ ("onyxarrow", 23)
    ∷ ("piercingbolt", 24)
    ∷ ("whirlwindsword", 25)
    ∷ ("whirlwindaxe", 26)
    ∷ ("whirlwindclub", 27)
    ∷ ("etherealspear", 28)
    ∷ ("ice", 29)
    ∷ ("earth", 30)
    ∷ ("holy", 31)
    ∷ ("suddendeath", 32)
    ∷ ("flasharrow", 33)
    ∷ ("flammingarrow", 34)
    ∷ ("shiverarrow", 35)
    ∷ ("energyball", 36)
    ∷ ("smallice", 37)
    ∷ ("smallholy", 38)
    ∷ ("smallearth", 39)
    ∷ ("eartharrow", 40)
    ∷ ("explosion", 41)
    ∷ ("cake", 42)
    ∷ []

unfoldable pub get_magic_effect : String → ℕ
get_magic_effect name = value_or (find_name name magic_effect_names) 0

unfoldable pub get_shoot_type : String → ℕ
get_shoot_type name = value_or (find_name name shoot_type_names) 0
