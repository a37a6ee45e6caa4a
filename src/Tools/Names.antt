-- ===== src/Tools/Names.antt =====
-- The smaller name tables of src/tools.cpp and their lookups, and stringToItemAttribute. The
-- values are those of the enumerations of src/const.h and src/enums.h.
use baiak_fonticak.Tools.Effects.{find_name, value_or}
use baiak_fonticak.Base.{ℕ, String, List, [], ◌∷◌, ◌==◌, if◌then◌else◌}

unfoldable pub find_combat : ℕ → List (ℕ × String) → String
find_combat combat_type [] = "unknown"
find_combat combat_type ((key, name) ∷ rest) =
    if key == combat_type then name else find_combat combat_type rest

unfoldable pub ammo_type_names : List (String × ℕ)
ammo_type_names =
    ("spear", 3)
    ∷ ("bolt", 1)
    ∷ ("arrow", 2)
    ∷ ("poisonarrow", 2)
    ∷ ("burstarrow", 2)
    ∷ ("throwingstar", 4)
    ∷ ("throwingknife", 5)
    ∷ ("smallstone", 6)
    ∷ ("largerock", 6)
    ∷ ("snowball", 7)
    ∷ ("powerbolt", 1)
    ∷ ("infernalbolt", 1)
    ∷ ("huntingspear", 3)
    ∷ ("enchantedspear", 3)
    ∷ ("royalspear", 3)
    ∷ ("sniperarrow", 2)
    ∷ ("onyxarrow", 2)
    ∷ ("piercingbolt", 1)
    ∷ ("etherealspear", 3)
    ∷ ("flasharrow", 2)
    ∷ ("flammingarrow", 2)
    ∷ ("shiverarrow", 2)
    ∷ ("eartharrow", 2)
    ∷ []

unfoldable pub weapon_action_names : List (String × ℕ)
weapon_action_names = ("move", 3) ∷ ("removecharge", 2) ∷ ("removecount", 1) ∷ []

unfoldable pub skull_names : List (String × ℕ)
skull_names =
    ("none", 0) ∷ ("yellow", 1) ∷ ("green", 2) ∷ ("white", 3) ∷ ("red", 4) ∷ ("black", 5) ∷ []

unfoldable pub combat_type_names : List (ℕ × String)
combat_type_names =
    (1, "physical")
    ∷ (2, "energy")
    ∷ (4, "earth")
    ∷ (8, "fire")
    ∷ (16, "undefined")
    ∷ (32, "lifedrain")
    ∷ (64, "manadrain")
    ∷ (128, "healing")
    ∷ (256, "drown")
    ∷ (512, "ice")
    ∷ (1024, "holy")
    ∷ (2048, "death")
    ∷ []

unfoldable pub get_ammo_type : String → ℕ
get_ammo_type name = value_or (find_name name ammo_type_names) 0

unfoldable pub get_weapon_action : String → ℕ
get_weapon_action name = value_or (find_name name weapon_action_names) 0

unfoldable pub get_skull_type : String → ℕ
get_skull_type name = value_or (find_name name skull_names) 0

unfoldable pub get_combat_name : ℕ → String
get_combat_name combat_type = find_combat combat_type combat_type_names

-- The chain of comparisons of stringToItemAttribute as a table, in its order. Each value is a
-- flag of its own.
unfoldable pub item_attributes : List (String × ℕ)
item_attributes =
    ("aid", 1)
    ∷ ("uid", 2)
    ∷ ("description", 4)
    ∷ ("text", 8)
    ∷ ("date", 16)
    ∷ ("writer", 32)
    ∷ ("name", 64)
    ∷ ("article", 128)
    ∷ ("pluralname", 256)
    ∷ ("weight", 512)
    ∷ ("attack", 1024)
    ∷ ("defense", 2048)
    ∷ ("extradefense", 4096)
    ∷ ("armor", 8192)
    ∷ ("hitchance", 16384)
    ∷ ("shootrange", 32768)
    ∷ ("owner", 65536)
    ∷ ("duration", 131072)
    ∷ ("decaystate", 262144)
    ∷ ("corpseowner", 524288)
    ∷ ("charges", 1048576)
    ∷ ("fluidtype", 2097152)
    ∷ ("doorid", 4194304)
    ∷ ("decayto", 8388608)
    ∷ ("wrapid", 16777216)
    ∷ ("storeitem", 33554432)
    ∷ ("attackspeed", 67108864)
    ∷ ("classification", 134217728)
    ∷ ("tier", 268435456)
    ∷ ("imbuementslots", 536870912)
    ∷ []

-- The chain of comparisons of stringToItemAttribute, which takes the first that holds.
unfoldable pub string_to_item_attribute : String → ℕ
string_to_item_attribute name = value_or (find_name name item_attributes) 0
