-- ===== src/Tools/Examples.antt =====
-- Names, codes and strings: the theorems at concrete values.
use baiak_fonticak.Base.Int.{pos}
use baiak_fonticak.Tools.Codes.{server_fluid_to_client, client_to_server_fluid_map}
use baiak_fonticak.Tools.Codes.{fluid_index}
use baiak_fonticak.Tools.Strings.{explode_string, trim_string}
use baiak_fonticak.Tools.Strings.Exploding.{join_rest, explode_string-joins}
use baiak_fonticak.Tools.Strings.Trimming.{copies, trim_string-decomposes}
use baiak_fonticak.Base.{ℕ, ◌≡◌, refl, ◌≢◌, some, List, [], ◌∷◌, ◌++◌, arith}

-- Lava and swamp have no client's fluid: they are shown as empty.
lava_is_empty : server_fluid_to_client 26 ≡ 0
unfolding server_fluid_to_client client_to_server_fluid_map fluid_index
lava_is_empty = refl

-- "a;b;c" as bytes.
abbrev listing : List ℕ
listing = 97 ∷ 59 ∷ 98 ∷ 59 ∷ 99 ∷ []

explode_string-joins_example :
    (first : List ℕ) × (parts : List (List ℕ)) × (explode_string listing (59 ∷ []) (pos 1)
      ≡ some (first ∷ parts))
    × (first ++ join_rest (59 ∷ []) parts ≡ listing)
explode_string-joins_example = explode_string-joins listing (59 ∷ []) (pos 1) (omega arith)

trim_string-decomposes_example :
    ((m : ℕ) × (n : ℕ) × (32 ∷ listing
        ≡ copies m 32 ++ (trim_string (32 ∷ listing) ++ copies n 32)))
    × ((rest : List ℕ) → trim_string (32 ∷ listing) ≢ 32 ∷ rest)
    × ((rest : List ℕ) → trim_string (32 ∷ listing) ≢ rest ++ 32 ∷ [])
trim_string-decomposes_example = trim_string-decomposes (32 ∷ listing)
