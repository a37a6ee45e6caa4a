-- ===== src/Tools/Strings.antt =====
-- Strings as lists of bytes (src/tools.cpp): splitting, trimming, capitals, and first lines.
pub mod Exploding
pub mod Trimming
use baiak_fonticak.Base.Int.{ℤ, pos, negsuc}
use baiak_fonticak.Base.{ℕ, zero, suc, ◌+◌, ◌-◌, Bool, false, ◌&&◌, Option, none, some}
use baiak_fonticak.Base.{option_map, List, [], ◌∷◌, map, length, is_empty, leb, ◌==◌, ◌!=◌}
use baiak_fonticak.Base.{if◌then◌else◌}

-- The bytes of `text` behind `prefix`, when it starts with it.
unfoldable pub strip_prefix : List ℕ → List ℕ → Option (List ℕ)
strip_prefix [] text = some text
strip_prefix (c ∷ prefix) [] = none
strip_prefix (c ∷ prefix) (d ∷ text) = if c == d then strip_prefix prefix text else none

-- std::string::find of `separator`: the bytes before its first place and the ones behind it.
unfoldable pub find : List ℕ → List ℕ → Option (List ℕ × List ℕ)
find separator [] = elim (strip_prefix separator []) [ some rest ↦ some ([], rest) | none ↦ none ]
find separator (c ∷ text) = elim (strip_prefix separator (c ∷ text)) [
  | some rest ↦ some ([], rest)
  | none ↦ option_map (λ (p : List ℕ × List ℕ). (c ∷ p.0, p.1)) (find separator text)
]

-- `--limit != -1` of explodeString, with the new limit.
unfoldable pub next_limit : ℤ → Option ℤ
next_limit (pos zero) = none
next_limit (pos (suc n)) = some (pos n)
next_limit (negsuc n) = some (negsuc (suc n))

-- The loop of explodeString over the text from `start` on, on fuel.
unfoldable pub explode_loop : List ℕ → ℕ → ℤ → List ℕ → Option (List (List ℕ))
explode_loop separator zero limit text = none
explode_loop separator (suc fuel) limit text = elim (next_limit limit) [
  | none ↦ some (text ∷ [])
  | some limit1 ↦ elim (find separator text) [
    | none ↦ some (text ∷ [])
    | some (part, rest) ↦
        option_map (λ (parts : List (List ℕ)). part ∷ parts)
          (explode_loop separator fuel limit1 rest)
  ]
]

unfoldable pub explode_string : List ℕ → List ℕ → ℤ → Option (List (List ℕ))
explode_string text separator limit = explode_loop separator (suc (length text)) limit text

-- find_first_not_of and find_last_not_of, as trim_left and trim_right use them.
unfoldable pub trim_left : List ℕ → ℕ → List ℕ
trim_left [] t = []
trim_left (c ∷ text) t = if c == t then trim_left text t else c ∷ text

unfoldable pub trim_right : List ℕ → ℕ → List ℕ
trim_right [] t = []
trim_right (c ∷ text) t =
    let rest = trim_right text t in if c == t && is_empty rest then [] else c ∷ rest

unfoldable pub trim_string : List ℕ → List ℕ
trim_string text = trim_left (trim_right text 32) 32

-- toupper and tolower of the C locale.
unfoldable pub to_upper : ℕ → ℕ
to_upper c = if leb 97 c && leb c 122 then c - 32 else c

unfoldable pub to_lower : ℕ → ℕ
to_lower c = if leb 65 c && leb c 90 then c + 32 else c

unfoldable pub as_lower_case_string : List ℕ → List ℕ
as_lower_case_string = map to_lower

unfoldable pub as_upper_case_string : List ℕ → List ℕ
as_upper_case_string = map to_upper

unfoldable pub ucfirst : List ℕ → List ℕ
ucfirst [] = []
ucfirst (c ∷ text) = let rest = ucfirst text in if c != 32 then to_upper c ∷ text else c ∷ rest

-- The loop of ucwords behind the byte `before`.
unfoldable pub ucwords_loop : ℕ → List ℕ → List ℕ
ucwords_loop before [] = []
ucwords_loop before (c ∷ text) =
    let d = if before == 32 then to_upper c else c in d ∷ ucwords_loop d text

unfoldable pub ucwords : List ℕ → List ℕ
ucwords [] = []
ucwords (c ∷ text) = to_upper c ∷ ucwords_loop (to_upper c) text

unfoldable pub boolean_string : List ℕ → Bool
boolean_string [] = false
boolean_string (c ∷ text) = to_lower c != 102 && to_lower c != 110 && to_lower c != 48

unfoldable pub get_first_line : List ℕ → List ℕ
get_first_line [] = []
get_first_line (c ∷ text) = let rest = get_first_line text in if c == 10 then [] else c ∷ rest
