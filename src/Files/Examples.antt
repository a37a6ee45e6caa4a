-- ===== src/Files/Examples.antt =====
-- Small OTB files: a root with a property that needs an escape and two children.
use baiak_fonticak.Base.{ℕ, ◌≡◌, refl, none, some, option_map, List, [], ◌∷◌, ◌++◌, arith}
use baiak_fonticak.Base.{same_bytes}
use baiak_fonticak.Files.Loader.{node_end, parse_tree, is_accepted}
use baiak_fonticak.Files.Loader.RoundTrip.{Tree, tree, no_trees, more, encode, escape_bytes}
use baiak_fonticak.Files.Loader.Loading.{decode, encode_open, parse_tree-encode}
use baiak_fonticak.Files.Loader.Loading.{parse_tree_unbalanced}

abbrev otbi : List ℕ
otbi = 79 ∷ 84 ∷ 66 ∷ 73 ∷ []

abbrev town : Tree
town =
    tree 1 (5 ∷ 0xFE ∷ 0xFD ∷ [])
      (more (more no_trees (tree 2 [] no_trees)) (tree 3 (0xFF ∷ []) no_trees))

parse_tree-encode_example : option_map decode (parse_tree otbi (otbi ++ encode town)) ≡ some town
unfolding encode escape_bytes
parse_tree-encode_example = parse_tree-encode otbi town refl (omega arith)

parse_tree_unbalanced_example :
    (parse_tree otbi (otbi ++ encode_open town) ≡ none)
    × (parse_tree otbi (otbi ++ (encode town ++ node_end ∷ 7 ∷ [])) ≡ none)
unfolding encode_open encode escape_bytes
parse_tree_unbalanced_example = parse_tree_unbalanced otbi town (7 ∷ []) refl (omega arith)

-- The smallest well-formed file, a bare node, is refused.
bare_node_is_refused : parse_tree otbi (otbi ++ encode (tree 0 [] no_trees)) ≡ none
unfolding parse_tree is_accepted same_bytes encode escape_bytes
bare_node_is_refused = refl
