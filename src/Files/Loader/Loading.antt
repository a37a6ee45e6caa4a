-- ===== src/Files/Loader/Loading.antt =====
-- Whole files of the OTB format: what is written is loaded, and what is unbalanced is refused
-- (src/fileloader.cpp).
use baiak_fonticak.Base.{ℕ, ◌<◌, ◌≡◌, refl, sym, ap, ap₂, subst, ◌∙◌, true, false, ◌&&◌}
use baiak_fonticak.Base.{◌||◌, Option, none, some, option_map, List, [], ◌∷◌, ◌++◌}
use baiak_fonticak.Base.{append-nil, arith, length, take, drop, length-append, take_prefix}
use baiak_fonticak.Base.{drop_prefix, same_bytes, same_bytes_self, ltb, if◌then◌else◌}
use baiak_fonticak.Base.{lt→ltb}
use baiak_fonticak.Files.Loader.RoundTrip.{body_assoc, Tree, Trees, tree, no_trees, more}
use baiak_fonticak.Files.Loader.RoundTrip.{escape_bytes, encode, encode_all, node_of}
use baiak_fonticak.Files.Loader.RoundTrip.{nodes_of, opened, props_lem, trees_lem}
use baiak_fonticak.Files.Loader.{node_start, node_end, Node, Nodes, node, leaf, child, Open}
use baiak_fonticak.Files.Loader.{parse_loop, unescape, get_props, parse_tree, parse_root}
use baiak_fonticak.Files.Loader.{is_accepted, pop, closed}

unescape-escape_bytes : (props : List ℕ) → unescape false (escape_bytes props) ≡ props
unfolding unescape escape_bytes
unescape-escape_bytes [] = refl
unescape-escape_bytes (b ∷ props) = ground (arith, unescape-escape_bytes props)

abbrev or_nothing : Option (List ℕ) → List ℕ
or_nothing none = []
or_nothing (some props) = props

get_props_lem :
    (type : ℕ) (props : List ℕ) (ns : Nodes)
    → or_nothing (get_props (node type (escape_bytes props) ns)) ≡ props
unfolding get_props escape_bytes unescape
get_props_lem type [] ns = refl
get_props_lem type (b ∷ props) ns = ground (arith, unescape-escape_bytes props)

-- What a client of the loader makes of a node, with getProps on every node.
unfoldable mutual
  pub decode : Node → Tree
  decode (node type raw ns) = tree type (or_nothing (get_props (node type raw ns))) (decode_all ns)

  pub decode_all : Nodes → Trees
  decode_all leaf = no_trees
  decode_all (child ns n) = more (decode_all ns) (decode n)

mutual
  unfolding decode decode_all node_of nodes_of

  decode-node_of : (t : Tree) → decode (node_of t) ≡ t
  decode-node_of (tree type props ts) =
      ap₂ (tree type) (get_props_lem type props (nodes_of ts)) (decode_all-nodes_of ts)

  decode_all-nodes_of : (ts : Trees) → decode_all (nodes_of ts) ≡ ts
  decode_all-nodes_of no_trees = refl
  decode_all-nodes_of (more ts t) = ap₂ more (decode_all-nodes_of ts) (decode-node_of t)

-- The bytes of a tree without its last END.
unfoldable pub encode_open : Tree → List ℕ
encode_open (tree type props ts) = node_start ∷ type ∷ (escape_bytes props ++ encode_all ts)

accepted_file :
    (identifier body : List ℕ)
    → length identifier ≡ 4
    → 3 < length body
    → parse_tree identifier (identifier ++ body) ≡ parse_root body
unfolding parse_tree is_accepted
accepted_file identifier body four long =
    let taken =
      subst (λ n. take n (identifier ++ body) ≡ identifier) four (take_prefix identifier body) in
    let dropped =
      subst (λ n. drop n (identifier ++ body) ≡ body) four (drop_prefix identifier body) in
    let same : same_bytes (take 4 (identifier ++ body)) identifier ≡ true =
      ap (λ xs. same_bytes xs identifier) taken ∙ same_bytes_self identifier in
    let enough : ltb 7 (length (identifier ++ body)) ≡ true =
      lt→ltb 7 (length (identifier ++ body))
        (omega (arith, four, long, length-append identifier body)) in
    ap₂
      (λ p q.
        if p && (q || same_bytes (take 4 (identifier ++ body)) (0 ∷ 0 ∷ 0 ∷ 0 ∷ []))
        then parse_root (drop 4 (identifier ++ body))
        else none)
      enough same
    ∙ ap parse_root dropped

root_lem :
    (type : ℕ) (props : List ℕ) (ts : Trees) (rest : List ℕ)
    → parse_root (node_start ∷ type ∷ (escape_bytes props ++ (encode_all ts ++ rest)))
      ≡ parse_loop rest (opened type (escape_bytes props) (nodes_of ts) ∷ []) none
unfolding parse_root
root_lem type props ts rest =
    props_lem props (encode_all ts ++ rest) [] type [] none
    ∙ trees_lem ts rest type (escape_bytes props) [] none

root_closed : (o : Open) → parse_loop (node_end ∷ []) (o ∷ []) none ≡ some (closed o)
unfolding parse_loop pop
root_closed o = refl

never_closed : (o : Open) → parse_loop [] (o ∷ []) none ≡ none
unfolding parse_loop
never_closed o = refl

closed_twice :
    (o : Open) (rest : List ℕ) → parse_loop (node_end ∷ node_end ∷ rest) (o ∷ []) none ≡ none
unfolding parse_loop pop
closed_twice o [] = refl
closed_twice o (c ∷ rest) = refl

ends_nil :
    (props : List ℕ) (ts : Trees)
    → escape_bytes props ++ (encode_all ts ++ []) ≡ escape_bytes props ++ encode_all ts
ends_nil props ts = ap (λ xs. escape_bytes props ++ xs) (append-nil (encode_all ts))

longer :
    (type : ℕ) (props : List ℕ) (ts : Trees) (rest : List ℕ)
    → 3 < length (encode_open (tree type props ts))
    → 3 < length (encode (tree type props ts) ++ node_end ∷ rest)
unfolding encode encode_open
longer type props ts rest long = omega (
  arith,
  long,
  length-append (escape_bytes props) (encode_all ts),
  length-append (escape_bytes props) (encode_all ts ++ node_end ∷ []),
  length-append (encode_all ts) (node_end ∷ []),
  length-append (encode (tree type props ts)) (node_end ∷ rest),
)

-- A tree that is more than one bare node, written behind an identifier of four bytes, is loaded
-- as it was meant: parseTree gives nodes from which getProps takes the properties of each.
pub parse_tree-encode :
    (identifier : List ℕ) (t : Tree)
    → length identifier ≡ 4
    → 3 < length (encode t)
    → option_map decode (parse_tree identifier (identifier ++ encode t)) ≡ some t
unfolding encode closed node_of
parse_tree-encode identifier (tree type props ts) four long =
    ap (option_map decode) (
      accepted_file identifier (encode (tree type props ts)) four long
      ∙ root_lem type props ts (node_end ∷ [])
      ∙ root_closed (opened type (escape_bytes props) (nodes_of ts)))
    ∙ ap some (decode-node_of (tree type props ts))

-- A file whose last END is missing, and one with any bytes behind a further END, are refused:
-- parseTree throws InvalidOTBFormat.
pub parse_tree_unbalanced :
    (identifier : List ℕ) (t : Tree) (rest : List ℕ)
    → length identifier ≡ 4
    → 3 < length (encode_open t)
    → (parse_tree identifier (identifier ++ encode_open t) ≡ none)
      × (parse_tree identifier (identifier ++ (encode t ++ node_end ∷ rest)) ≡ none)
unfolding encode encode_open
parse_tree_unbalanced identifier (tree type props ts) rest four long =
    let o = opened type (escape_bytes props) (nodes_of ts) in
    let all = escape_bytes props ++ encode_all ts in
    (
      accepted_file identifier (node_start ∷ type ∷ all) four long
          ∙ ap (λ xs. parse_root (node_start ∷ type ∷ xs)) (sym (ends_nil props ts))
          ∙ root_lem type props ts []
          ∙ never_closed o,
      accepted_file identifier (encode (tree type props ts) ++ node_end ∷ rest) four
            (longer type props ts rest long)
          ∙ ap (λ xs. parse_root (node_start ∷ type ∷ xs)) (body_assoc props ts (node_end ∷ rest))
          ∙ root_lem type props ts (node_end ∷ node_end ∷ rest)
          ∙ closed_twice o rest,
    )
