-- ===== src/Files/Loader/RoundTrip.antt =====
-- What is written in the OTB format is parsed back (src/fileloader.cpp).
use baiak_fonticak.Base.{ℕ, ◌≡◌, refl, sym, ap, subst, ◌∙◌, inl, inr, true, false, Option}
use baiak_fonticak.Base.{List, [], ◌∷◌, ◌++◌, append-nil, append_assoc, arith, leb}
use baiak_fonticak.Base.{if◌then◌else◌, Bool-cases}
use baiak_fonticak.Files.Loader.{escape, node_start, node_end, Node, Nodes, node, leaf}
use baiak_fonticak.Files.Loader.{child, Open, add_bytes, closed, pop, parse_loop}

-- A tree with its properties as they are meant.
mutual
  pub data Tree : Type 0 where
    tree : ℕ → List ℕ → Trees → Tree

  pub data Trees : Type 0 where
    no_trees : Trees
    more : Trees → Tree → Trees

-- A byte that would be a mark is written behind an escape.
unfoldable pub escape_bytes : List ℕ → List ℕ
escape_bytes [] = []
escape_bytes (b ∷ bytes) =
    let rest = escape_bytes bytes in if leb escape b then escape ∷ b ∷ rest else b ∷ rest

unfoldable mutual
  pub encode : Tree → List ℕ
  encode (tree type props ts) =
      node_start ∷ type ∷ (escape_bytes props ++ (encode_all ts ++ node_end ∷ []))

  pub encode_all : Trees → List ℕ
  encode_all no_trees = []
  encode_all (more ts t) = encode_all ts ++ encode t

-- The node that the loader should make of a tree.
unfoldable mutual
  pub node_of : Tree → Node
  node_of (tree type props ts) = node type (escape_bytes props) (nodes_of ts)

  pub nodes_of : Trees → Nodes
  nodes_of no_trees = leaf
  nodes_of (more ts t) = child (nodes_of ts) (node_of t)

abbrev pub opened : ℕ → List ℕ → Nodes → Open
opened type props children = record { type = type; props = props; children = children }

pub step_end :
    (rest : List ℕ) (o : Open) (stack : List Open) (root : Option Node)
    → parse_loop (node_end ∷ rest) (o ∷ stack) root
      ≡ parse_loop rest (pop o stack root).0 (pop o stack root).1
unfolding parse_loop
step_end [] o stack root = refl
step_end (c ∷ rest) o stack root = refl

pub step_start :
    (type : ℕ) (rest : List ℕ) (o : Open) (stack : List Open) (root : Option Node)
    → parse_loop (node_start ∷ type ∷ rest) (o ∷ stack) root
      ≡ parse_loop rest (opened type [] leaf ∷ o ∷ stack) root
unfolding parse_loop
step_start type rest o stack root = refl

step_escape :
    (b : ℕ) (rest : List ℕ) (stack : List Open) (root : Option Node)
    → parse_loop (escape ∷ b ∷ rest) stack root
      ≡ parse_loop rest (add_bytes (escape ∷ b ∷ []) stack) root
unfolding parse_loop
step_escape b rest stack root = refl

step_byte :
    (b : ℕ) (rest : List ℕ) (stack : List Open) (root : Option Node)
    → leb escape b ≡ false
    → parse_loop (b ∷ rest) stack root ≡ parse_loop rest (add_bytes (b ∷ []) stack) root
unfolding parse_loop
step_byte b [] stack root plain = ground (arith, plain)
step_byte b (c ∷ rest) stack root plain = ground (arith, plain)

escape_mark :
    (b : ℕ) (props : List ℕ)
    → leb escape b ≡ true
    → escape ∷ b ∷ escape_bytes props ≡ escape_bytes (b ∷ props)
unfolding escape_bytes
escape_mark b props mark = ground (arith, mark)

escape_plain :
    (b : ℕ) (props : List ℕ)
    → leb escape b ≡ false
    → b ∷ escape_bytes props ≡ escape_bytes (b ∷ props)
unfolding escape_bytes
escape_plain b props plain = ground (arith, plain)

-- The raw bytes `xs` are read to the end of the properties of a node without children.
abbrev pub Taken : List ℕ → List ℕ → List ℕ → ℕ → List Open → Option Node → Type 0
Taken xs rest raw type stack root =
    parse_loop (xs ++ rest) (opened type raw leaf ∷ stack) root
    ≡ parse_loop rest (opened type (raw ++ xs) leaf ∷ stack) root

mark-Taken :
    (b : ℕ) (props rest raw : List ℕ) (type : ℕ) (stack : List Open) (root : Option Node)
    → Taken (escape_bytes props) rest (raw ++ escape ∷ b ∷ []) type stack root
    → Taken (escape ∷ b ∷ escape_bytes props) rest raw type stack root
unfolding add_bytes
mark-Taken b props rest raw type stack root ih =
    step_escape b (escape_bytes props ++ rest) (opened type raw leaf ∷ stack) root
    ∙ ih
    ∙ ap (λ xs. parse_loop rest (opened type xs leaf ∷ stack) root)
        (append_assoc raw (escape ∷ b ∷ []) (escape_bytes props))

plain-Taken :
    (b : ℕ) (props rest raw : List ℕ) (type : ℕ) (stack : List Open) (root : Option Node)
    → leb escape b ≡ false
    → Taken (escape_bytes props) rest (raw ++ b ∷ []) type stack root
    → Taken (b ∷ escape_bytes props) rest raw type stack root
unfolding add_bytes
plain-Taken b props rest raw type stack root plain ih =
    step_byte b (escape_bytes props ++ rest) (opened type raw leaf ∷ stack) root plain
    ∙ ih
    ∙ ap (λ xs. parse_loop rest (opened type xs leaf ∷ stack) root)
        (append_assoc raw (b ∷ []) (escape_bytes props))

pub props_lem :
    (props rest raw : List ℕ) (type : ℕ) (stack : List Open) (root : Option Node)
    → Taken (escape_bytes props) rest raw type stack root
unfolding escape_bytes
props_lem [] rest raw type stack root =
    ap (λ xs. parse_loop rest (opened type xs leaf ∷ stack) root) (sym (append-nil raw))
props_lem (b ∷ props) rest raw type stack root = elim (Bool-cases (leb escape b)) [
  | inl mark ↦
      subst (λ xs. Taken xs rest raw type stack root) (escape_mark b props mark)
        (mark-Taken b props rest raw type stack root
          (props_lem props rest (raw ++ escape ∷ b ∷ []) type stack root))
  | inr plain ↦
      subst (λ xs. Taken xs rest raw type stack root) (escape_plain b props plain)
        (plain-Taken b props rest raw type stack root plain
          (props_lem props rest (raw ++ b ∷ []) type stack root))
]

abbrev pub with_child : Open → Tree → Open
with_child o t = record o { children = child o.children (node_of t) }

pub body_assoc :
    (props : List ℕ) (ts : Trees) (rest : List ℕ)
    → (escape_bytes props ++ (encode_all ts ++ node_end ∷ [])) ++ rest
      ≡ escape_bytes props ++ (encode_all ts ++ node_end ∷ rest)
body_assoc props ts rest =
    append_assoc (escape_bytes props) (encode_all ts ++ node_end ∷ []) rest
    ∙ ap (λ xs. escape_bytes props ++ xs) (append_assoc (encode_all ts) (node_end ∷ []) rest)

-- A written tree is read as one more child of the current node.
mutual
  unfolding encode encode_all node_of nodes_of closed pop

  pub tree_lem :
      (t : Tree) (rest : List ℕ) (o : Open) (stack : List Open) (root : Option Node)
      → parse_loop (encode t ++ rest) (o ∷ stack) root
        ≡ parse_loop rest (with_child o t ∷ stack) root
  tree_lem (tree type props ts) rest o stack root =
      ap (λ xs. parse_loop (node_start ∷ type ∷ xs) (o ∷ stack) root) (body_assoc props ts rest)
      ∙ step_start type (escape_bytes props ++ (encode_all ts ++ node_end ∷ rest)) o stack root
      ∙ props_lem props (encode_all ts ++ node_end ∷ rest) [] type (o ∷ stack) root
      ∙ trees_lem ts (node_end ∷ rest) type (escape_bytes props) (o ∷ stack) root
      ∙ step_end rest (opened type (escape_bytes props) (nodes_of ts)) (o ∷ stack) root

  pub trees_lem :
      (ts : Trees) (rest : List ℕ) (type : ℕ) (raw : List ℕ) (stack : List Open)
      (root : Option Node)
      → parse_loop (encode_all ts ++ rest) (opened type raw leaf ∷ stack) root
        ≡ parse_loop rest (opened type raw (nodes_of ts) ∷ stack) root
  trees_lem no_trees rest type raw stack root = refl
  trees_lem (more ts t) rest type raw stack root =
      ap (λ xs. parse_loop xs (opened type raw leaf ∷ stack) root)
        (append_assoc (encode_all ts) (encode t) rest)
      ∙ trees_lem ts (encode t ++ rest) type raw stack root
      ∙ tree_lem t rest (opened type raw (nodes_of ts)) stack root
