-- ===== src/Files/Loader.antt =====
-- OTB::Loader of src/fileloader.h and src/fileloader.cpp. A file is its list of bytes, which the
-- mapped file gives. A node's iterators propsBegin and propsEnd are kept as the bytes between
-- them. InvalidOTBFormat is none.
pub mod RoundTrip
pub mod Loading
use baiak_fonticak.Base.{ℕ, zero, suc, ◌+◌, ◌-◌, ◌*◌, ◌/◌, ◌%◌, ◌^◌, ◌≤◌, ◌<◌, min, max}
use baiak_fonticak.Base.{bit_and, bit_or, bit_xor, String, ◌≡◌, refl, sym, ap, ap₂, subst}
use baiak_fonticak.Base.{fun_ext, ◌∙◌, ◌≢◌, ◌↔◌, ◌⊎◌, inl, inr, Bool, true, false, not, ◌&&◌}
use baiak_fonticak.Base.{◌||◌, Option, none, some, option_map, List, [], ◌∷◌, ◌++◌, map}
use baiak_fonticak.Base.{append-nil, append_assoc, arith, str_eq, length, is_empty}
use baiak_fonticak.Base.{get_elem?, set, get_or, take, drop, length-append, take_prefix}
use baiak_fonticak.Base.{drop_prefix, take-append-drop, length-take-le, length-drop-le}
use baiak_fonticak.Base.{length-set, All, contains, erase_first, count, IsDistinct}
use baiak_fonticak.Base.{count-append, contains-iff-count, count-erase_first}
use baiak_fonticak.Base.{length-erase_first-le, same_bytes, same_bytes_self, same_bytes_lem}
use baiak_fonticak.Base.{ltb, leb, ◌==◌, ◌!=◌, if◌then◌else◌, ltb→lt, lt→ltb, leb→le, le→leb}
use baiak_fonticak.Base.{lt→leb_false, lt→ltb_false, ==_iff, ==_self, tests, Bool-cases}
use baiak_fonticak.Base.{Option-cases}

abbrev pub escape : ℕ
escape = 0xFD

abbrev pub node_start : ℕ
node_start = 0xFE

abbrev pub node_end : ℕ
node_end = 0xFF

mutual
  pub data Node : Type 0 where
    node : ℕ → List ℕ → Nodes → Node

  pub data Nodes : Type 0 where
    leaf : Nodes
    child : Nodes → Node → Nodes

-- A node on the stack: its type, the bytes of its properties so far, and its children, the last
-- one outermost.
pub record Open : Type 0 where
  pub type : ℕ
  pub props : List ℕ
  pub children : Nodes

abbrev pub has_children : Nodes → Bool
has_children leaf = false
has_children (child ns n) = true

-- Bytes that are no marks are properties of the current node until its first child begins.
unfoldable pub add_bytes : List ℕ → List Open → List Open
add_bytes bytes [] = []
add_bytes bytes (o ∷ stack) =
    record o { props = if has_children o.children then o.props else o.props ++ bytes } ∷ stack

unfoldable pub closed : Open → Node
closed o = node o.type o.props o.children

-- parseStack.pop() of a stack that is not empty: the stack, and the root once it is closed. A
-- node joins its parent's children here, since nothing looks at them while it is open.
unfoldable pub pop : Open → List Open → Option Node → List Open × Option Node
pop o [] root = ([], some (closed o))
pop o (parent ∷ stack) root =
    (record parent { children = child parent.children (closed o) } ∷ stack, root)

-- The loop of parseTree. The byte after START is a type, the one after ESCAPE is taken as it is.
unfoldable pub parse_loop : List ℕ → List Open → Option Node → Option Node
parse_loop [] [] root = root
parse_loop [] (o ∷ stack) root = none
parse_loop (b ∷ []) stack root = elim (b == node_start) [
  | true ↦ none
  | false ↦ elim (b == node_end) [
    | true ↦ elim stack [
      | [] ↦ none
      | o ∷ rest ↦ let popped = pop o rest root in parse_loop [] popped.0 popped.1
    ]
    | false ↦ if b == escape then none else parse_loop [] (add_bytes (b ∷ []) stack) root
  ]
]
parse_loop (b ∷ c ∷ bytes) stack root = elim (b == node_start) [
  | true ↦ elim stack [
    | [] ↦ none
    | o ∷ rest ↦ parse_loop bytes (record { type = c; props = []; children = leaf } ∷ o ∷ rest) root
  ]
  | false ↦ elim (b == node_end) [
    | true ↦ elim stack [
      | [] ↦ none
      | o ∷ rest ↦ let popped = pop o rest root in parse_loop (c ∷ bytes) popped.0 popped.1
    ]
    | false ↦ elim (b == escape) [
      | true ↦ parse_loop bytes (add_bytes (b ∷ c ∷ []) stack) root
      | false ↦ parse_loop (c ∷ bytes) (add_bytes (b ∷ []) stack) root
    ]
  ]
]

-- sizeof(Identifier) + sizeof(Node::START) + sizeof(Node::type) + sizeof(Node::END)
abbrev pub minimal_size : ℕ
minimal_size = 7

abbrev pub wildcard : List ℕ
wildcard = 0 ∷ 0 ∷ 0 ∷ 0 ∷ []

-- The constructor of Loader: whether the file may be parsed.
unfoldable pub is_accepted : List ℕ → List ℕ → Bool
is_accepted identifier contents =
    ltb minimal_size (length contents)
    && (same_bytes (take 4 contents) identifier || same_bytes (take 4 contents) wildcard)

-- The first node of what follows the identifier, and the loop from its first property on.
unfoldable pub parse_root : List ℕ → Option Node
parse_root (b ∷ type ∷ bytes) =
    if b == node_start
    then parse_loop bytes (record { type = type; props = []; children = leaf } ∷ []) none
    else none
parse_root bytes = none

unfoldable pub parse_tree : List ℕ → List ℕ → Option Node
parse_tree identifier contents =
    if is_accepted identifier contents then parse_root (drop 4 contents) else none

-- The copy_if of getProps; `last_escaped` is its captured flag.
unfoldable pub unescape : Bool → List ℕ → List ℕ
unescape last_escaped [] = []
unescape last_escaped (b ∷ bytes) =
    let escaped = b == escape && not last_escaped in
    let rest = unescape escaped bytes in if escaped then rest else b ∷ rest

abbrev pub raw_props : Node → List ℕ
raw_props (node type props children) = props

-- getProps: none where it returns false.
unfoldable pub get_props : Node → Option (List ℕ)
get_props n = if is_empty (raw_props n) then none else some (unescape false (raw_props n))
