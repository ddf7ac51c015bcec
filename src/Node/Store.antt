-- ===== src/Node/Store.antt =====
-- internal/node/store.go. A pointer to a node is its UUID, and the map of the nodes is their heap.
pub mod Index
pub mod Sound
use auto_pxe.Prelude.{
  ℕ, Bool, true, false, ◌&&◌, not, Option, none, some, List, [], ◌∷◌, ◌++◌, if◌then◌else◌, Text,
  to_lower, trim_space, is_empty, lookup, insert, text_eq, ◌>>=◌,
}
use auto_pxe.Net.Mac.{parse_mac, mac_string}
use auto_pxe.Node.{Node, new_node}

pub record Store : Type 0 where
  pub nodes : List (Text × Node)
  pub mac_index : List (Text × Text)

unfoldable pub new_store : Store
new_store = record { nodes = []; mac_index = [] }

-- `canonMAC`
unfoldable pub canon_mac : Text → Text
unfolding parse_mac mac_string to_lower trim_space
canon_mac s = elim (parse_mac s) [
  | some hw ↦ to_lower (mac_string hw)
  | none ↦ to_lower (trim_space s)
]

unfoldable pub get_by_uuid : Text → Store → Option Node
get_by_uuid uuid s = lookup uuid s.nodes

-- The loops over the MACs return at the first one that is indexed.
unfoldable pub first_indexed : List Text → List (Text × Text) → Option Text
first_indexed [] index = none
first_indexed (m ∷ ms) index = elim (lookup m index) [
  | some uuid ↦ some uuid
  | none ↦ first_indexed ms index
]

unfoldable pub find_by_macs : List Text → Store → Option Node
unfolding canon_mac
find_by_macs [] s = none
find_by_macs (m ∷ ms) s = elim (lookup (canon_mac m) s.mac_index) [
  | some uuid ↦ lookup uuid s.nodes
  | none ↦ find_by_macs ms s
]

-- The MACs of a request in canonical form, without those that are empty.
unfoldable pub canonical : List Text → List Text
unfolding canon_mac is_empty
canonical [] = []
canonical (m ∷ ms) =
    let rest = canonical ms in if is_empty (canon_mac m) then rest else canon_mac m ∷ rest

unfoldable pub hostname_for_macs : List Text → List (Text × Text) → Text
hostname_for_macs [] hostnames = []
hostname_for_macs (m ∷ ms) hostnames = elim (lookup m hostnames) [
  | some h ↦ h
  | none ↦ hostname_for_macs ms hostnames
]

unfoldable pub index_all : List Text → Text → List (Text × Text) → List (Text × Text)
index_all [] uuid index = index
index_all (m ∷ ms) uuid index = index_all ms uuid (insert m uuid index)

-- `s.nodes[uuid]` as a pointer: nil where there is no such node.
unfoldable pub pointer : Text → Store → Option Text
pointer uuid s = elim (lookup uuid s.nodes) [ some n ↦ some uuid | none ↦ none ]

-- The store, the node, and whether it was created.
abbrev pub Lookup : Type 0
Lookup = Store × Option Text × Bool

-- The rest of `GetOrCreate`, given the node that the first indexed MAC leads to.
unfoldable pub resolve :
    List ℕ → List ℕ → List Text → List (Text × Text) → Store → Option Text → Lookup
unfolding pointer new_node hostname_for_macs index_all
resolve random random' ms hostnames s (some uuid) = (s, pointer uuid s, false)
resolve random random' ms hostnames s none =
    let n = new_node random random' ms (hostname_for_macs ms hostnames) in
    (
      record { nodes = insert n.uuid n s.nodes; mac_index = index_all ms n.uuid s.mac_index },
      some n.uuid,
      true,
    )

-- `GetOrCreate`
unfoldable pub get_or_create : List ℕ → List ℕ → List Text → List (Text × Text) → Store → Lookup
unfolding canonical resolve first_indexed is_empty
get_or_create random random' macs hostnames s =
    let ms = canonical macs in
    if is_empty ms
    then (s, none, false)
    else resolve random random' ms hostnames s (first_indexed ms s.mac_index)
