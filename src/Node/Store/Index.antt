-- ===== src/Node/Store/Index.antt =====
-- internal/node/store.go: every MAC of a request leads to one node, now and later.
use auto_pxe.Prelude.{
  ℕ, true, false, ◌≡◌, refl, Option, none, some, List, [], ◌∷◌, if◌then◌else◌, Text, is_empty,
  lookup, insert, text_eq, text_beq_iff, lookup-insert, lookup-insert_self, Bool-cases,
  Option-cases, inl, inr, arith, ◌=?◌, any,
}
use auto_pxe.Node.{Node, new_node, new_uuid}
use auto_pxe.Node.Store.{
  Store, first_indexed, canonical, index_all, resolve, get_or_create, hostname_for_macs, new_store,
}

-- Every indexed MAC leads to a node of the store.
pub record IsIndexed (s : Store) : Type 0 where
  pub reaches :
      (m : Text) (u : Text)
      → lookup m s.mac_index ≡ some u
      → (n : Node) × (lookup u s.nodes ≡ some n)

pub new_store-IsIndexed : IsIndexed new_store
unfolding new_store lookup
new_store-IsIndexed = record { reaches = λ m u h. absurd (ground arith) }

-- Each MAC of the list is indexed with the node `u`, and no other MAC changes.
pub lookup-index_all :
    (ms : List Text) (u m : Text) (index : List (Text × Text))
    → lookup m (index_all ms u index) ≡ (if any (λ k. k =? m) ms then some u else lookup m index)
unfolding index_all any
lookup-index_all [] u m index = refl
lookup-index_all (k ∷ ms) u m index =
    ground (arith, lookup-index_all ms u m (insert k u index), lookup-insert k m u index)

pub first_indexed_found :
    (ms : List Text) (index : List (Text × Text)) {u : Text}
    → first_indexed ms index ≡ some u
    → (m : Text) × (lookup m index ≡ some u)
unfolding first_indexed
first_indexed_found [] index h = cc
first_indexed_found (m ∷ ms) index h = elim (Option-cases (lookup m index)) [
  | inl e ↦ first_indexed_found ms index (ground arith)
  | inr (v, e) ↦ (m, ground arith)
]

pub first_indexed_all :
    (ms : List Text) (index : List (Text × Text)) (u : Text)
    → is_empty ms ≡ false
    → ((m : Text) → any (λ k. k =? m) ms ≡ true → lookup m index ≡ some u)
    → first_indexed ms index ≡ some u
unfolding first_indexed any is_empty
first_indexed_all [] index u e h = cc
first_indexed_all (m ∷ ms) index u e h = ground (arith, h m, (text_beq_iff m m).1 refl)

-- A node that is put into the store hides none.
pub insert-reaches :
    (u v : Text) (n' n : Node) (nodes : List (Text × Node))
    → lookup v nodes ≡ some n
    → (k : Node) × (lookup v (insert u n' nodes) ≡ some k)
insert-reaches u v n' n nodes old = elim (Bool-cases (u =? v)) [
  | inl same ↦ (n', ground (arith, lookup-insert u v n' nodes))
  | inr apart ↦ (n, ground (arith, lookup-insert u v n' nodes))
]

module _ (random random' : List ℕ) (hostnames : List (Text × Text)) (s : Store) where
  abbrev created : List Text → Node
  created ms = new_node random random' ms (hostname_for_macs ms hostnames)

  pub resolve-IsIndexed :
      (ms : List Text) (o : Option Text)
      → IsIndexed s
      → IsIndexed (resolve random random' ms hostnames s o).0
  unfolding resolve
  resolve-IsIndexed ms (some u) i = i
  resolve-IsIndexed ms none i = record {
    reaches = λ m u h. elim (Bool-cases (any (λ k. k =? m) ms)) [
      | inl mine ↦ (
        created ms,
        ground (
          arith,
          lookup-index_all ms (new_uuid random) m s.mac_index,
          lookup-insert_self u (created ms) s.nodes,
        ),
      )
      | inr other ↦
          let (n, old) =
            i.reaches m u (ground (arith, lookup-index_all ms (new_uuid random) m s.mac_index)) in
          insert-reaches (new_uuid random) u (created ms) n s.nodes old
    ];
  }

  -- The node that was made for `ms` is found by any of these MACs.
  resolve-shared :
      (ms ms' : List Text)
      → is_empty ms' ≡ false
      → ((m : Text) → any (λ k. k =? m) ms' ≡ true → any (λ k. k =? m) ms ≡ true)
      → first_indexed ms' (resolve random random' ms hostnames s none).0.mac_index
        ≡ some (new_uuid random)
  unfolding resolve
  resolve-shared ms ms' some_given within =
      first_indexed_all ms' (index_all ms (new_uuid random) s.mac_index) (new_uuid random)
        some_given
        λ m h. ground (arith, within m, lookup-index_all ms (new_uuid random) m s.mac_index)

-- A request whose MACs are not indexed, one of them not empty, makes a node. A next request with some
-- of these MACs, and no other, gets that node, and leaves the store as it is.
pub get_or_create-shared :
    (random random' random2 random2' : List ℕ) (macs macs' : List Text)
    (hostnames hostnames' : List (Text × Text)) (s : Store)
    → first_indexed (canonical macs) s.mac_index ≡ none
    → is_empty (canonical macs) ≡ false
    → is_empty (canonical macs') ≡ false
    → ((m : Text)
        → any (λ k. k =? m) (canonical macs') ≡ true
        → any (λ k. k =? m) (canonical macs) ≡ true)
    → let r = get_or_create random random' macs hostnames s in
      (r.1 ≡ some (new_uuid random))
      × (r.2 ≡ true)
      × (get_or_create random2 random2' macs' hostnames' r.0 ≡ (r.0, r.1, false))
unfolding get_or_create
get_or_create-shared random random' random2 random2' macs macs' hostnames hostnames' s fresh given
      given' within =
    rw (given, fresh)
      (
        refl,
        refl,
        rw
            (
              given',
              resolve-shared random random' hostnames s (canonical macs) (canonical macs') given'
                  within,
            )
            (ground (
              arith,
              lookup-insert_self (new_uuid random)
                  (created random random' hostnames s (canonical macs)) s.nodes,
            )),
      )
