-- ===== src/Node/Store/Sound.antt =====
-- internal/node/store.go: what every store has that the API builds, and what no call takes away.
use auto_pxe.Prelude.{
  ℕ, ◌≤◌, ◌≡◌, refl, sym, ap, ◌∙◌, true, false, Option, none, some, List, [], ◌∷◌, Text, is_empty,
  length, lookup, insert, text_eq, text_beq_iff, lookup-insert, lookup-insert_self, Bool-cases, inl,
  inr, arith, ◌=?◌, any,
}
use mathlib.Core.Path.{subst}
use auto_pxe.Node.{Node, new_node, new_uuid}
use auto_pxe.Node.Store.{
  Store, Lookup, first_indexed, canonical, pointer, resolve, get_or_create, hostname_for_macs,
  new_store,
}
use auto_pxe.Node.Store.Index.{
  IsIndexed, lookup-index_all, first_indexed_found, first_indexed_all, resolve-IsIndexed,
  insert-reaches, new_store-IsIndexed,
}

-- A node stands under its UUID, which is long enough for `instanceInfo`.
abbrev IsKeyed : List (Text × Node) → Type 0
IsKeyed nodes = (u : Text) (n : Node) → lookup u nodes ≡ some n → (n.uuid ≡ u) × (8 ≤ length u)

insert-IsKeyed :
    (u : Text) (n' : Node) (nodes : List (Text × Node))
    → n'.uuid ≡ u
    → 8 ≤ length u
    → IsKeyed nodes
    → IsKeyed (insert u n' nodes)
insert-IsKeyed u n' nodes same long k v n h = elim (Bool-cases (u =? v)) [
  | inl e ↦
      let at : u ≡ v = (text_beq_iff u v).0 e in
      let is : n' ≡ n = ground (arith, lookup-insert u v n' nodes) in
      (ap (λ m. m.uuid) (sym is) ∙ (same ∙ at), rw (sym at) long)
  | inr e ↦ k v n (ground (arith, lookup-insert u v n' nodes))
]

pub record IsSound (s : Store) : Type 0 where
  pub indexed : IsIndexed s
  pub keyed : IsKeyed s.nodes

-- A MAC that leads to a node goes on leading to it.
abbrev pub IsStable : Store → Store → Type 0
IsStable s s' = (m u : Text) → lookup m s.mac_index ≡ some u → lookup m s'.mac_index ≡ some u

pub new_store-IsSound : IsSound new_store
unfolding new_store lookup
new_store-IsSound = record { indexed = new_store-IsIndexed; keyed = λ u n h. absurd (ground arith) }

-- A node that is changed in its place.
pub insert-IsSound :
    (u : Text) (n n' : Node) (s : Store)
    → lookup u s.nodes ≡ some n
    → n'.uuid ≡ n.uuid
    → IsSound s
    → IsSound (record s { nodes = insert u n' s.nodes })
insert-IsSound u n n' s at same i = record {
  indexed = record {
    reaches =
        λ m v h. let (k, old) = i.indexed.reaches m v h in insert-reaches u v n' k s.nodes old;
  };
  keyed = insert-IsKeyed u n' s.nodes (same ∙ (i.keyed u n at).0) (i.keyed u n at).1 i.keyed;
}

length-new_uuid : (random : List ℕ) → length random ≡ 16 → 8 ≤ length (new_uuid random)
unfolding new_uuid
length-new_uuid (a ∷ b ∷ c ∷ d ∷ rest) h = omega arith
length-new_uuid [] h = absurd (omega (arith, h))
length-new_uuid (a ∷ []) h = absurd (omega (arith, h))
length-new_uuid (a ∷ b ∷ []) h = absurd (omega (arith, h))
length-new_uuid (a ∷ b ∷ c ∷ []) h = absurd (omega (arith, h))

first_indexed-none :
    (ms : List Text) (index : List (Text × Text)) (m : Text)
    → first_indexed ms index ≡ none
    → any (λ k. k =? m) ms ≡ true
    → lookup m index ≡ none
unfolding first_indexed any
first_indexed-none [] index m e h = cc
first_indexed-none (k ∷ ms) index m e h =
    ground (arith, text_beq_iff k m, first_indexed-none ms index m)

-- What `GetOrCreate` has found or made: a node that the first indexed MAC leads to now, or nothing where
-- there is no MAC.
abbrev pub IsFound : List Text → Store → Lookup → Type 0
IsFound macs s (s', none, created) = (is_empty (canonical macs) ≡ true) × (s' ≡ s)
IsFound macs s (s', some uuid, created) =
    (first_indexed (canonical macs) s'.mac_index ≡ some uuid)
    × (n : Node) × (lookup uuid s'.nodes ≡ some n)

module _ (random random' : List ℕ) (hostnames : List (Text × Text)) (s : Store)
    (filled : length random ≡ 16) (i : IsSound s) where
  abbrev made : List Text → Node
  made ms = new_node random random' ms (hostname_for_macs ms hostnames)

  resolve-IsSound :
      (ms : List Text) (o : Option Text) → IsSound (resolve random random' ms hostnames s o).0
  unfolding resolve
  resolve-IsSound ms (some u) = i
  resolve-IsSound ms none = record {
    indexed = resolve-IsIndexed random random' hostnames s ms none i.indexed;
    keyed =
        insert-IsKeyed (new_uuid random) (made ms) s.nodes refl (length-new_uuid random filled)
          i.keyed;
  }

  resolve-IsStable :
      (ms : List Text) (o : Option Text)
      → first_indexed ms s.mac_index ≡ o
      → IsStable s (resolve random random' ms hostnames s o).0
  unfolding resolve
  resolve-IsStable ms (some u) e = λ m v h. h
  resolve-IsStable ms none e = λ m v h. ground (
    arith,
    lookup-index_all ms (new_uuid random) m s.mac_index,
    first_indexed-none ms s.mac_index m e,
  )

  resolve-IsFound :
      (macs : List Text) (o : Option Text)
      → is_empty (canonical macs) ≡ false
      → first_indexed (canonical macs) s.mac_index ≡ o
      → IsFound macs s (resolve random random' (canonical macs) hostnames s o)
  unfolding resolve pointer
  resolve-IsFound macs (some u) given e =
      let (m, at) = first_indexed_found (canonical macs) s.mac_index e in
      let (n, there) = i.indexed.reaches m u at in
      let found : pointer u s ≡ some u = ground (arith, there) in
      subst (λ p. IsFound macs s (s, p, false)) (sym found) (e, n, there)
  resolve-IsFound macs none given e = (
    first_indexed_all (canonical macs) _ (new_uuid random) given
        (λ m h. ground (arith, lookup-index_all (canonical macs) (new_uuid random) m s.mac_index)),
    made (canonical macs),
    lookup-insert_self (new_uuid random) (made (canonical macs)) s.nodes,
  )

  -- With 16 random bytes and a sound store.
  pub get_or_create-IsFound :
      (macs : List Text)
      → let r = get_or_create random random' macs hostnames s in
        IsSound r.0 × IsStable s r.0 × IsFound macs s r
  unfolding get_or_create
  get_or_create-IsFound macs = elim (Bool-cases (is_empty (canonical macs))) [
    | inl e ↦ rw e (i, (λ m u h. h), (e, refl))
    | inr e ↦ rw e (
      resolve-IsSound (canonical macs) _,
      resolve-IsStable (canonical macs) _ refl,
      resolve-IsFound macs _ e refl,
    )
  ]
