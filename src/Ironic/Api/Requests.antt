-- ===== src/Ironic/Api/Requests.antt =====
-- The Ironic API over time: any sequence of requests, with the calls that the deploy drivers make on
-- their nodes in between.
use auto_pxe.Prelude.{
  ℕ, ◌≤◌, ◌≡◌, refl, sym, true, Option, none, some, List, [], ◌∷◌, Text, is_empty, length, lookup,
  insert, text_eq, Bool-cases, Option-cases, inl, inr, arith, All, Returns, Returns-bind,
  Returns-map, ◌>>=◌,
}
use mathlib.Core.Path.{subst}
use auto_pxe.Node.{Node, record_heartbeat}
use auto_pxe.Node.Driver
use auto_pxe.Node.Store.{Store, Lookup, canonical, first_indexed, get_by_uuid}
use auto_pxe.Node.Store.Sound.{IsSound, IsStable, IsFound, insert-IsSound, get_or_create-IsFound}
use auto_pxe.Ironic.{Server, InstanceInfo, instance_info}
use auto_pxe.Ironic.Api.{
  Answer, Response, refused, answered, answer_lookup, handle_lookup, handle_heartbeat, split_macs,
  beat, beat_found, uuid_of,
}

-- A lookup with its random bytes, a heartbeat, or a call that a driver makes on its node.
pub data Event : Type 0 where
  looks_up : List ℕ → List ℕ → Text → Event
  beats : ℕ → Text → Option Text → Event
  drives : Text → Driver.Call → Event

-- `rand.Read` fills the 16 bytes.
abbrev pub IsFilled : Event → Type 0
IsFilled (looks_up random random' addresses) = length random ≡ 16
IsFilled _ = Unit

drive : Text → Driver.Call → Store → Option Node → Store
unfolding Driver.step
drive uuid c s none = s
drive uuid c s (some n) = record s { nodes = insert uuid (Driver.step n c).0 s.nodes }

-- The store after an event; `none` is a panic.
unfoldable pub act : Server → Event → Store → Option Store
unfolding handle_lookup handle_heartbeat drive lookup
act server (looks_up random random' addresses) s = do
  r ← handle_lookup server random random' addresses s
  some r.0
act server (beats now path body) s = some (handle_heartbeat now path body s).0
act server (drives uuid c) s = some (drive uuid c s (lookup uuid s.nodes))

unfoldable pub acts : Server → List Event → Store → Option Store
unfolding act
acts server [] s = some s
acts server (e ∷ es) s = do s' ← act server e s; acts server es s'

-- The answer is about the node that the first of these MACs that is indexed leads to, from now on.
pub record IsAbout (server : Server) (macs : List Text) (s : Store) (a : Answer) : Type 0 where
  pub node : Node
  pub indexed : first_indexed (canonical macs) s.mac_index ≡ some a.uuid
  pub stored : lookup a.uuid s.nodes ≡ some node
  pub token : a.agent_token ≡ node.agent_token
  pub timeout : a.heartbeat_timeout ≡ server.heartbeat_timeout
  pub image : instance_info server a.uuid ≡ some a.instance_info

-- A request without a MAC is refused, and any other is answered.
abbrev pub IsAnswered : Server → Text → Store → Store × Response → Type 0
IsAnswered server addresses s (s', refused status) =
    (is_empty (canonical (split_macs addresses)) ≡ true) × (status ≡ 400) × (s' ≡ s)
IsAnswered server addresses s (s', answered a) = IsAbout server (split_macs addresses) s' a

step_uuid : (n : Node) (c : Driver.Call) → (Driver.step n c).0.uuid ≡ n.uuid
unfolding Driver.step
step_uuid n (Driver.heartbeat now url) = ground arith
step_uuid n (Driver.command id) = refl
step_uuid n (Driver.moves from to) = ground arith
step_uuid n (Driver.forces s) = refl

canonical-none : (ms : List Text) → is_empty ms ≡ true → is_empty (canonical ms) ≡ true
unfolding canonical is_empty
canonical-none [] e = refl
canonical-none (m ∷ ms) e = cc

canonical-unnamed :
    (addresses : Text)
    → is_empty addresses ≡ true
    → is_empty (canonical (split_macs addresses)) ≡ true
unfolding canonical split_macs is_empty
canonical-unnamed [] e = refl
canonical-unnamed (c ∷ cs) e = cc

module _ (server : Server) where
  instance_info-Returns :
      (u : Text) → 8 ≤ length u → (info : InstanceInfo) × (instance_info server u ≡ some info)
  unfolding instance_info
  instance_info-Returns u long = elim (Option-cases (instance_info server u)) [
    | inl e ↦ absurd (ground (arith, long, e))
    | inr found ↦ found
  ]

  answer_lookup-IsAnswered :
      (addresses : Text) (s : Store) (r : Lookup)
      → IsSound r.0
      → IsFound (split_macs addresses) s r
      → Returns (λ x. (x.0 ≡ r.0) × IsAnswered server addresses s x) (answer_lookup server r)
  unfolding answer_lookup get_by_uuid
  answer_lookup-IsAnswered addresses s (s', none, created) i f = (refl, (f.0, refl, f.1))
  answer_lookup-IsAnswered addresses s (s', some u, created) i f =
      let (first, n, at) = f in
      let (info, e) = instance_info-Returns u (i.keyed u n at).1 in
      rw (at, e)
        (
          refl,
          record {
            node = n;
            indexed = first;
            stored = at;
            token = refl;
            timeout = refl;
            image = e;
          },
        )

  refused-IsAnswered :
      (addresses : Text) (s : Store)
      → is_empty (canonical (split_macs addresses)) ≡ true
      → IsAnswered server addresses s (s, refused 400)
  refused-IsAnswered addresses s e = (e, refl, refl)

  -- How a lookup ends: the store stays sound, no MAC leads elsewhere, and there is an answer.
  abbrev pub IsLookedUp : Text → Store → Store × Response → Type 0
  IsLookedUp addresses s r = IsSound r.0 × IsStable s r.0 × IsAnswered server addresses s r

  found-IsLookedUp :
      (addresses : Text) (s : Store) (r : Lookup)
      → IsSound r.0 × IsStable s r.0 × IsFound (split_macs addresses) s r
      → Returns (IsLookedUp addresses s) (answer_lookup server r)
  found-IsLookedUp addresses s r g =
      Returns-map (λ x. (x.0 ≡ r.0) × IsAnswered server addresses s x) (IsLookedUp addresses s)
        (answer_lookup server r)
        (λ x h. (subst IsSound (sym h.0) g.0, subst (IsStable s) (sym h.0) g.1, h.1))
        (answer_lookup-IsAnswered addresses s r g.0 g.2)

  handle_lookup-IsLookedUp :
      (random random' : List ℕ) (addresses : Text) (s : Store)
      → length random ≡ 16
      → IsSound s
      → Returns (IsLookedUp addresses s) (handle_lookup server random random' addresses s)
  unfolding handle_lookup
  handle_lookup-IsLookedUp random random' addresses s filled i =
      elim (Bool-cases (is_empty addresses)) [
        | inl e ↦
            rw e (i, (λ m u h. h), refused-IsAnswered addresses s (canonical-unnamed addresses e))
        | inr e ↦ elim (Bool-cases (is_empty (split_macs addresses))) [
          | inl f ↦
              rw (e, f)
                (
                  i,
                  (λ m u h. h),
                  refused-IsAnswered addresses s (canonical-none (split_macs addresses) f),
                )
          | inr f ↦
              rw (e, f)
                (let g =
                    get_or_create-IsFound random random' server.hostnames s filled i
                      (split_macs addresses) in
                  found-IsLookedUp addresses s _ g)
        ]
      ]

  beat_found-IsSound :
      (now : ℕ) (uuid : Text) (body : Option Text) (s : Store) (o : Option Node)
      → lookup uuid s.nodes ≡ o
      → IsSound s
      → IsSound (beat_found now uuid body s o).0 × IsStable s (beat_found now uuid body s o).0
  unfolding beat_found beat record_heartbeat
  beat_found-IsSound now uuid body s none e i = (i, λ m u h. h)
  beat_found-IsSound now uuid none s (some n) e i = (i, λ m u h. h)
  beat_found-IsSound now uuid (some url) s (some n) e i =
      (insert-IsSound uuid n _ s e (ground arith) i, λ m u h. h)

  drive-IsSound :
      (uuid : Text) (c : Driver.Call) (s : Store) (o : Option Node)
      → lookup uuid s.nodes ≡ o
      → IsSound s
      → IsSound (drive uuid c s o) × IsStable s (drive uuid c s o)
  unfolding drive
  drive-IsSound uuid c s none e i = (i, λ m u h. h)
  drive-IsSound uuid c s (some n) e i = (insert-IsSound uuid n _ s e (step_uuid n c) i, λ m u h. h)

  handle_heartbeat-IsSound :
      (now : ℕ) (path : Text) (body : Option Text) (s : Store)
      → IsSound s
      → IsSound (handle_heartbeat now path body s).0
        × IsStable s (handle_heartbeat now path body s).0
  unfolding handle_heartbeat get_by_uuid
  handle_heartbeat-IsSound now path body s i = elim (Bool-cases (is_empty (uuid_of path))) [
    | inl e ↦ rw e (i, λ m u h. h)
    | inr e ↦ rw e (beat_found-IsSound now (uuid_of path) body s _ refl i)
  ]

  act-IsSound :
      (e : Event) (s : Store)
      → IsFilled e
      → IsSound s
      → Returns (λ s'. IsSound s' × IsStable s s') (act server e s)
  unfolding act
  act-IsSound (looks_up random random' addresses) s filled i =
      Returns-bind (IsLookedUp addresses s) (λ s'. IsSound s' × IsStable s s')
        (handle_lookup server random random' addresses s) (λ r. some r.0)
        (handle_lookup-IsLookedUp random random' addresses s filled i) (λ r h. (h.0, h.1))
  act-IsSound (beats now path body) s filled i = handle_heartbeat-IsSound now path body s i
  act-IsSound (drives uuid c) s filled i = drive-IsSound uuid c s _ refl i

  -- Whatever a lookup with 16 random bytes asks for, it is answered, and the store stays sound.
  abbrev pub Serves : Store → Type 0
  Serves s =
      (random random' : List ℕ) (addresses : Text)
      → length random ≡ 16
      → Returns (IsLookedUp addresses s) (handle_lookup server random random' addresses s)

  -- After any sequence of lookups, heartbeats and calls of the drivers on a store whose indexed MACs lead
  -- to nodes that stand under their UUIDs, each of eight bytes at least: there was no panic, the store is
  -- still such a store, and a MAC that led to a node leads to the same one. A lookup is then answered with
  -- the UUID, the token and the image of the node that the first indexed one of its MACs leads to, which
  -- is made if there is none; only a lookup without a MAC is refused.
  pub acts-Serves :
      (es : List Event) (s : Store)
      → All IsFilled es
      → IsSound s
      → Returns (λ s'. IsSound s' × IsStable s s' × Serves s') (acts server es s)
  unfolding acts
  acts-Serves [] s filled i = (
    i,
    (λ m u h. h),
    λ random random' addresses f. handle_lookup-IsLookedUp random random' addresses s f i,
  )
  acts-Serves (e ∷ es) s filled i =
      Returns-bind (λ s'. IsSound s' × IsStable s s') _ (act server e s) (acts server es)
        (act-IsSound e s filled.0 i)
        (λ s1 h1.
          Returns-map _ _ (acts server es s1)
            (λ s2 h2. (h2.0, (λ m u h. h2.1 m u (h1.1 m u h)), h2.2))
            (acts-Serves es s1 filled.1 h1.0))
