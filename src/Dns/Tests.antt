-- ===== src/Dns/Tests.antt =====
-- The DNS server at work, with a sorting by insertion.
use auto_pxe.Prelude.{
  ◌≡◌, refl, nat_eq, text_eq, Bool, true, false, Option, none, some, List, [], ◌∷◌, Text, codes,
  if◌then◌else◌, ◌⊎◌, lookup, insert, text_beq, inl, inr,
}
use mathlib.Core.List.Memᴰ
use mathlib.Core.List.{Memᴰ}
use auto_pxe.Net.Ip.{v4}
use auto_pxe.Config.{Config}
use auto_pxe.Config.Tests.{loaded}
use auto_pxe.Lease.{Allocator}
use auto_pxe.State.{Tracker, is_deployed}
use auto_pxe.Lease.Tests.{fresh}
use auto_pxe.Dns.{
  WildcardEntry, Server, comes_before, new_server, upstreams_for, local_a, handle, Question,
  type_aaaa, forwarded, Reply, fqdn, is_set,
}
use auto_pxe.Dns.Sorting.{IsWeakOrder, IsSorted, IsSort}
use auto_pxe.Dns.Wildcards.{IsChoice}
use auto_pxe.Dns.Wildcards
use auto_pxe.Dns.Names
use auto_pxe.Dns.Answers

module _ (less : WildcardEntry → WildcardEntry → Bool) where
  -- Into a sorted list, before the first entry that does not come before it.
  unfoldable place : WildcardEntry → List WildcardEntry → List WildcardEntry
  place w [] = w ∷ []
  place w (x ∷ xs) = let rest = place w xs in if less x w then x ∷ rest else w ∷ x ∷ xs

  unfoldable sort : List WildcardEntry → List WildcardEntry
  unfolding place
  sort [] = []
  sort (w ∷ ws) = place w (sort ws)

  -- The members of the result, on both sides of the test.
  module _ (w v : WildcardEntry) (vs : List WildcardEntry) (x : WildcardEntry) where
    place-sound_cons :
        (b : Bool)
        → (Memᴰ x (place w vs) → Memᴰ x (w ∷ vs))
        → Memᴰ x (if b then v ∷ place w vs else w ∷ v ∷ vs)
        → Memᴰ x (w ∷ v ∷ vs)
    place-sound_cons false rec m = m
    place-sound_cons true rec m = elim (Memᴰ.cases_cons m) [
      | inl e ↦ Memᴰ.tail (Memᴰ.head e)
      | inr at ↦ elim (Memᴰ.cases_cons (rec at)) [
        | inl e ↦ Memᴰ.head e
        | inr deep ↦ Memᴰ.tail (Memᴰ.tail deep)
      ]
    ]

    place-complete_cons :
        (b : Bool)
        → (Memᴰ x (w ∷ vs) → Memᴰ x (place w vs))
        → Memᴰ x (w ∷ v ∷ vs)
        → Memᴰ x (if b then v ∷ place w vs else w ∷ v ∷ vs)
    place-complete_cons false rec m = m
    place-complete_cons true rec m = elim (Memᴰ.cases_cons m) [
      | inl e ↦ Memᴰ.tail (rec (Memᴰ.head e))
      | inr at ↦ elim (Memᴰ.cases_cons at) [
        | inl e ↦ Memᴰ.head e
        | inr deep ↦ Memᴰ.tail (rec (Memᴰ.tail deep))
      ]
    ]

  place-sound :
      (w : WildcardEntry) (ws : List WildcardEntry) (x : WildcardEntry)
      → Memᴰ x (place w ws)
      → Memᴰ x (w ∷ ws)
  unfolding place
  place-sound w [] x m = m
  place-sound w (v ∷ vs) x m = place-sound_cons w v vs x _ (place-sound w vs x) m

  place-complete :
      (w : WildcardEntry) (ws : List WildcardEntry) (x : WildcardEntry)
      → Memᴰ x (w ∷ ws)
      → Memᴰ x (place w ws)
  unfolding place
  place-complete w [] x m = m
  place-complete w (v ∷ vs) x m = place-complete_cons w v vs x _ (place-complete w vs x) m

  place-IsSorted :
      (w : WildcardEntry) (ws : List WildcardEntry)
      → IsWeakOrder less
      → IsSorted less ws
      → IsSorted less (place w ws)
  unfolding place
  place-IsSorted w [] o d = ((λ x m. absurd (Memᴰ.not-nil m)), tt)
  place-IsSorted w (v ∷ vs) o (top, d) = go (less v w) refl (place-IsSorted w vs o d)
    where
      go :
          (b : Bool)
          → less v w ≡ b
          → IsSorted less (place w vs)
          → IsSorted less (if b then v ∷ place w vs else w ∷ v ∷ vs)
      go true e rec = (
        (λ x m.
            Wildcards.member_cases {P = λ x. less x v ≡ false} w vs (o.asymmetric v w e) top x
              (place-sound w vs x m)),
        rec,
      )
      go false e rec = (
        Wildcards.member_cases {P = λ x. less x w ≡ false} v vs e
            (λ x m. o.transitive x v w (top x m) e),
        (top, d),
      )

  sort-IsSorted : (ws : List WildcardEntry) → IsWeakOrder less → IsSorted less (sort ws)
  unfolding sort
  sort-IsSorted [] o = tt
  sort-IsSorted (w ∷ ws) o = place-IsSorted w (sort ws) o (sort-IsSorted ws o)

  sort-sound : (ws : List WildcardEntry) (x : WildcardEntry) → Memᴰ x (sort ws) → Memᴰ x ws
  unfolding sort
  sort-sound [] x m = m
  sort-sound (w ∷ ws) x m = elim (Memᴰ.cases_cons (place-sound w (sort ws) x m)) [
    | inl e ↦ Memᴰ.head e
    | inr at ↦ Memᴰ.tail (sort-sound ws x at)
  ]

  sort-complete : (ws : List WildcardEntry) (x : WildcardEntry) → Memᴰ x ws → Memᴰ x (sort ws)
  unfolding sort
  sort-complete [] x m = m
  sort-complete (w ∷ ws) x m = place-complete w (sort ws) x (elim (Memᴰ.cases_cons m) [
    | inl e ↦ Memᴰ.head e
    | inr at ↦ Memᴰ.tail (sort-complete ws x at)
  ])

sort-IsSort : IsSort sort
sort-IsSort = record {
  ordered = λ less ws o. sort-IsSorted less ws o;
  sound = sort-sound;
  complete = sort-complete;
}

abbrev site : Config
site = record loaded {
  dns = record (loaded.dns) {
    wildcards =
        record { suffix = codes "corp.local"; upstream = codes "10.0.0.1" ∷ [] }
        ∷ record { suffix = codes ".dev.corp.local."; upstream = codes "10.0.0.2" ∷ [] }
        ∷ [];
    static =
        record { name = codes "Gate"; ip = codes "192.168.100.1"; parsed_ip = v4 192 168 100 1 }
        ∷ [];
  };
}

-- The reverse name of one address is known.
abbrev reverse_addr : Text → Option Text
reverse_addr s = none

abbrev server : Server
server = new_server reverse_addr sort site

longest_wins : upstreams_for (codes "git.dev.corp.local.") server ≡ codes "10.0.0.2:53" ∷ []
unfolding upstreams_for new_server sort comes_before
longest_wins = refl

upstreams_for-IsChoice_example :
    IsChoice
      (codes "git.dev.corp.local.")
      site.dns
      (upstreams_for (codes "git.dev.corp.local.") server)
upstreams_for-IsChoice_example =
    Wildcards.upstreams_for-IsChoice reverse_addr sort site (codes "git.dev.corp.local.")
      sort-IsSort

abbrev mac : Text
mac = codes "aa:bb:cc:dd:ee:01"

abbrev tracker : Tracker
tracker = record {
  path = [];
  contents = record {
    version = 1;
    deployed = (mac, record { uuid = codes "u-1"; deployed_at = 5; image_hash = [] }) ∷ [];
  };
}

-- The allocator that holds the binding's lease.
abbrev leaser : Allocator
leaser = record fresh {
  static =
      (
        mac,
        record {
          mac = mac;
          ip = v4 192 168 100 10;
          gateway = v4 192 168 100 1;
          dns = [];
          hostname = codes "node1";
          expires = 0;
          static = true;
        },
      )
      ∷ [];
}

local_a-Publishes_example :
    Names.IsStatic site.dns.domain site.dns.static (codes "node1.lab.local.") (v4 192 168 100 10)
    ⊎ ((is_set site.dns.register_deployed ≡ true)
        × Names.Publishes 5 tracker leaser site.dns.domain site.dhcp.static
            (codes "node1.lab.local.")
            (v4 192 168 100 10))
unfolding local_a new_server lookup is_deployed fqdn insert
local_a-Publishes_example =
    Names.local_a-Publishes reverse_addr sort site 5 tracker leaser (codes "node1.lab.local.")
      (v4 192 168 100 10) refl

-- Only the second upstream server answers.
abbrev exchange : Bool → Text → Option (Option Reply)
exchange tcp u =
    if text_beq u (codes "10.0.0.2:53")
    then some (some (record { id = 9; is_truncated = false; content = [] }))
    else none

abbrev question : Question
question = record { name = codes "git.dev.corp.local."; qtype = type_aaaa }

handle_forwards :
    handle reverse_addr exchange 5 tracker leaser server false true 7 (question ∷ [])
    ≡ forwarded (record { id = 7; is_truncated = false; content = [] }) ∷ []
unfolding handle new_server sort comes_before
handle_forwards = refl
