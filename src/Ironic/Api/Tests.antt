-- ===== src/Ironic/Api/Tests.antt =====
-- The handlers of the API at concrete requests.
use auto_pxe.Prelude.{
  ℕ, ◌≡◌, refl, Bool, true, false, Option, none, some, List, [], ◌++◌, Returns, ◌∷◌, if◌then◌else◌,
  ◌&&◌, Text, codes, lookup, insert, text_eq, ◌=?◌, text_beq,
}
use auto_pxe.Node.{Node, State, new, deploying}
use auto_pxe.Node.Store.{Store}
use auto_pxe.Ironic.Api.{split_macs, uuid_of, handle_heartbeat}
use auto_pxe.Ironic.Api.Heartbeats
use auto_pxe.Ironic.{Server}
use auto_pxe.Ironic.Api.Requests
use auto_pxe.Ironic.Api.Requests.{Event, looks_up, beats, drives, acts, IsFilled}
use auto_pxe.Node.Driver
use auto_pxe.Node.Store.{new_store}
use auto_pxe.Node.Store.Sound.{IsSound, IsStable, new_store-IsSound}

split_macs_runs :
    split_macs (codes " aa:bb:cc:dd:ee:01, ,aa:bb:cc:dd:ee:02")
    ≡ codes "aa:bb:cc:dd:ee:01" ∷ codes "aa:bb:cc:dd:ee:02" ∷ []
unfolding split_macs
split_macs_runs = refl

abbrev path : Text
path = codes "/v1/heartbeat/01020304-0506/"

uuid_of_runs : uuid_of path ≡ codes "01020304-0506"
unfolding uuid_of
uuid_of_runs = refl

abbrev machine : Node
machine = record {
  uuid = codes "01020304-0506";
  macs = codes "aa:bb:cc:dd:ee:01" ∷ [];
  agent_token = [];
  hostname = [];
  state = new;
  callback_url = [];
  command_id = [];
  last_heartbeat = 0;
  driver_started = false;
}

abbrev store : Store
store = record {
  nodes = (machine.uuid, machine) ∷ [];
  mac_index = (codes "aa:bb:cc:dd:ee:01", machine.uuid) ∷ [];
}

heartbeat_starts : (handle_heartbeat 5 path (some (codes "http://a:9999/")) store).2 ≡ true
unfolding handle_heartbeat uuid_of lookup text_beq
heartbeat_starts = refl

handle_heartbeat-Counted_example :
    let r = handle_heartbeat 5 path (some (codes "http://a:9999/")) store in
    (r.2 ≡ true → Heartbeats.has_driver (lookup (uuid_of path) store.nodes) ≡ false)
    × ((u : Text)
        → Heartbeats.has_driver (lookup u r.0.nodes) ≡ (
            if uuid_of path =? u && r.2
            then true
            else Heartbeats.has_driver (lookup u store.nodes)))
handle_heartbeat-Counted_example =
    Heartbeats.handle_heartbeat-Counted 5 path (some (codes "http://a:9999/")) store

abbrev server : Server
server = record {
  deploy = record {
    image = codes "/srv/image.qcow2";
    image_type = codes "whole-disk";
    disk_format = codes "qcow2";
    root_mb = 0;
    root_gb = 0;
  };
  heartbeat_timeout = 300;
  hostnames = (codes "aa:bb:cc:dd:ee:01", codes "node-1") ∷ [];
  image_url = codes "http://192.168.100.1:8080/image";
  image_hash = codes "00ff";
}

abbrev bytes : List ℕ
bytes = 1 ∷ 2 ∷ 3 ∷ 4 ∷ 5 ∷ 6 ∷ 7 ∷ 8 ∷ 9 ∷ 10 ∷ 11 ∷ 12 ∷ 13 ∷ 14 ∷ 15 ∷ 16 ∷ []

abbrev uuid : Text
uuid = codes "01020304-0506-4708-890a-0b0c0d0e0f10"

-- A machine is looked up by two of its MACs, sends a heartbeat, and is being deployed.
abbrev events : List Event
events =
    looks_up bytes bytes (codes "aa:bb:cc:dd:ee:01,aa:bb:cc:dd:ee:02")
    ∷ beats 5 (codes "/v1/heartbeat/" ++ uuid) (some (codes "http://a:9999/"))
    ∷ drives uuid (Driver.moves new deploying)
    ∷ looks_up bytes bytes (codes "AA:BB:CC:DD:EE:02")
    ∷ []

abbrev driver_state : Option Store → Option (Text × State × Bool)
driver_state none = none
driver_state (some s) = elim (lookup uuid s.nodes) [
  | none ↦ none
  | some n ↦ some (n.hostname, n.state, n.driver_started)
]

acts_runs : driver_state (acts server events new_store) ≡ some (codes "node-1", deploying, true)
unfolding acts new_store insert text_beq uuid_of
acts_runs = refl

acts-Serves_example :
    Returns
      (λ s. IsSound s × IsStable new_store s × Requests.Serves server s)
      (acts server events new_store)
acts-Serves_example =
    Requests.acts-Serves server events new_store (refl, (tt, (tt, (refl, tt)))) new_store-IsSound
