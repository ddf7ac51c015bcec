-- ===== src/Ironic/Tests.antt =====
-- The deploy driver at a concrete node, and then the DHCP handler.
use auto_pxe.Prelude.{
  ◌≡◌, refl, true, none, some, [], ◌∷◌, arith, codes, Returns, any, is_empty, text_beq, to_lower,
  insert, ℕ, zero, suc, List, ◌+◌,
}
use auto_pxe.Storage.{Disk, document, all_well}
use auto_pxe.Node.{Node, new, done}
use auto_pxe.State
use auto_pxe.State.{Tracker}
use auto_pxe.Dhcp.{handle_packet}
use auto_pxe.Dhcp.Tests.{site, subnet, firmware, built}
use auto_pxe.Lease.Tests.{empty_disk, fresh, fresh-Inv}
use auto_pxe.Net.Mac.{mac_string}
use auto_pxe.Ironic.{Server, InstanceInfo}
use auto_pxe.Ironic.Deploy.{prepare_image, run, Agent, Driven, returned, drive_deploy, verdict}
use auto_pxe.Ironic.Deploy.{Poll}
use auto_pxe.Ironic.Deploy.Polling.{period}
use auto_pxe.Ironic.Deploy.Outcome
use auto_pxe.Ironic.Gate

abbrev server : Server
server = record {
  deploy = site.deploy;
  heartbeat_timeout = 300;
  hostnames = [];
  image_url = codes "http://192.168.100.1:8080/image";
  image_hash = [];
}

-- An error, a command that runs, and its end.
abbrev agent : Agent
agent = record {
  prepared = some (codes "4711");
  begun = 20;
  polls =
      record { status = none; checked = 5000000020 }
      ∷ record { status = some (codes "RUNNING"); checked = 10000000020 }
      ∷ record { status = some (codes "SUCCEEDED"); checked = 15000000020 }
      ∷ [];
  accepts_run = true;
}

-- Rounds at which the command runs on, from a clock.
waiting : ℕ → ℕ → List Poll
waiting zero at = []
waiting (suc k) at =
    record { status = some (codes "RUNNING"); checked = at } ∷ waiting k (at + period)

-- A command that never ends.
abbrev stuck : Agent
stuck = record agent { polls = waiting 1442 20 }

abbrev machine : Node
machine = record {
  uuid = codes "01020304-0506-4708-890a-0b0c0d0e0f10";
  macs = codes "aa:bb:cc:dd:ee:01" ∷ [];
  agent_token = [];
  hostname = [];
  state = new;
  callback_url = codes "http://192.168.100.100:9999";
  command_id = [];
  last_heartbeat = 1;
  driver_started = true;
}

abbrev tracker : Tracker
tracker = record {
  path = codes "/var/lib/autopxe/state.json";
  contents = record { version = 1; deployed = [] };
}

abbrev no_file : Disk State.FileFormat
no_file = record { file = none; tmp = none }

abbrev info : InstanceInfo
info = record {
  id = codes "img-01020304";
  urls = server.image_url ∷ [];
  image_type = [];
  disk_format = [];
  root_mb = 0;
  node_uuid = machine.uuid;
  os_hash_algo = none;
  os_hash_value = none;
}

abbrev contents : State.FileFormat
contents = record {
  version = 1;
  deployed =
      (codes "aa:bb:cc:dd:ee:01", record { uuid = machine.uuid; deployed_at = 7; image_hash = [] })
      ∷ [];
}

-- The node is done, and its MAC is recorded in memory and in the file.
abbrev finished : Driven
finished = record {
  node = record machine { state = done; command_id = codes "4711" };
  tracker = some (record tracker { contents = contents });
  disk = record { file = some (document contents); tmp = none };
  commands = prepare_image info [] ∷ run ∷ [];
}

drive_deploy_runs :
    drive_deploy 7 all_well server agent (some tracker) no_file [] machine ≡ returned finished
unfolding drive_deploy insert
drive_deploy_runs = refl

drive_deploy-HasPlainReply_example :
    Returns Gate.HasPlainReply
      (handle_packet built 9 all_well site finished.tracker firmware fresh empty_disk)
unfolding any verdict is_empty mac_string to_lower State.canon text_beq
drive_deploy-HasPlainReply_example =
    Gate.drive_deploy-HasPlainReply 7 all_well server agent tracker no_file [] machine finished
      built 9 site firmware subnet fresh empty_disk (omega arith) refl refl refl drive_deploy_runs
      refl refl refl fresh-Inv (omega arith)
