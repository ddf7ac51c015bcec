-- ===== src/Main.antt =====
-- cmd/autopxe/main.go: the start of the program, up to the servers. The answers of the operating system
-- and of the libraries are in `Environment`. `none` is a panic.
pub mod Serving
mod Tests
use auto_pxe.Prelude.{
  ℕ, Bool, true, false, not, Option, none, some, List, [], ◌∷◌, ◌++◌, if◌then◌else◌, Text, is_empty,
  ◌>>=◌, is_some,
}
use auto_pxe.Storage.{Disk, Io, IoError}
use auto_pxe.Config.{Config}
use auto_pxe.Config.Validate
use auto_pxe.Config.Validate.{Checked}
use auto_pxe.Lease
use auto_pxe.Lease.{Allocator}
use auto_pxe.Lease.Load
use auto_pxe.Lease.Load.{Result, new_allocator}
use auto_pxe.Lease.Freeing.{clear_lease_file}
use auto_pxe.Node.Store.{Store, new_store}
use auto_pxe.State
use auto_pxe.State.{Tracker, Record, Loaded, Saved, new_tracker, forget, forget_all, snapshot}
use auto_pxe.Http
use auto_pxe.Ironic
use auto_pxe.Dns
use auto_pxe.Download
use auto_pxe.Download.{Files, ensure_artifacts}

-- A read of the image, after the test of the context: the context is done, or the read gives some bytes
-- and goes on, has reached the end, or fails.
pub data Reading : Type 0 where
  cancelled : Reading
  more at_end read_error : Text → Reading

pub data Hashed : Type 0 where
  hash_failed : Hashed
  digest : Text → Hashed

-- `hashFileSHA256`, for the reads of the file that could be opened; `done` is what the hash has got. `none`
-- is a loop that goes on after the given reads.
unfoldable pub hash_reads : (Text → Text) → List Reading → Text → Option Hashed
hash_reads sha256 [] done = none
hash_reads sha256 (cancelled ∷ rs) done = some hash_failed
hash_reads sha256 (more bytes ∷ rs) done = hash_reads sha256 rs (done ++ bytes)
hash_reads sha256 (at_end bytes ∷ rs) done = some (digest (sha256 (done ++ bytes)))
hash_reads sha256 (read_error bytes ∷ rs) done = some hash_failed

unfoldable pub hash_file : (Text → Text) → Option (List Reading) → Option Hashed
unfolding hash_reads
hash_file sha256 none = some hash_failed
hash_file sha256 (some reads) = hash_reads sha256 reads []

pub record Flags : Type 0 where
  pub forget : Text
  pub forget_all : Bool
  pub list_deployed : Bool
  pub clear_leases : Bool

pub record Environment : Type 0 where
  pub now : ℕ
  pub document : Checked Config
  pub reads_leases : Bool
  pub reads_state : Bool
  pub io : Io
  pub download : Download.Environment
  pub sha256 : Text → Text
  pub image : Option (List Reading)
  pub reverse_addr : Text → Option Text
  pub sort : Dns.Sort

-- The files that the program owns.
pub record Disks : Type 0 where
  pub leases : Disk Lease.FileFormat
  pub state : Disk State.FileFormat
  pub files : Files

pub record Servers : Type 0 where
  pub cfg : Config
  pub leaser : Allocator
  pub tracker : Tracker
  pub store : Store
  pub http : Http.Server
  pub ironic : Ironic.Server
  pub dns : Dns.Server

-- How the start ends: `os.Exit(1)`, a return from `main`, with the records that it prints, or the servers run.
pub data Started : Type 0 where
  exited : Disks → Started
  finished : List (Text × Record) → Disks → Started
  serving : Disks → Servers → Started

-- A maintenance flag that changes the tracker's file.
unfoldable pub maintained : Disks → Disk State.FileFormat → Option IoError → Started
maintained d state none = finished [] (record d { state = state })
maintained d state (some e) = exited (record d { state = state })

-- `runMaintenance`; `none` where no flag asks for it.
unfoldable pub run_maintenance : Environment → Flags → Tracker → Disks → Option Started
unfolding maintained snapshot forget forget_all is_empty
run_maintenance env flags t d =
    if flags.list_deployed
    then some (finished (snapshot t) d)
    else if flags.forget_all
    then (let r = forget_all env.io t d.state in some (maintained d r.disk r.error))
    else if not (is_empty flags.forget)
    then (let r = (forget env.io flags.forget t d.state).0 in some (maintained d r.disk r.error))
    else none

unfoldable pub servers : Environment → Config → Tracker → Text → Allocator → Servers
unfolding Http.new_server Http.image_url Ironic.new_server Dns.new_server
servers env cfg t image_hash leaser =
    let http = Http.new_server cfg in
    record {
      cfg = cfg;
      leaser = leaser;
      tracker = t;
      store = new_store;
      http = http;
      ironic = Ironic.new_server cfg (Http.image_url http) image_hash;
      dns = Dns.new_server env.reverse_addr env.sort cfg;
    }

unfoldable pub after_allocator :
    Environment → Config → Tracker → Disks → Text → Result Allocator → Started
unfolding servers
after_allocator env cfg t d image_hash (Result.err e) = exited d
after_allocator env cfg t d image_hash (Result.ok a) = serving d (servers env cfg t image_hash a)

unfoldable pub after_hash : Environment → Config → Tracker → Disks → Hashed → Option Started
unfolding new_allocator after_allocator
after_hash env cfg t d hash_failed = some (exited d)
after_hash env cfg t d (digest image_hash) = do
  r ← new_allocator env.now env.reads_leases d.leases cfg.dhcp
  some (after_allocator env cfg t d image_hash r)

-- A hash of which the given reads do not see the end leaves the start without a result, as a panic does.
unfoldable pub after_artifacts :
    Environment → Config → Tracker → Disks → Option Download.Failure → Option Started
unfolding after_hash hash_file
after_artifacts env cfg t d (some e) = some (exited d)
after_artifacts env cfg t d none = do h ← hash_file env.sha256 env.image; after_hash env cfg t d h

unfoldable pub start : Environment → Config → Tracker → Disks → Option Started
unfolding ensure_artifacts after_artifacts
start env cfg t d =
    let r = ensure_artifacts env.download cfg.ipa d.files in
    after_artifacts env cfg t (record d { files = r.files }) r.error

unfoldable pub after_tracker : Environment → Flags → Config → Disks → Loaded → Option Started
unfolding run_maintenance start
after_tracker env flags cfg d (Loaded.err e) = some (exited d)
after_tracker env flags cfg d (Loaded.ok t) = elim (run_maintenance env flags t d) [
  | some r ↦ some r
  | none ↦ start env cfg t d
]

unfoldable pub cleared : Disks → Disk Lease.FileFormat × Option IoError → Started
cleared d (leases, none) = finished [] (record d { leases = leases })
cleared d (leases, some e) = exited (record d { leases = leases })

unfoldable pub after_config : Environment → Flags → Disks → Checked Config → Option Started
unfolding cleared clear_lease_file after_tracker new_tracker
after_config env flags d (Checked.err e) = some (exited d)
after_config env flags d (Checked.ok cfg) =
    if flags.clear_leases
    then some (cleared d (clear_lease_file env.io cfg.dhcp.lease_file d.leases))
    else after_tracker env flags cfg d (new_tracker env.reads_state d.state cfg.state_file)

-- `main`
unfoldable pub main : Environment → Flags → Disks → Option Started
unfolding after_config Validate.load
main env flags d = after_config env flags d (Validate.load env.document)
