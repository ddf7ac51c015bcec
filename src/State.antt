-- ===== src/State.antt =====
-- internal/state/state.go: the tracker of the MACs that have been deployed, and its file.
pub mod Tracked
pub mod Refines
mod Tests
use auto_pxe.Prelude.{
  ℕ, Bool, true, false, Option, none, some, List, [], ◌∷◌, if◌then◌else◌, Text, to_lower,
  trim_space, is_empty, lookup, insert, delete, text_eq, is_some,
}
use auto_pxe.Net.Mac.{parse_mac, mac_string}
use auto_pxe.Storage.{Content, document, garbage, Disk, Io, IoError, replace}

pub record Record : Type 0 where
  pub uuid : Text
  pub deployed_at : ℕ
  pub image_hash : Text

pub record FileFormat : Type 0 where
  pub version : ℕ
  pub deployed : List (Text × Record)

pub record Tracker : Type 0 where
  pub path : Text
  pub contents : FileFormat

pub data LoadError : Type 0 where
  read_failed parse_failed : LoadError

pub data Loaded : Type 0 where
  ok : Tracker → Loaded
  err : LoadError → Loaded

abbrev pub current_version : ℕ
current_version = 1

-- Reading a file that exists may fail.
unfoldable pub load : Bool → Disk FileFormat → Tracker → Loaded
load false d t = err read_failed
load true d t = elim d.file [
  | none ↦ ok t
  | some garbage ↦ err parse_failed
  | some (document f) ↦ ok (record t { contents = f })
]

-- `New`
unfoldable pub new_tracker : Bool → Disk FileFormat → Text → Loaded
unfolding load
new_tracker readable d path =
    load readable d
      (record { path = path; contents = record { version = current_version; deployed = [] } })

-- The tracker and the disk after a call, and its error.
pub record Saved : Type 0 where
  pub tracker : Tracker
  pub disk : Disk FileFormat
  pub error : Option IoError

abbrev saved : Tracker → Disk FileFormat × Option IoError → Saved
saved t (d, e) = record { tracker = t; disk = d; error = e }

unfoldable pub save : Io → Tracker → Disk FileFormat → Saved
unfolding replace
save io t d = elim io.made_dir [
  | false ↦ saved t (replace io t.contents d)
  | true ↦
      let f : FileFormat = record (t.contents) { version = current_version } in
      saved (record t { contents = f }) (replace io f d)
]

unfoldable pub canon : Text → Text
unfolding parse_mac mac_string to_lower trim_space
canon mac = elim (parse_mac mac) [
  | some hw ↦ to_lower (mac_string hw)
  | none ↦ to_lower (trim_space mac)
]

-- `IsDeployed`
unfoldable pub is_deployed : Text → Tracker → Bool
unfolding canon
is_deployed mac t = is_some (lookup (canon mac) t.contents.deployed)

-- The loop of `MarkDeployed`.
unfoldable pub mark_all : List Text → Record → List (Text × Record) → List (Text × Record)
unfolding canon is_empty
mark_all [] rec m = m
mark_all (mac ∷ macs) rec m =
    mark_all macs rec (if is_empty (canon mac) then m else insert (canon mac) rec m)

abbrev pub with_deployed : Tracker → List (Text × Record) → Tracker
with_deployed t m = record t { contents = record { version = t.contents.version; deployed = m } }

-- `MarkDeployed`
unfoldable pub mark_deployed : ℕ → Io → List Text → Text → Text → Tracker → Disk FileFormat → Saved
unfolding mark_all save
mark_deployed now io macs uuid image_hash t d =
    let rec : Record = record { uuid = uuid; deployed_at = now; image_hash = image_hash } in
    save io (with_deployed t (mark_all macs rec t.contents.deployed)) d

unfoldable pub forget_found : Io → Text → Tracker → Disk FileFormat → Option Record → Saved × Bool
unfolding save
forget_found io c t d none = (record { tracker = t; disk = d; error = none }, false)
forget_found io c t d (some _) = (save io (with_deployed t (delete c t.contents.deployed)) d, true)

-- `Forget`: also whether the MAC was present.
unfoldable pub forget : Io → Text → Tracker → Disk FileFormat → Saved × Bool
unfolding canon forget_found
forget io mac t d = forget_found io (canon mac) t d (lookup (canon mac) t.contents.deployed)

-- `ForgetAll`
unfoldable pub forget_all : Io → Tracker → Disk FileFormat → Saved
unfolding save
forget_all io t d = save io (with_deployed t []) d

copy : List (Text × Record) → List (Text × Record) → List (Text × Record)
copy [] out = out
copy ((k, v) ∷ m) out = copy m (insert k v out)

-- `Snapshot`
unfoldable pub snapshot : Tracker → List (Text × Record)
unfolding copy
snapshot t = copy t.contents.deployed []
