-- ===== src/ConfigDrive.antt =====
-- internal/configdrive/configdrive.go: the config drive that a node's image is booted with. JSON, gzip,
-- base64, the file system and the programs that make an ISO image are in `Tools`; an error is `none`.
pub mod Files
pub mod Image
mod Tests
use auto_pxe.Prelude.{
  Bool, true, false, not, Option, none, some, List, [], ◌∷◌, ◌++◌, if◌then◌else◌, Text, codes,
  is_empty, text_eq, insert, ◌>>=◌,
}

-- A map from keys to texts, or from paths to contents.
abbrev pub Entries : Type 0
Entries = List (Text × Text)

-- What the calls come to. `make_iso` is the run of a program on the files of a directory: the image, or an error.
pub record Tools : Type 0 where
  pub marshal : Entries → Option Text
  pub makes_temp : Bool
  pub makes_dir : Text → Bool
  pub writes : Text → Bool
  pub finds : Text → Bool
  pub make_iso : Text → Entries → Option Text
  pub reads_iso : Bool
  pub gzip : Text → Option Text
  pub base64 : Text → Text

-- The loop over `extraMeta`.
unfoldable pub merge : Entries → Entries → Entries
unfolding insert
merge [] m = m
merge ((k, v) ∷ extra) m = merge extra (insert k v m)

unfoldable pub metadata : Text → Text → Entries → Entries
unfolding merge insert is_empty
metadata uuid hostname extra =
    let m = (codes "uuid", uuid) ∷ [] in
    merge extra (if is_empty hostname then m else insert (codes "hostname") hostname m)

unfoldable pub write_file : Tools → Text → Text → Entries → Option Entries
unfolding insert
write_file tools path content files =
    if tools.writes path then some (insert path content files) else none

-- A file that is only written if there is something to write.
unfoldable pub write_given : Tools → Text → Text → Entries → Option Entries
unfolding write_file is_empty
write_given tools path content files =
    if is_empty content then some files else write_file tools path content files

unfoldable pub version_path : Text → Text → Text
version_path version name = codes "openstack/" ++ (version ++ (codes "/" ++ name))

-- The body of the loop over the versions.
unfoldable pub write_version : Tools → Text → Text → Text → Text → Entries → Option Entries
unfolding write_file write_given
write_version tools meta user_data network_data version files =
    if tools.makes_dir version
    then (do
      f1 ← write_file tools (version_path version (codes "meta_data.json")) meta files
      f2 ← write_given tools (version_path version (codes "user_data")) user_data f1
      write_given tools (version_path version (codes "network_data.json")) network_data f2)
    else none

unfoldable pub write_versions : Tools → Text → Text → Text → List Text → Entries → Option Entries
unfolding write_version
write_versions tools meta user_data network_data [] files = some files
write_versions tools meta user_data network_data (v ∷ vs) files = do
  files' ← write_version tools meta user_data network_data v files
  write_versions tools meta user_data network_data vs files'

abbrev pub versions : List Text
versions = codes "2012-08-10" ∷ codes "latest" ∷ []

abbrev pub iso_tools : List Text
iso_tools = codes "genisoimage" ∷ codes "mkisofs" ∷ codes "xorrisofs" ∷ []

-- `buildISO`: the first program that is found is run, and its error is final.
unfoldable pub build_iso : Tools → List Text → Entries → Option Text
build_iso tools [] files = none
build_iso tools (t ∷ ts) files =
    let rest = build_iso tools ts files in if tools.finds t then tools.make_iso t files else rest

unfoldable pub encode : Tools → Text → Option Text
encode tools iso = if tools.reads_iso then (do z ← tools.gzip iso; some (tools.base64 z)) else none

-- `Generate`
unfoldable pub generate : Tools → Text → Text → Text → Entries → Text → Option Text
unfolding metadata write_versions build_iso encode
generate tools uuid hostname user_data extra network_data = do
  meta ← tools.marshal (metadata uuid hostname extra)
  files ←
      if tools.makes_temp
      then write_versions tools meta user_data network_data versions []
      else none
  iso ← build_iso tools iso_tools files
  encode tools iso
