-- ===== src/Storage.antt =====
-- The calls by which the program replaces a file: `os.MkdirAll`, `os.WriteFile` of a temporary file
-- beside it, `os.Rename`. An `Io` says how the calls of one attempt end. A file holds a document of
-- the format `F`, which stands for its JSON text, or bytes that do not parse.
use auto_pxe.Prelude.{not, is_some, ◌&&◌, ◌≡◌, ◌≢◌, Bool, true, false, Option, none, some, arith}

pub data Content {ℓ} (F : Type ℓ) : Type ℓ where
  document : F → Content F
  garbage : Content F

pub record Disk {ℓ} (F : Type ℓ) : Type ℓ where
  pub file : Option (Content F)
  pub tmp : Option (Content F)

-- `unopened` leaves the temporary file as it was, `partial` leaves part of the text in it.
pub data Write : Type 0 where
  written unopened partial : Write

pub record Io : Type 0 where
  pub made_dir : Bool
  pub wrote : Write
  pub renamed : Bool

abbrev pub is_written : Write → Bool
is_written written = true
is_written _ = false

-- All three calls end well.
abbrev pub succeeds : Io → Bool
succeeds io = io.made_dir && (is_written io.wrote && io.renamed)

pub data IoError : Type 0 where
  mkdir_failed write_failed rename_failed : IoError

module _ {ℓ} {F : Type ℓ} where
  rename : Bool → F → Disk F → Disk F × Option IoError
  rename true f d = (record d { file = some (document f); tmp = none }, none)
  rename false f d = (record d { tmp = some (document f) }, some rename_failed)

  write_tmp : Io → Write → F → Disk F → Disk F × Option IoError
  unfolding rename
  write_tmp io unopened f d = (d, some write_failed)
  write_tmp io partial f d = (record d { tmp = some garbage }, some write_failed)
  write_tmp io written f d = rename io.renamed f d

  unfoldable pub replace : Io → F → Disk F → Disk F × Option IoError
  unfolding write_tmp
  replace io f d = elim io.made_dir [
    | true ↦ write_tmp io io.wrote f d
    | false ↦ (d, some mkdir_failed)
  ]

  -- Without an error the file holds the new document; with one it is as it was.
  pub replace_cases :
      (io : Io) (f : F) (d : Disk F)
      → ((replace io f d).1 ≡ none → (replace io f d).0.file ≡ some (document f))
        × ((replace io f d).1 ≢ none → (replace io f d).0.file ≡ d.file)
  unfolding replace
  replace_cases io f d = ground arith

  pub replace-error :
      (io : Io) (f : F) (d : Disk F) → is_some (replace io f d).1 ≡ not (succeeds io)
  unfolding replace
  replace-error io f d = ground arith

abbrev pub all_well : Io
all_well = record { made_dir = true; wrote = written; renamed = true }
