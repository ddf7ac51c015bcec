-- ===== src/Download.antt =====
-- internal/ipadl/download.go: the agent's kernel and initramfs, from a tarball that is kept in a cache.
-- The answers of the operating system and of the web server are arguments, and so is the reading of a
-- tarball. A file is read at once.
pub mod Extraction
pub mod Artifacts
pub mod Tests
use auto_pxe.Prelude.{
  ℕ, ◌==◌, Bool, true, false, ◌&&◌, ◌||◌, not, Option, none, some, List, [], ◌∷◌, ◌++◌,
  if◌then◌else◌, Text, codes, is_empty, text_beq, text_eq, lookup, insert, delete, is_some,
  trim_suffix, trim_end, has_prefix, split, join, base,
}
use auto_pxe.Config.{IpaDownload, Ipa}
use auto_pxe.Tftp.{drop_last, clean_rooted}

-- The regular files by their path. What `os.Stat` does not find, or finds to be a directory, is absent.
abbrev pub Files : Type 0
Files = List (Text × Text)

unfoldable pub file_exists : Text → Files → Bool
unfolding lookup
file_exists p fs = is_some (lookup p fs)

ends_up : List Text → Bool
unfolding text_beq
ends_up [] = true
ends_up (p ∷ []) = text_beq p (codes "..")
ends_up (p ∷ q ∷ ps) = ends_up (q ∷ ps)

-- `path.Clean` of a relative path keeps the `..` that lead out of it.
next_relative : List Text → Text → List Text
unfolding is_empty text_beq ends_up
next_relative done p =
    if is_empty p || text_beq p (codes ".")
    then done
    else if text_beq p (codes "..") && not (ends_up done)
    then drop_last done
    else done ++ p ∷ []

resolve_relative : List Text → List Text → List Text
unfolding next_relative
resolve_relative done [] = done
resolve_relative done (p ∷ ps) = resolve_relative (next_relative done p) ps

unfoldable pub clean_path : Text → Text
unfolding resolve_relative clean_rooted has_prefix split join is_empty
clean_path s =
    let relative = join b'/' (resolve_relative [] (split b'/' s)) in
    if has_prefix (codes "/") s
    then clean_rooted s
    else if is_empty relative
    then codes "."
    else relative

-- `filepath.Join`, where the second part is not empty.
unfoldable pub join_path : Text → Text → Text
unfolding clean_path is_empty
join_path dir name = clean_path (if is_empty dir then name else dir ++ b'/' ∷ name)

-- How writing a stream to the temporary file and renaming it ends: the file cannot be created; the copy
-- or the closing fails after a part of the stream, and removing that part succeeds or fails; the renaming
-- fails; or all is well.
pub data Copying : Type 0 where
  uncreated : Copying
  broken : Text → Bool → Copying
  unrenamed copied : Copying

abbrev pub part : Text → Text
part dest = dest ++ codes ".part"

-- `copyToFile`: the files, and whether there was no error.
unfoldable pub copy_to_file : Copying → Text → Text → Files → Files × Bool
unfolding insert delete
copy_to_file uncreated content dest fs = (fs, false)
copy_to_file (broken written removed) content dest fs =
    (if removed then delete (part dest) fs else insert (part dest) written fs, false)
copy_to_file unrenamed content dest fs = (insert (part dest) content fs, false)
copy_to_file copied content dest fs = (insert dest content (delete (part dest) fs), true)

-- The request fails, or there is a response with a status and a body.
pub data Fetch : Type 0 where
  unanswered : Fetch
  answered : ℕ → Text → Copying → Fetch

-- `downloadFile`
unfoldable pub download_file : Fetch → Text → Files → Files × Bool
unfolding copy_to_file
download_file unanswered dest fs = (fs, false)
download_file (answered status body copying) dest fs =
    if status == 200 then copy_to_file copying body dest fs else (fs, false)

-- An entry of a tarball, with how copying it ends.
pub record Entry : Type 0 where
  pub name : Text
  pub is_regular : Bool
  pub content : Text
  pub copying : Copying

-- The entries that can be read, and whether the archive ends after them, or else cannot be read further.
pub record Archive : Type 0 where
  pub entries : List Entry
  pub is_complete : Bool

pub data ExtractError : Type 0 where
  unopened unreadable uncopied kernel_missing initramfs_missing : ExtractError

pub record Progress : Type 0 where
  pub files : Files
  pub got_kernel : Bool
  pub got_initramfs : Bool

-- After an entry the loop goes on, or it has both files, or a copy has failed.
pub data Turn : Type 0 where
  next complete : Progress → Turn
  failed : Files → Turn

-- The wanted names, and where the two files go.
pub record Wanted : Type 0 where
  pub kernel : Text
  pub initramfs : Text
  pub kernel_dest : Text
  pub initramfs_dest : Text

unfoldable pub checked_turn : Progress → Turn
checked_turn s = if s.got_kernel && s.got_initramfs then complete s else next s

unfoldable pub copied_turn : Files × Bool → (Files → Progress) → Turn
unfolding checked_turn
copied_turn (fs, ok) arrived = if ok then checked_turn (arrived fs) else failed fs

-- The body of the loop.
unfoldable pub turn : Wanted → Entry → Progress → Turn
unfolding copied_turn checked_turn copy_to_file base text_beq
turn w e s =
    if not e.is_regular
    then next s
    else if text_beq (base e.name) w.kernel
    then copied_turn (copy_to_file e.copying e.content w.kernel_dest s.files)
        (λ fs. record s { files = fs; got_kernel = true })
    else if text_beq (base e.name) w.initramfs
    then copied_turn (copy_to_file e.copying e.content w.initramfs_dest s.files)
        (λ fs. record s { files = fs; got_initramfs = true })
    else checked_turn s

pub record Extracted : Type 0 where
  pub files : Files
  pub error : Option ExtractError

-- The tests after the loop.
unfoldable pub finish : Progress → Extracted
finish s = record {
  files = s.files;
  error =
      if not s.got_kernel
      then some kernel_missing
      else if not s.got_initramfs
      then some initramfs_missing
      else none;
}

unfoldable pub extract_entries : Wanted → Bool → List Entry → Progress → Extracted
unfolding turn finish
extract_entries w is_complete [] s =
    if is_complete then finish s else record { files = s.files; error = some unreadable }
extract_entries w is_complete (e ∷ es) s = elim (turn w e s) [
  | next s' ↦ extract_entries w is_complete es s'
  | complete s' ↦ finish s'
  | failed fs ↦ record { files = fs; error = some uncopied }
]

-- `extractKernelInitramfs`, of the archive that the tarball holds, if it can be opened.
unfoldable pub extract : Wanted → Option Archive → Files → Extracted
unfolding extract_entries
extract w none fs = record { files = fs; error = some unopened }
extract w (some a) fs =
    extract_entries w a.is_complete a.entries
      (record { files = fs; got_kernel = false; got_initramfs = false })

pub data Failure : Type 0 where
  mkdir_failed download_failed : Failure
  extract_failed : ExtractError → Failure

-- What the calls of the operating system come to: the making of the three directories, the answer of a
-- web server to a request for an URL, and the reading of a tarball.
pub record Environment : Type 0 where
  pub made_cache : Bool
  pub made_kernel_dir : Bool
  pub made_initramfs_dir : Bool
  pub fetch : Text → Fetch
  pub untar : Text → Option Archive

unfoldable pub prefix : IpaDownload → Text
prefix dl = codes "ipa-" ++ (dl.flavor ++ (codes "-" ++ dl.branch))

unfoldable pub tarball_name : IpaDownload → Text
unfolding prefix
tarball_name dl = prefix dl ++ codes ".tar.gz"

unfoldable pub tarball_url : IpaDownload → Text
unfolding tarball_name trim_end
tarball_url dl = trim_end b'/' dl.base_uri ++ (codes "/" ++ tarball_name dl)

unfoldable pub tarball_path : IpaDownload → Text
unfolding join_path tarball_name
tarball_path dl = join_path dl.cache_dir (tarball_name dl)

unfoldable pub wanted : Ipa → Wanted
unfolding tarball_name trim_suffix
wanted ipa =
    let stem = trim_suffix (codes ".tar.gz") (tarball_name ipa.download) in
    record {
      kernel = stem ++ codes ".kernel";
      initramfs = stem ++ codes ".initramfs";
      kernel_dest = ipa.kernel;
      initramfs_dest = ipa.initramfs;
    }

-- The tarball is downloaded unless it is in the cache.
unfoldable pub cached : Environment → Ipa → Files → Files × Bool
unfolding file_exists download_file tarball_path tarball_url
cached env ipa fs =
    if file_exists (tarball_path ipa.download) fs
    then (fs, true)
    else download_file (env.fetch (tarball_url ipa.download)) (tarball_path ipa.download) fs

abbrev pub opened : Environment → Option Text → Option Archive
opened env none = none
opened env (some content) = env.untar content

pub record Ensured : Type 0 where
  pub files : Files
  pub error : Option Failure

abbrev pub extract_failure : Option ExtractError → Option Failure
extract_failure none = none
extract_failure (some e) = some (extract_failed e)

unfoldable pub extract_cached : Environment → Ipa → Files × Bool → Ensured
unfolding extract wanted tarball_path lookup
extract_cached env ipa (fs, false) = record { files = fs; error = some download_failed }
extract_cached env ipa (fs, true) =
    let r = extract (wanted ipa) (opened env (lookup (tarball_path ipa.download) fs)) fs in
    record { files = r.files; error = extract_failure r.error }

-- `EnsureArtifacts`
unfoldable pub ensure_artifacts : Environment → Ipa → Files → Ensured
unfolding file_exists extract_cached cached
ensure_artifacts env ipa fs =
    if file_exists ipa.kernel fs && file_exists ipa.initramfs fs
    then record { files = fs; error = none }
    else if not (env.made_cache && (env.made_kernel_dir && env.made_initramfs_dir))
    then record { files = fs; error = some mkdir_failed }
    else extract_cached env ipa (cached env ipa fs)
