-- ===== src/Tftp.antt =====
-- internal/tftp/server.go: the names that the server serves. The files are a parameter, and so is the
-- transfer of one.
pub mod Paths
pub mod Tests
use auto_pxe.Prelude.{
  ℕ, Bool, true, false, ◌||◌, Option, none, some, List, [], ◌∷◌, ◌++◌, if◌then◌else◌, Text, codes,
  is_empty, text_beq, has_byte, has_prefix, trim_prefix, split, join,
}

-- `path.Clean` keeps no empty part and no `.`, and a `..` takes the last part away.
abbrev pub drop_last : List Text → List Text
drop_last [] = []
drop_last (p ∷ []) = []
drop_last (p ∷ q ∷ ps) = p ∷ drop_last (q ∷ ps)

unfoldable pub next_part : List Text → Text → List Text
unfolding is_empty text_beq
next_part done p =
    if is_empty p || text_beq p (codes ".")
    then done
    else if text_beq p (codes "..")
    then drop_last done
    else done ++ p ∷ []

unfoldable pub resolve : List Text → List Text → List Text
unfolding next_part
resolve done [] = done
resolve done (p ∷ ps) = resolve (next_part done p) ps

-- `path.Clean` of a rooted path.
unfoldable pub clean_rooted : Text → Text
unfolding resolve split join
clean_rooted s = b'/' ∷ join b'/' (resolve [] (split b'/' s))

pub data Sanitized : Type 0 where
  empty_filename invalid_filename path_traversal : Sanitized
  clean : Text → Sanitized

unfoldable pub checked : Text → Sanitized
unfolding is_empty text_beq has_prefix
checked name =
    if is_empty name || text_beq name (codes ".") || has_prefix (codes "..") name
    then path_traversal
    else clean name

unfoldable pub sanitize : Text → Sanitized
unfolding is_empty has_byte clean_rooted trim_prefix checked
sanitize name =
    if is_empty name
    then empty_filename
    else if has_byte 0 name
    then invalid_filename
    else checked (trim_prefix (codes "/") (clean_rooted (b'/' ∷ name)))

-- How a read request ends: the bytes sent, on an error as well.
pub data Outcome : Type 0 where
  rejected : Sanitized → Outcome
  not_found : Text → Outcome
  failed sent : Text → Option ℕ → ℕ → Outcome

module _ (open_file : Text → Option Text) (stat : Text → Option ℕ) (outgoing : Bool)
    (transfer : Text → Bool × ℕ) where
  -- The size that is announced before the transfer.
  unfoldable pub announced : Text → Option ℕ
  announced name = if outgoing then stat name else none

  unfoldable pub send : Text → Text → Outcome
  unfolding announced
  send name content =
      let r = transfer content in
      if r.0 then sent name (announced name) r.1 else failed name (announced name) r.1

  unfoldable pub serve : Sanitized → Outcome
  unfolding send
  serve (clean name) = elim (open_file name) [
    | none ↦ not_found name
    | some content ↦ send name content
  ]
  serve e = rejected e

  -- `read`
  unfoldable pub read : Text → Outcome
  unfolding sanitize serve
  read filename = serve (sanitize filename)
