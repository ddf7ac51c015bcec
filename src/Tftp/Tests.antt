-- ===== src/Tftp/Tests.antt =====
-- Requests to the TFTP server.
use auto_pxe.Prelude.{
  ℕ, ◌≡◌, refl, Bool, true, Option, none, some, if◌then◌else◌, Text, codes, text_beq, length,
}
use auto_pxe.Tftp.{clean, path_traversal, sanitize, read, sent}
use auto_pxe.Tftp.Paths

abbrev ipxe : Text
ipxe = codes "ipxe.efi"

abbrev open_file : Text → Option Text
open_file name = if text_beq name ipxe then some (codes "MZ") else none

abbrev stat : Text → Option ℕ
stat name = if text_beq name ipxe then some 2 else none

abbrev transfer : Text → Bool × ℕ
transfer content = (true, length content)

-- Dots lead no further up than the root.
escapes : sanitize (codes "../../etc//./passwd") ≡ clean (codes "etc/passwd")
unfolding sanitize
escapes = refl

-- A name that only begins with two dots is rejected.
two_dots : sanitize (codes "..foo") ≡ path_traversal
unfolding sanitize
two_dots = refl

ipxe-IsSafe : Paths.IsSafe ipxe
unfolding sanitize
ipxe-IsSafe = Paths.sanitize-IsSafe ipxe ipxe refl

sanitize-safe_example : sanitize ipxe ≡ clean ipxe
sanitize-safe_example = Paths.sanitize-safe ipxe ipxe-IsSafe

read_sends : read open_file stat true transfer (codes "/ipxe.efi") ≡ sent ipxe (some 2) 2
unfolding read
read_sends = refl

read-IsOfSafe_example : Paths.IsOfSafe (read open_file stat true transfer (codes "/ipxe.efi"))
read-IsOfSafe_example = Paths.read-IsOfSafe open_file stat true transfer (codes "/ipxe.efi")
