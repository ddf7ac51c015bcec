-- ===== src/ConfigDrive/Tests.antt =====
-- A config drive of a node whose configured metadata give another hostname.
use auto_pxe.Prelude.{◌≡◌, refl, true, some, [], ◌∷◌, codes, text_beq, lookup, text_eq}
use auto_pxe.ConfigDrive.{Entries, Tools, generate, metadata}
use auto_pxe.ConfigDrive.Image

-- Only the second program is installed.
abbrev tools : Tools
tools = record {
  marshal = λ m. some (codes "{}");
  makes_temp = true;
  makes_dir = λ v. true;
  writes = λ p. true;
  finds = λ t. text_beq t (codes "mkisofs");
  make_iso = λ t files. some t;
  reads_iso = true;
  gzip = λ iso. some iso;
  base64 = λ z. z;
}

abbrev extra : Entries
extra = (codes "hostname", codes "other") ∷ []

generates :
    generate tools (codes "u-1") (codes "node1") (codes "#cloud-config") extra []
    ≡ some (codes "mkisofs")
unfolding generate text_beq
generates = refl

other_name :
    lookup (codes "hostname") (metadata (codes "u-1") (codes "node1") extra) ≡ some (codes "other")
unfolding metadata lookup text_beq
other_name = refl

generate-IsOutcome_example :
    Image.IsOutcome tools
      (codes "u-1")
      (codes "node1")
      (codes "#cloud-config")
      extra
      []
      (generate tools (codes "u-1") (codes "node1") (codes "#cloud-config") extra [])
unfolding lookup
generate-IsOutcome_example =
    Image.generate-IsOutcome tools (codes "u-1") (codes "node1") (codes "#cloud-config") extra []
      (refl, tt)
