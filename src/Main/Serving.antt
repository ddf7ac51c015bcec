-- ===== src/Main/Serving.antt =====
-- cmd/autopxe/main.go: from the text of the configuration to the packets that the DHCP server answers.
use auto_pxe.Prelude.{
  ◌<◌, ◌≡◌, refl, sym, Bool, true, not, Option, none, some, List, Text, Returns, Returns-bind,
  is_some, is_empty, All, inl, inr, Bool-cases, Option-cases,
}
use mathlib.Core.Path.{subst}
use auto_pxe.Storage.{Disk, IoError}
use auto_pxe.Config.{Config, IpNet}
use auto_pxe.Config.Validate
use auto_pxe.Config.Validate.{Checked}
use auto_pxe.Config.Valid.{IsRaw, IsValid, load-IsValid}
use auto_pxe.Config.Checks.{OnOk}
use auto_pxe.Lease
use auto_pxe.Lease.{Allocator}
use auto_pxe.Lease.Load.{Result, new_allocator}
use auto_pxe.Lease.Restore.{Starts}
use auto_pxe.Lease.Startup.{HasAddress, OnResult, IsCoherentFile, new_allocator-Inv}
use auto_pxe.State
use auto_pxe.State.{Tracker, Loaded, new_tracker}
use auto_pxe.Pxe.{Request}
use auto_pxe.Dhcp.{Modifier}
use auto_pxe.Dhcp.Packets.{Packet, AllHandled, packets-AllHandled}
use auto_pxe.Download
use auto_pxe.Download.{Files, Ensured, file_exists, ensure_artifacts}
use auto_pxe.Download.Artifacts.{IsOutside, ensure_artifacts-IsPresent}
use auto_pxe.Main.{
  Hashed, hash_failed, digest, hash_file, Flags, Environment, Disks, Servers, Started, serving,
  maintained, run_maintenance, servers, after_allocator, after_hash, after_artifacts, start,
  after_tracker, cleared, after_config, main,
}

-- Every static binding has an IPv4 address, and the agent's files and the tarball do not get into each
-- other's way.
abbrev pub IsSuitable : Config → Type 0
IsSuitable c = All HasAddress c.dhcp.static × IsOutside c.ipa

module _ (built : Request → List Modifier → Bool) (ps : List Packet) where
  -- The agent's files are there, and every packet is handled.
  abbrev pub IsServing : Disks → Servers → Type 0
  IsServing d s =
      (subnet : IpNet) × (configured : s.cfg.dhcp.parsed_subnet ≡ some subnet) × (file_exists
          s.cfg.ipa.kernel d.files
        ≡ true)
      × (file_exists s.cfg.ipa.initramfs d.files ≡ true)
      × AllHandled built s.cfg subnet configured ps s.leaser d.leases

  abbrev pub OnServing : Started → Type 0
  OnServing (serving d s) = IsServing d s
  OnServing _ = Unit

  module _ (env : Environment) (cfg : Config) (t : Tracker) (valid : IsValid cfg)
      (suitable : IsSuitable cfg) where
    after_allocator-OnServing :
        (d : Disks) (image_hash : Text) (r : Result Allocator)
        → file_exists cfg.ipa.kernel d.files ≡ true
        → file_exists cfg.ipa.initramfs d.files ≡ true
        → OnResult (Starts cfg.dhcp.parsed_lease) r
        → OnServing (after_allocator env cfg t d image_hash r)
    unfolding after_allocator servers
    after_allocator-OnServing d image_hash (Result.err e) k i h = tt
    after_allocator-OnServing d image_hash (Result.ok a) k i (inv, time) = (
      valid.dhcp.subnet,
      valid.dhcp.subnet_lem,
      k,
      i,
      packets-AllHandled built cfg valid.dhcp.subnet valid.dhcp.subnet_lem ps a d.leases inv
          (subst (λ x. 0 < x) (sym time) valid.dhcp.lease_positive),
    )

    after_hash-OnServing :
        (d : Disks) (h : Hashed)
        → file_exists cfg.ipa.kernel d.files ≡ true
        → file_exists cfg.ipa.initramfs d.files ≡ true
        → IsCoherentFile d.leases.file
        → Returns OnServing (after_hash env cfg t d h)
    unfolding after_hash
    after_hash-OnServing d hash_failed k i f = tt
    after_hash-OnServing d (digest image_hash) k i f =
        Returns-bind (OnResult (Starts cfg.dhcp.parsed_lease)) OnServing
          (new_allocator env.now env.reads_leases d.leases cfg.dhcp)
          (λ r. some (after_allocator env cfg t d image_hash r))
          (new_allocator-Inv env.now env.reads_leases d.leases cfg.dhcp valid.dhcp suitable.0 f)
          (λ r h. after_allocator-OnServing d image_hash r k i h)

    after_artifacts-OnServing :
        (d : Disks) (e : Option Download.Failure)
        → (e ≡ none
            → (file_exists cfg.ipa.kernel d.files ≡ true)
              × (file_exists cfg.ipa.initramfs d.files ≡ true))
        → IsCoherentFile d.leases.file
        → is_some (hash_file env.sha256 env.image) ≡ true
        → Returns OnServing (after_artifacts env cfg t d e)
    unfolding after_artifacts
    after_artifacts-OnServing d (some e) present f ended = tt
    after_artifacts-OnServing d none present f ended =
        elim (Option-cases (hash_file env.sha256 env.image)) [
          | inl e ↦ cc (ended, e)
          | inr (h, e) ↦ rw e (after_hash-OnServing d h (present refl).0 (present refl).1 f)
        ]

    start-OnServing :
        (d : Disks)
        → IsCoherentFile d.leases.file
        → is_some (hash_file env.sha256 env.image) ≡ true
        → Returns OnServing (start env cfg t d)
    unfolding start
    start-OnServing d f ended =
        after_artifacts-OnServing _ (ensure_artifacts env.download cfg.ipa d.files).error
          (λ e.
            let (k, i, rest) =
              ensure_artifacts-IsPresent env.download cfg.ipa d.files suitable.1 e in
            (k, i))
          f ended

  maintained-OnServing :
      (d : Disks) (s : Disk State.FileFormat) (e : Option IoError) → OnServing (maintained d s e)
  unfolding maintained
  maintained-OnServing d s none = tt
  maintained-OnServing d s (some e) = tt

  cleared-OnServing :
      (d : Disks) (r : Disk Lease.FileFormat × Option IoError) → OnServing (cleared d r)
  unfolding cleared
  cleared-OnServing d (s, none) = tt
  cleared-OnServing d (s, some e) = tt

  abbrev OnMaintained : Option Started → Type 0
  OnMaintained none = Unit
  OnMaintained (some s) = OnServing s

  run_maintenance-OnServing :
      (env : Environment) (flags : Flags) (t : Tracker) (d : Disks)
      → OnMaintained (run_maintenance env flags t d)
  unfolding run_maintenance
  run_maintenance-OnServing env flags t d = elim (Bool-cases flags.list_deployed) [
    | inl lists ↦ simp lists tt
    | inr l ↦ elim (Bool-cases flags.forget_all) [
      | inl all ↦ simp (l, all) (maintained-OnServing d _ _)
      | inr a ↦ elim (Bool-cases (not (is_empty flags.forget))) [
        | inl one ↦ simp (l, a, one) (maintained-OnServing d _ _)
        | inr unasked ↦ simp (l, a, unasked) tt
      ]
    ]
  ]

  module _ (env : Environment) (flags : Flags) (d : Disks) (coherent : IsCoherentFile d.leases.file)
      (hashed : is_some (hash_file env.sha256 env.image) ≡ true) where
    after_tracker-OnServing :
        (cfg : Config) (r : Loaded)
        → IsValid cfg
        → IsSuitable cfg
        → Returns OnServing (after_tracker env flags cfg d r)
    unfolding after_tracker
    after_tracker-OnServing cfg (Loaded.err e) v s = tt
    after_tracker-OnServing cfg (Loaded.ok t) v s =
        go (run_maintenance env flags t d) (run_maintenance-OnServing env flags t d)
      where
        go :
            (o : Option Started)
            → OnMaintained o
            → Returns OnServing (elim o [ some r ↦ some r | none ↦ start env cfg t d ])
        go (some r) h = h
        go none h = start-OnServing env cfg t v s d coherent hashed

    after_config-OnServing :
        (c : Checked Config)
        → OnOk IsValid c
        → OnOk IsSuitable c
        → Returns OnServing (after_config env flags d c)
    unfolding after_config
    after_config-OnServing (Checked.err e) v s = tt
    after_config-OnServing (Checked.ok cfg) v s = elim (Bool-cases flags.clear_leases) [
      | inl clears ↦ simp clears (cleared-OnServing d _)
      | inr starts ↦
          simp starts
            (after_tracker-OnServing cfg (new_tracker env.reads_state d.state cfg.state_file) v s)
    ]

loaded-IsValid :
    (document : Checked Config) → OnOk IsRaw document → OnOk IsValid (Validate.load document)
loaded-IsValid document raw = go (Validate.load document) refl
  where
    go : (c : Checked Config) → Validate.load document ≡ c → OnOk IsValid c
    go (Checked.ok c) e = load-IsValid document c raw e
    go (Checked.err x) e = tt

-- For a document without parsed addresses of its own, whose configuration binds IPv4 addresses only and
-- keeps the agent's files apart from each other and from the tarball, a lease file that is absent, does
-- not parse or holds no contradiction, and an image whose reads come to an end: the start does not panic,
-- whatever the flags and the outcomes of the other calls. If it gets to the servers, the agent's kernel
-- and initramfs are there, a subnet is configured, and every packet of any sequence of packets is handled
-- without a panic, answered only as its type and the tracker allow, with the allocator's invariant kept.
pub main-IsServing :
    (built : Request → List Modifier → Bool) (ps : List Packet) (env : Environment) (flags : Flags)
    (d : Disks)
    → OnOk IsRaw env.document
    → OnOk IsSuitable (Validate.load env.document)
    → IsCoherentFile d.leases.file
    → is_some (hash_file env.sha256 env.image) ≡ true
    → Returns (OnServing built ps) (main env flags d)
unfolding main
main-IsServing built ps env flags d raw suitable coherent hashed =
    after_config-OnServing built ps env flags d coherent hashed (Validate.load env.document)
      (loaded-IsValid env.document raw) suitable
