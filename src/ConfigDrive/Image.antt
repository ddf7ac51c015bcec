-- ===== src/ConfigDrive/Image.antt =====
-- internal/configdrive/configdrive.go: what a config drive holds, and when there is none.
use auto_pxe.Prelude.{
  ◌≡◌, refl, ap, ◌&&◌, true, false, Option, none, some, List, [], ◌∷◌, ◌++◌, if◌then◌else◌, Text,
  codes, text_eq, lookup, Distinct, ◌>>=◌, All, Bool-cases, inl, inr, any, arith,
}
use auto_pxe.ConfigDrive.{
  Entries, Tools, metadata, write_versions, versions, iso_tools, build_iso, encode, generate,
}
use auto_pxe.ConfigDrive.Files.{
  or_else, HoldsVersion, own_value, is_writable, write_versions-put_version,
  put_version-HoldsVersion, lookup-metadata,
}

-- The first program of the list that is found has been run, and this is what it came to.
pub record IsRun (tools : Tools) (files : Entries) (ts : List Text) (r : Option Text) : Type 0 where
  pub before : List Text
  pub tool : Text
  pub after : List Text
  pub listed : ts ≡ before ++ tool ∷ after
  pub missing : All (λ t. tools.finds t ≡ false) before
  pub found : tools.finds tool ≡ true
  pub made : tools.make_iso tool files ≡ r

IsRun-later :
    (tools : Tools) (files : Entries) (t : Text) (ts : List Text) (r : Option Text)
    → tools.finds t ≡ false
    → IsRun tools files ts r
    → IsRun tools files (t ∷ ts) r
IsRun-later tools files t ts r absent h = record {
  before = t ∷ h.before;
  tool = h.tool;
  after = h.after;
  listed = ap (λ l. t ∷ l) h.listed;
  missing = (absent, h.missing);
  found = h.found;
  made = h.made;
}

build_iso-IsRun :
    (tools : Tools) (ts : List Text) (files : Entries)
    → any tools.finds ts ≡ true
    → IsRun tools files ts (build_iso tools ts files)
unfolding build_iso any
build_iso-IsRun tools [] files h = cc
build_iso-IsRun tools (t ∷ ts) files h = elim (Bool-cases (tools.finds t)) [
  | inl here ↦ rw here (record {
    before = [];
    tool = t;
    after = ts;
    listed = refl;
    missing = tt;
    found = here;
    made = refl;
  })
  | inr absent ↦
      rw absent
        (IsRun-later tools files t ts _ absent (build_iso-IsRun tools ts files (ground arith)))
]

build_iso-none :
    (tools : Tools) (ts : List Text) (files : Entries)
    → any tools.finds ts ≡ false
    → build_iso tools ts files ≡ none
unfolding build_iso any
build_iso-none tools [] files h = refl
build_iso-none tools (t ∷ ts) files h = ground (arith, build_iso-none tools ts files)

module _ (tools : Tools) (uuid hostname user_data : Text) (extra : Entries)
    (network_data : Text) where
  -- The text of a drive: both versions on an image that the first program found has made, which is read,
  -- packed and encoded.
  pub record IsDrive (drive : Text) : Type 0 where
    pub meta : Text
    pub files : Entries
    pub iso : Text
    pub packed : Text
    pub values :
        (k : Text)
        → lookup k (metadata uuid hostname extra)
          ≡ or_else (lookup k extra) (own_value uuid hostname k)
    pub marshalled : tools.marshal (metadata uuid hostname extra) ≡ some meta
    pub holds : All (HoldsVersion meta user_data network_data files) versions
    pub made : IsRun tools files iso_tools (some iso)
    pub read : tools.reads_iso ≡ true
    pub zipped : tools.gzip iso ≡ some packed
    pub encoded : drive ≡ tools.base64 packed

  -- The call that has failed.
  pub data IsFailure : Type 0 where
    unmarshalled : tools.marshal (metadata uuid hostname extra) ≡ none → IsFailure
    no_directory : tools.makes_temp ≡ false → IsFailure
    unwritten :
        is_writable tools user_data network_data (codes "2012-08-10")
            && is_writable tools user_data network_data (codes "latest")
          ≡ false
        → IsFailure
    no_program : any tools.finds iso_tools ≡ false → IsFailure
    unmade :
        (meta : Text) (files : Entries)
        → All (HoldsVersion meta user_data network_data files) versions
        → IsRun tools files iso_tools none
        → IsFailure
    unread : tools.reads_iso ≡ false → IsFailure
    unpacked :
        (files : Entries) (iso : Text)
        → IsRun tools files iso_tools (some iso)
        → tools.gzip iso ≡ none
        → IsFailure

  -- A drive, or an error with its reason.
  abbrev pub IsOutcome : Option Text → Type 0
  IsOutcome none = IsFailure
  IsOutcome (some drive) = IsDrive drive

  module _ (distinct : Distinct extra) (meta : Text)
      (marshalled : tools.marshal (metadata uuid hostname extra) ≡ some meta) where
    module _ (files : Entries)
        (holds : All (HoldsVersion meta user_data network_data files) versions) where
      encode-IsOutcome :
          (iso : Text) → IsRun tools files iso_tools (some iso) → IsOutcome (encode tools iso)
      unfolding encode
      encode-IsOutcome iso made = elim (Bool-cases tools.reads_iso) [
        | inr bad ↦ simp bad (unread bad)
        | inl reads ↦ simp reads (pack (tools.gzip iso) refl reads)
      ]
        where
          pack :
              (o : Option Text)
              → tools.gzip iso ≡ o
              → tools.reads_iso ≡ true
              → IsOutcome (o >>= λ z. some (tools.base64 z))
          pack none e reads = unpacked files iso made e
          pack (some z) e reads = record {
            meta = meta;
            files = files;
            iso = iso;
            packed = z;
            values = lookup-metadata uuid hostname extra distinct;
            marshalled = marshalled;
            holds = holds;
            made = made;
            read = reads;
            zipped = e;
            encoded = refl;
          }

      image-IsOutcome : IsOutcome (build_iso tools iso_tools files >>= encode tools)
      image-IsOutcome = elim (Bool-cases (any tools.finds iso_tools)) [
        | inr absent ↦ rw (build_iso-none tools iso_tools files absent) (no_program absent)
        | inl there ↦
            run (build_iso tools iso_tools files) (build_iso-IsRun tools iso_tools files there)
      ]
        where
          run : (o : Option Text) → IsRun tools files iso_tools o → IsOutcome (o >>= encode tools)
          run none r = unmade meta files holds r
          run (some iso) r = encode-IsOutcome iso r

    files-IsOutcome : IsOutcome (
        (if tools.makes_temp
          then write_versions tools meta user_data network_data versions []
          else none)
        >>= λ files. build_iso tools iso_tools files >>= λ iso. encode tools iso)
    files-IsOutcome = elim (Bool-cases tools.makes_temp) [
      | inr bad ↦ simp bad (no_directory bad)
      | inl made ↦
          elim (Bool-cases (
            is_writable tools user_data network_data (codes "2012-08-10")
            && is_writable tools user_data network_data (codes "latest"))) [
              | inr bad ↦ simp made (
                  rw (write_versions-put_version tools user_data network_data meta, bad)
                    (unwritten bad))
              | inl good ↦ simp made (
                  rw (write_versions-put_version tools user_data network_data meta, good)
                    (image-IsOutcome _ (put_version-HoldsVersion meta user_data network_data)))
            ]
    ]

-- If no key of the configured metadata stands twice: either a config drive is generated, or there is an
-- error, and then one of the calls that were made for it has failed, or none of the programs is found. The
-- drive holds the user data and the network data, where there are any, and the metadata in both versions.
-- The metadata are the configured ones, and the node's UUID and hostname under the keys that these leave
-- open. The image is made by the first program that is found, and by no other; it is read, packed and
-- encoded.
pub generate-IsOutcome :
    (tools : Tools) (uuid hostname user_data : Text) (extra : Entries) (network_data : Text)
    → Distinct extra
    → IsOutcome tools uuid hostname user_data extra network_data
        (generate tools uuid hostname user_data extra network_data)
unfolding generate
generate-IsOutcome tools uuid hostname user_data extra network_data distinct =
    go (tools.marshal (metadata uuid hostname extra)) refl
  where
    go :
        (o : Option Text)
        → tools.marshal (metadata uuid hostname extra) ≡ o
        → IsOutcome tools uuid hostname user_data extra network_data (
            o >>= λ meta.
            (if tools.makes_temp
              then write_versions tools meta user_data network_data versions []
              else none)
            >>= λ files. build_iso tools iso_tools files >>= λ iso. encode tools iso)
    go none e = unmarshalled e
    go (some meta) e =
        files-IsOutcome tools uuid hostname user_data extra network_data distinct meta e
