-- ===== src/ConfigDrive/Files.antt =====
-- internal/configdrive/configdrive.go: the files that stand in a drive, and the keys of its metadata.
use auto_pxe.Prelude.{
  ◌≡◌, refl, ap, ◌∙◌, inl, inr, arith, Bool, true, false, Option, none, some, [], ◌∷◌,
  if◌then◌else◌, Text, codes, is_empty, text_eq, text_beq, text_beq_iff, ◌=?◌, insert, lookup,
  lookup-insert, Distinct, All, ◌&&◌, ◌||◌, Bool-cases,
}
use mathlib.Core.Path.{subst}
use auto_pxe.ConfigDrive.{
  Entries, Tools, merge, metadata, write_file, write_given, version_path, write_version,
  write_versions, versions,
}

-- The value of a key in the first map, or else in the second.
abbrev pub or_else : Option Text → Option Text → Option Text
or_else (some v) o = some v
or_else none o = o

lookup-merge :
    (k : Text) (extra m : Entries)
    → Distinct extra
    → lookup k (merge extra m) ≡ or_else (lookup k extra) (lookup k m)
unfolding merge lookup
lookup-merge k [] m d = refl
lookup-merge k ((j, v) ∷ extra) m d =
    ground
      (arith, lookup-merge k extra (insert j v m) d.1, lookup-insert j k v m, text_beq_iff j k, d.0)

-- A text that is there only if it is not empty.
abbrev pub given : Text → Option Text
given content = if is_empty content then none else some content

abbrev put_given : Text → Text → Entries → Entries
put_given path content files = if is_empty content then files else insert path content files

abbrev pub put_version : Text → Text → Text → Text → Entries → Entries
put_version meta user_data network_data version files =
    put_given (version_path version (codes "network_data.json")) network_data (
      put_given (version_path version (codes "user_data")) user_data
        (insert (version_path version (codes "meta_data.json")) meta files))

module _ (tools : Tools) (user_data network_data : Text) where
  -- The directory of a version is made, and each of its files is written.
  abbrev pub is_writable : Text → Bool
  is_writable version =
      tools.makes_dir version
      && (tools.writes (version_path version (codes "meta_data.json"))
          && ((is_empty user_data || tools.writes (version_path version (codes "user_data")))
              && (is_empty network_data
                  || tools.writes (version_path version (codes "network_data.json")))))

  module _ (meta : Text) where
    write_version-put_version :
        (version : Text) (files : Entries)
        → write_version tools meta user_data network_data version files ≡ (
            if is_writable version
            then some (put_version meta user_data network_data version files)
            else none)
    unfolding write_version write_file write_given
    write_version-put_version version files = ground arith

    -- Both versions, or nothing if one of them cannot be written.
    pub write_versions-put_version :
        write_versions tools meta user_data network_data versions [] ≡ (
          if is_writable (codes "2012-08-10") && is_writable (codes "latest")
          then some (
              put_version meta user_data network_data
                (codes "latest")
                (put_version meta user_data network_data (codes "2012-08-10") []))
          else none)
    unfolding write_versions
    write_versions-put_version = elim (Bool-cases (is_writable (codes "2012-08-10"))) [
      | inl first ↦ elim (Bool-cases (is_writable (codes "latest"))) [
        | inl second ↦
            rw (write_version-put_version (codes "2012-08-10") [], first)
              (rw (write_version-put_version (codes "latest") _, second) refl)
        | inr second ↦
            rw (write_version-put_version (codes "2012-08-10") [], first)
              (rw (write_version-put_version (codes "latest") _, second) refl)
      ]
      | inr first ↦ rw (write_version-put_version (codes "2012-08-10") [], first) refl
    ]

-- The directory holds a version: its metadata, and the other two files where there is something in them.
abbrev pub HoldsVersion : Text → Text → Text → Entries → Text → Type 0
HoldsVersion meta user_data network_data files version =
    (lookup (version_path version (codes "meta_data.json")) files ≡ some meta)
    × (lookup (version_path version (codes "user_data")) files ≡ given user_data)
    × (lookup (version_path version (codes "network_data.json")) files ≡ given network_data)

pub put_version-HoldsVersion :
    (meta user_data network_data : Text)
    → All
        (HoldsVersion meta user_data network_data (
          put_version meta user_data network_data
            (codes "latest")
            (put_version meta user_data network_data (codes "2012-08-10") [])))
        versions
unfolding version_path insert lookup text_beq
put_version-HoldsVersion meta user_data network_data = elim (Bool-cases (is_empty user_data)) [
  | inl u ↦ elim (Bool-cases (is_empty network_data)) [
    | inl n ↦ simp (u, n) ((refl, refl, refl), ((refl, refl, refl), tt))
    | inr n ↦ simp (u, n) ((refl, refl, refl), ((refl, refl, refl), tt))
  ]
  | inr u ↦ elim (Bool-cases (is_empty network_data)) [
    | inl n ↦ simp (u, n) ((refl, refl, refl), ((refl, refl, refl), tt))
    | inr n ↦ simp (u, n) ((refl, refl, refl), ((refl, refl, refl), tt))
  ]
]

-- The keys that the program sets.
abbrev pub own_value : Text → Text → Text → Option Text
own_value uuid hostname k =
    if codes "uuid" =? k then some uuid else if codes "hostname" =? k then given hostname else none

abbrev own_entries : Text → Text → Entries
own_entries uuid hostname =
    let m = (codes "uuid", uuid) ∷ [] in
    if is_empty hostname then m else insert (codes "hostname") hostname m

lookup-own_entries :
    (uuid hostname k : Text) → lookup k (own_entries uuid hostname) ≡ own_value uuid hostname k
unfolding lookup insert text_beq
lookup-own_entries uuid hostname k = elim (Bool-cases (codes "uuid" =? k)) [
  | inl own ↦
      subst (λ t. lookup t (own_entries uuid hostname) ≡ own_value uuid hostname t)
        ((text_beq_iff (codes "uuid") k).0 own) (at_uuid (is_empty hostname))
  | inr other ↦ elim (Bool-cases (is_empty hostname)) [
    | inl nameless ↦ ground arith
    | inr named ↦
        ground (arith, lookup-insert (codes "hostname") k hostname ((codes "uuid", uuid) ∷ []))
  ]
]
  where
    at_uuid :
        (b : Bool)
        → lookup (codes "uuid") (
            if b
            then (codes "uuid", uuid) ∷ []
            else insert (codes "hostname") hostname ((codes "uuid", uuid) ∷ []))
          ≡ (if codes "uuid" =? codes "uuid"
              then some uuid
              else if codes "hostname" =? codes "uuid"
              then given hostname
              else none)
    at_uuid true = refl
    at_uuid false = refl

pub lookup-metadata :
    (uuid hostname : Text) (extra : Entries)
    → Distinct extra
    → (k : Text)
    → lookup k (metadata uuid hostname extra) ≡ or_else (lookup k extra) (own_value uuid hostname k)
unfolding metadata
lookup-metadata uuid hostname extra d k =
    lookup-merge k extra (own_entries uuid hostname) d
    ∙ ap (or_else (lookup k extra)) (lookup-own_entries uuid hostname k)
