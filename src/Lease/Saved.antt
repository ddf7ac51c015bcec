-- ===== src/Lease/Saved.antt =====
-- `saveLocked` of internal/lease/lease.go: what the file holds after it, and when it fails.
use auto_pxe.Prelude.{
  ℕ, ◌^◌, ◌<◌, ◌≡◌, refl, ◌≢◌, ◌++◌, not, ◌&&◌, Option, none, some, List, [], ◌∷◌, arith, Text,
  lookup, insert, nat_eq, text_eq, is_empty, is_some, Distinct, lookup-insert, text_beq_iff,
  text_beq, All, Bool-cases, inl, inr, ◌==◌, ◌/◌, ◌%◌, false, ==_iff, ap, sym, ◌∙◌,
}
use auto_pxe.Storage.{Disk, Io, succeeds, document, replace_cases, replace-error}
use auto_pxe.Net.Ip.{ip_string, decimal, dotted}
use auto_pxe.Lease.{
  Lease, LeaseRecord, DeclinedLease, DeclinedRecord, FileFormat, Allocator, u32_to_ip,
}
use auto_pxe.Lease.Ops.{save_locked, to_file, save_leases, save_declined}

pub save_locked-error :
    (io : Io) (a : Allocator) (d : Disk FileFormat)
    → is_some (save_locked io a d).error ≡ (not (is_empty a.lease_file) && not (succeeds io))
unfolding save_locked
save_locked-error io a d = ground (arith, replace-error io (to_file a) d)

-- A byte in decimal ends where the dot is.
decimal-dot :
    (a b : ℕ) (s t : Text)
    → a < 256
    → b < 256
    → decimal a ++ b'.' ∷ s ≡ decimal b ++ b'.' ∷ t
    → (a ≡ b) × (s ≡ t)
unfolding decimal
decimal-dot a b s t ha hb h = ground arith

decimal_injective : (a b : ℕ) → a < 256 → b < 256 → decimal a ≡ decimal b → a ≡ b
unfolding decimal
decimal_injective a b ha hb h = ground arith

-- Different addresses are different texts.
ip_string_injective :
    (v w : ℕ) → v < 2 ^ 32 → w < 2 ^ 32 → ip_string (u32_to_ip v) ≡ ip_string (u32_to_ip w) → v ≡ w
unfolding ip_string u32_to_ip dotted
ip_string_injective v w hv hw h =
    let (a, r) =
      decimal-dot (v / 16777216 % 256) (w / 16777216 % 256) _ _ (omega arith) (omega arith) h in
    let (b, s) =
      decimal-dot (v / 65536 % 256) (w / 65536 % 256) _ _ (omega arith) (omega arith) r in
    let (c, t) = decimal-dot (v / 256 % 256) (w / 256 % 256) _ _ (omega arith) (omega arith) s in
    let d = decimal_injective (v % 256) (w % 256) (omega arith) (omega arith) t in
    omega (arith, a, b, c, d)

same_text :
    (v w : ℕ)
    → v < 2 ^ 32
    → w < 2 ^ 32
    → text_beq (ip_string (u32_to_ip v)) (ip_string (u32_to_ip w)) ≡ (v == w)
same_text v w hv hw = elim (Bool-cases (v == w)) [
  | inl same ↦
      let e : v ≡ w = (==_iff v w).0 same in
      (text_beq_iff _ _).1 (ap (λ x. ip_string (u32_to_ip x)) e) ∙ sym same
  | inr apart ↦ elim (Bool-cases (text_beq (ip_string (u32_to_ip v)) (ip_string (u32_to_ip w)))) [
    | inl same ↦
        let e = ip_string_injective v w hv hw ((text_beq_iff _ _).0 same) in
        absurd (cc (apart, (==_iff v w).1 e))
    | inr other ↦ other ∙ sym apart
  ]
]

-- What the file says of a lease, and of a declined address.
abbrev pub lease_record : Option Lease → Option LeaseRecord
lease_record none = none
lease_record (some l) = some (record { ip = ip_string l.ip; expires = l.expires })

abbrev pub declined_record : Option DeclinedLease → Option DeclinedRecord
declined_record none = none
declined_record (some x) = some (record { mac = x.mac; expires_at = x.expires_at })

abbrev or_saved {ℓ} : {A : Type ℓ} → Option A → Option A → Option A
or_saved none o = o
or_saved (some x) o = some x

lookup-save_leases :
    (ls : List (Text × Lease)) (out : List (Text × LeaseRecord)) (m : Text)
    → Distinct ls
    → lookup m (save_leases ls out) ≡ or_saved (lease_record (lookup m ls)) (lookup m out)
unfolding save_leases lookup
lookup-save_leases [] out m d = refl
lookup-save_leases ((k, l) ∷ ls) out m d =
    let r : LeaseRecord = record { ip = ip_string l.ip; expires = l.expires } in
    ground (
      arith,
      lookup-save_leases ls (insert k r out) m d.1,
      lookup-insert k m r out,
      text_beq_iff k m,
      d.0,
    )

-- The keys are `uint32` numbers.
abbrev pub AreWords : List (ℕ × DeclinedLease) → Type 0
AreWords ds = All (λ e. e.0 < 2 ^ 32) ds

lookup-save_declined :
    (ds : List (ℕ × DeclinedLease)) (out : List (Text × DeclinedRecord)) (v : ℕ)
    → Distinct ds
    → AreWords ds
    → v < 2 ^ 32
    → lookup (ip_string (u32_to_ip v)) (save_declined ds out)
      ≡ or_saved (declined_record (lookup v ds)) (lookup (ip_string (u32_to_ip v)) out)
unfolding save_declined lookup
lookup-save_declined [] out v d w h = refl
lookup-save_declined ((k, x) ∷ ds) out v d w h =
    let r : DeclinedRecord = record { mac = x.mac; expires_at = x.expires_at } in
    let key : Text = ip_string (u32_to_ip k) in
    ground (
      arith,
      lookup-save_declined ds (insert key r out) v d.1 w.1 h,
      lookup-insert key (ip_string (u32_to_ip v)) r out,
      same_text k v w.0 h,
      ==_iff k v,
      d.0,
    )

-- The file holds the version, each lease under its MAC, and each declined address under its text, and
-- nothing under any other MAC or address.
pub record IsSnapshot (a : Allocator) (f : FileFormat) : Type 0 where
  pub version : f.version ≡ 1
  pub leases : (m : Text) → lookup m f.leases ≡ lease_record (lookup m a.dynamic)
  pub declined :
      (v : ℕ)
      → v < 2 ^ 32
      → lookup (ip_string (u32_to_ip v)) f.declined ≡ declined_record (lookup v a.declined)

to_file-IsSnapshot :
    (a : Allocator)
    → Distinct a.dynamic
    → Distinct a.declined
    → AreWords a.declined
    → IsSnapshot a (to_file a)
unfolding to_file lookup
to_file-IsSnapshot a d e w = record {
  version = refl;
  leases = λ m. ground (arith, lookup-save_leases a.dynamic [] m d);
  declined = λ v h. ground (arith, lookup-save_declined a.declined [] v e w h);
}

-- With a lease file, and two maps that have each key once and addresses of 32 bits: a save that reports
-- no error leaves a file with the MAC, the address and the expiry of each lease, with the client and the
-- expiry of each declined address, and with nothing under any other MAC or address. One that reports an
-- error leaves the file as it was, and there is an error exactly if one of the calls that replace the
-- file fails. The state in memory stays in all cases.
pub save_locked-IsSnapshot :
    (io : Io) (a : Allocator) (d : Disk FileFormat)
    → is_empty a.lease_file ≡ false
    → Distinct a.dynamic
    → Distinct a.declined
    → AreWords a.declined
    → let r = save_locked io a d in
      (r.state ≡ a)
      × (r.error ≡ none → (f : FileFormat) × (r.disk.file ≡ some (document f)) × IsSnapshot a f)
      × (r.error ≢ none → r.disk.file ≡ d.file)
      × (is_some r.error ≡ not (succeeds io))
unfolding save_locked
save_locked-IsSnapshot io a d named da dd w =
    let (well, badly) = replace_cases io (to_file a) d in
    (
      ground arith,
      (λ h. (to_file a, ground (arith, well), to_file-IsSnapshot a da dd w)),
      (λ h. ground (arith, badly)),
      ground (arith, save_locked-error io a d),
    )
