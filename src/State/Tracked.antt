-- ===== src/State/Tracked.antt =====
-- internal/state/state.go: who is deployed after a call, and after a restart.
use auto_pxe.Prelude.{
  ℕ, Bool, true, false, not, ◌||◌, ◌&&◌, ◌≡◌, refl, none, some, List, [], ◌∷◌, if◌then◌else◌, Text,
  is_empty, lookup, insert, text_eq, arith, any, ◌=?◌, lookup-insert, lookup-delete, text_beq_iff,
  Bool-cases, Option-cases, inl, inr,
}
use auto_pxe.Storage.{Disk, Io}
use auto_pxe.State.{
  Record, FileFormat, Tracker, ok, new_tracker, save, canon, is_deployed, mark_all, mark_deployed,
  forget, with_deployed,
}

-- The canonical MAC is that of one of the list, which is not empty.
abbrev pub is_named : Text → List Text → Bool
is_named c macs = any (λ m. not (is_empty (canon m)) && canon m =? c) macs

-- The MAC is one of the list, and is not empty.
abbrev pub names : Text → List Text → Bool
names mac macs = is_named (canon mac) macs

pub lookup-mark_all :
    (macs : List Text) (rec : Record) (c : Text) (m : List (Text × Record))
    → lookup c (mark_all macs rec m) ≡ (if is_named c macs then some rec else lookup c m)
unfolding mark_all any
lookup-mark_all [] rec c m = refl
lookup-mark_all (k ∷ macs) rec c m = elim (Bool-cases (is_empty (canon k))) [
  | inl e ↦ rw e (lookup-mark_all macs rec c m)
  | inr e ↦
      rw (e, lookup-mark_all macs rec c (insert (canon k) rec m), lookup-insert (canon k) c rec m)
        (ground arith)
]

pub save-deployed :
    (io : Io) (t : Tracker) (d : Disk FileFormat)
    → (save io t d).tracker.contents.deployed ≡ t.contents.deployed
unfolding save
save-deployed io t d = ground arith

-- After `MarkDeployed` exactly the MACs of the list and those marked before are deployed, whether or
-- not the file could be written.
pub is_deployed-mark_deployed :
    (now : ℕ) (io : Io) (macs : List Text) (uuid hash mac : Text) (t : Tracker)
    (d : Disk FileFormat)
    → is_deployed mac (mark_deployed now io macs uuid hash t d).tracker
      ≡ names mac macs || is_deployed mac t
unfolding is_deployed mark_deployed
is_deployed-mark_deployed now io macs uuid hash mac t d =
    rw (save-deployed io _ d, lookup-mark_all macs _ (canon mac) t.contents.deployed) (ground arith)

-- `Forget` reports whether the MAC was deployed; afterwards it is not, and all others are as before.
pub is_deployed-forget :
    (io : Io) (mac other : Text) (t : Tracker) (d : Disk FileFormat)
    → let r = forget io mac t d in
      (r.1 ≡ is_deployed mac t)
      × (is_deployed other r.0.tracker
          ≡ (if canon mac =? canon other then false else is_deployed other t))
unfolding is_deployed forget
is_deployed-forget io mac other t d = elim (Option-cases (lookup (canon mac) t.contents.deployed)) [
  | inl e ↦ rw e (refl, ground (arith, text_beq_iff (canon mac) (canon other)))
  | inr (r, e) ↦ rw e (
    refl,
    rw (save-deployed io _ d, lookup-delete (canon mac) (canon other) t.contents.deployed)
        (ground arith),
  )
]

save-restart :
    (io : Io) (t : Tracker) (d : Disk FileFormat)
    → (save io t d).error ≡ none
    → new_tracker true (save io t d).disk t.path ≡ ok (save io t d).tracker
unfolding save new_tracker
save-restart io t d h = ground arith

-- What a restart reads is what the last call left in memory, if its save reported no error.
pub new_tracker-mark_deployed :
    (now : ℕ) (io : Io) (macs : List Text) (uuid hash : Text) (t : Tracker) (d : Disk FileFormat)
    → let r = mark_deployed now io macs uuid hash t d in
      r.error ≡ none → new_tracker true r.disk t.path ≡ ok r.tracker
unfolding mark_deployed new_tracker
new_tracker-mark_deployed now io macs uuid hash t d h =
    save-restart io (with_deployed t (mark_all macs _ t.contents.deployed)) d h
