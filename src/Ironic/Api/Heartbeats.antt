-- ===== src/Ironic/Api/Heartbeats.antt =====
-- Which heartbeats start a driver, through the store.
use auto_pxe.Prelude.{
  ℕ, ◌≡◌, refl, Bool, true, false, ◌&&◌, Option, none, some, if◌then◌else◌, Text, is_empty, lookup,
  text_eq, ◌=?◌, lookup-insert, text_beq_iff, Bool-cases, inl, inr, arith, trim_end,
}
use auto_pxe.Node.{Node, record_heartbeat}
use auto_pxe.Node.Store.{Store, get_by_uuid}
use auto_pxe.Ironic.Api.{Beaten, beat, beat_found, uuid_of, handle_heartbeat}

-- A node of the store whose driver has been started.
abbrev pub has_driver : Option Node → Bool
has_driver none = false
has_driver (some n) = n.driver_started

-- Which nodes have a driver after a heartbeat.
record Counted (uuid : Text) (s : Store) (r : Beaten) : Type 0 where
  pub once : r.2 ≡ true → has_driver (lookup uuid s.nodes) ≡ false
  pub kept :
      (u : Text)
      → has_driver (lookup u r.0.nodes)
        ≡ (if uuid =? u && r.2 then true else has_driver (lookup u s.nodes))

beat-Counted :
    (now : ℕ) (uuid : Text) (n : Node) (s : Store) (body : Option Text)
    → lookup uuid s.nodes ≡ some n
    → Counted uuid s (beat now uuid n s body)
unfolding beat record_heartbeat
beat-Counted now uuid n s none e = record { once = λ h. cc; kept = λ u. ground arith }
beat-Counted now uuid n s (some url) e = record {
  once = λ h. ground arith;
  kept = λ u. ground (
    arith,
    lookup-insert uuid u (record_heartbeat now (trim_end b'/' url) n).0 s.nodes,
    text_beq_iff uuid u,
  );
}

beat_found-Counted :
    (now : ℕ) (uuid : Text) (body : Option Text) (s : Store) (o : Option Node)
    → lookup uuid s.nodes ≡ o
    → Counted uuid s (beat_found now uuid body s o)
unfolding beat_found
beat_found-Counted now uuid body s none e = record { once = λ h. cc; kept = λ u. ground arith }
beat_found-Counted now uuid body s (some n) e = beat-Counted now uuid n s body e

-- A heartbeat starts a driver only for a node that has none, and then the node of its UUID has one. All
-- other nodes, and the node itself when no driver starts, have a driver exactly if they had one before.
pub handle_heartbeat-Counted :
    (now : ℕ) (path : Text) (body : Option Text) (s : Store)
    → let r = handle_heartbeat now path body s in
      (r.2 ≡ true → has_driver (lookup (uuid_of path) s.nodes) ≡ false)
      × ((u : Text)
          → has_driver (lookup u r.0.nodes)
            ≡ (if uuid_of path =? u && r.2 then true else has_driver (lookup u s.nodes)))
unfolding handle_heartbeat get_by_uuid
handle_heartbeat-Counted now path body s = elim (Bool-cases (is_empty (uuid_of path))) [
  | inl missing ↦ rw missing ((λ h. cc), λ u. ground arith)
  | inr given ↦
      let c = beat_found-Counted now (uuid_of path) body s (lookup (uuid_of path) s.nodes) refl in
      rw given (c.once, c.kept)
]
