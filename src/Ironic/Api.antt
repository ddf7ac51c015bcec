-- ===== src/Ironic/Api.antt =====
-- internal/ironic/server.go: the handlers of the API over the node store. A response is its status,
-- with what `handleLookup` answers.
pub mod Heartbeats
pub mod Requests
mod Tests
use auto_pxe.Prelude.{
  ℕ, Bool, true, false, ◌&&◌, Option, none, some, List, [], ◌∷◌, if◌then◌else◌, Text, codes,
  trim_space, is_empty, ◌==◌, ◌>>=◌, lookup, insert, text_eq, split, trim_prefix, trim_start,
  trim_end,
}
use auto_pxe.Node.{Node, record_heartbeat}
use auto_pxe.Node.Store.{Store, Lookup, get_by_uuid, get_or_create}
use auto_pxe.Ironic.{Server, InstanceInfo, instance_info}

unfoldable pub trimmed : List Text → List Text
unfolding trim_space is_empty
trimmed [] = []
trimmed (p ∷ ps) =
    let rest = trimmed ps in if is_empty (trim_space p) then rest else trim_space p ∷ rest

unfoldable pub split_macs : Text → List Text
unfolding split trimmed
split_macs s = trimmed (split b',' s)

-- The status, and whether a driver is started.
abbrev pub Beaten : Type 0
Beaten = Store × ℕ × Bool

unfoldable pub beat : ℕ → Text → Node → Store → Option Text → Beaten
unfolding record_heartbeat trim_end
beat now uuid n s none = (s, 400, false)
beat now uuid n s (some callback_url) =
    let r = record_heartbeat now (trim_end b'/' callback_url) n in
    (record s { nodes = insert uuid r.0 s.nodes }, 202, r.1)

unfoldable pub beat_found : ℕ → Text → Option Text → Store → Option Node → Beaten
unfolding beat
beat_found now uuid body s none = (s, 404, false)
beat_found now uuid body s (some n) = beat now uuid n s body

unfoldable pub uuid_of : Text → Text
unfolding trim_prefix trim_start trim_end
uuid_of path = trim_end b'/' (trim_start b'/' (trim_prefix (codes "/v1/heartbeat/") path))

-- `handleHeartbeat`. The body is the callback URL, or `none` if it does not decode.
unfoldable pub handle_heartbeat : ℕ → Text → Option Text → Store → Beaten
unfolding beat_found get_by_uuid is_empty
handle_heartbeat now path body s =
    if is_empty (uuid_of path)
    then (s, 400, false)
    else beat_found now (uuid_of path) body s (get_by_uuid (uuid_of path) s)

-- What `handleLookup` tells the agent.
pub record Answer : Type 0 where
  pub uuid : Text
  pub instance_info : InstanceInfo
  pub heartbeat_timeout : ℕ
  pub agent_token : Text

pub data Response : Type 0 where
  refused : ℕ → Response
  answered : Answer → Response

-- Given what `GetOrCreate` returns; `none` is a panic.
unfoldable pub answer_lookup : Server → Lookup → Option (Store × Response)
unfolding instance_info get_by_uuid
answer_lookup server (s, none, created) = some (s, refused 400)
answer_lookup server (s, some uuid, created) = do
  n ← get_by_uuid uuid s
  info ← instance_info server uuid
  some (
    s,
    answered (record {
      uuid = uuid;
      instance_info = info;
      heartbeat_timeout = server.heartbeat_timeout;
      agent_token = n.agent_token;
    }),
  )

-- `handleLookup`, with the random bytes of a new node.
unfoldable pub handle_lookup : Server → List ℕ → List ℕ → Text → Store → Option (Store × Response)
unfolding answer_lookup get_or_create split_macs is_empty
handle_lookup server random random' addresses s =
    if is_empty addresses
    then some (s, refused 400)
    else (if is_empty (split_macs addresses)
        then some (s, refused 400)
        else answer_lookup server
            (get_or_create random random' (split_macs addresses) server.hostnames s))
