-- ===== src/Node.antt =====
-- internal/node/node.go: a node that is being deployed. The mutex makes each method one step; the
-- random bytes and the clock are arguments.
pub mod Driver
pub mod Store
mod Tests
use auto_pxe.Prelude.{
  ℕ, ◌+◌, ◌-◌, ◌*◌, ◌/◌, ◌%◌, ◌≡◌, refl, Bool, true, false, ◌&&◌, not, Option, none, some, List, [],
  ◌∷◌, ◌++◌, ltb, if◌then◌else◌, Text, take, drop, length, arith,
}
use auto_pxe.Net.Mac.{hex_digit}

pub data State : Type 0 where
  new deploying run_image done failed : State

abbrev pub same_state : State → State → Bool
same_state new new = true
same_state deploying deploying = true
same_state run_image run_image = true
same_state done done = true
same_state failed failed = true
same_state _ _ = false

pub record Node : Type 0 where
  pub uuid : Text
  pub macs : List Text
  pub agent_token : Text
  pub hostname : Text
  pub state : State
  pub callback_url : Text
  pub command_id : Text
  pub last_heartbeat : ℕ
  pub driver_started : Bool

pub record Snapshot : Type 0 where
  pub state : State
  pub callback_url : Text
  pub command_id : Text
  pub last_heartbeat : ℕ

-- `hex.EncodeToString`
unfoldable pub hex_string : List ℕ → Text
unfolding hex_digit
hex_string [] = []
hex_string (b ∷ bs) = hex_digit (b / 16) ∷ hex_digit (b % 16) ∷ hex_string bs

-- `f(b[i])` in place of `b[i]`.
unfoldable pub update : ℕ → (ℕ → ℕ) → List ℕ → List ℕ
update i f [] = []
update ℕ.zero f (b ∷ bs) = f b ∷ bs
update (ℕ.suc i) f (b ∷ bs) = b ∷ update i f bs

-- The version and the variant of a random UUID: `(b & 0x0f) | 0x40` and `(b & 0x3f) | 0x80`.
abbrev versioned : List ℕ → List ℕ
versioned b = update 8 (λ x. x % 64 + 0x80) (update 6 (λ x. x % 16 + 0x40) b)

slice : ℕ → ℕ → List ℕ → Text
unfolding hex_string
slice from to b = hex_string (take (to - from) (drop from b))

unfoldable pub new_uuid : List ℕ → Text
unfolding slice update
new_uuid random =
    let b = versioned random in
    slice 0 4 b
    ++ b'-' ∷ (slice 4 6 b ++ b'-' ∷ (slice 6 8 b ++ b'-' ∷ (slice 8 10 b ++ b'-' ∷ slice 10 16 b)))

unfoldable pub new_agent_token : List ℕ → Text
unfolding hex_string
new_agent_token random = hex_string random

-- `New`, with the bytes of its two calls of `rand.Read`.
unfoldable pub new_node : List ℕ → List ℕ → List Text → Text → Node
unfolding new_uuid new_agent_token
new_node random random' macs hostname = record {
  uuid = new_uuid random;
  macs = macs;
  agent_token = new_agent_token random';
  hostname = hostname;
  state = new;
  callback_url = [];
  command_id = [];
  last_heartbeat = 0;
  driver_started = false;
}

unfoldable pub get : Node → Snapshot
get n = record {
  state = n.state;
  callback_url = n.callback_url;
  command_id = n.command_id;
  last_heartbeat = n.last_heartbeat;
}

-- `RecordHeartbeat`: the node, and whether the caller starts a driver.
unfoldable pub record_heartbeat : ℕ → Text → Node → Node × Bool
record_heartbeat now url n =
    let n' = record n { callback_url = url; last_heartbeat = now } in
    if not n.driver_started && same_state n.state new
    then (record n' { driver_started = true }, true)
    else (n', false)

unfoldable pub set_command_id : Text → Node → Node
set_command_id id n = record n { command_id = id }

-- `Transition`
unfoldable pub transition : State → State → Node → Node × Bool
transition from to n =
    if not (same_state n.state from) then (n, false) else (record n { state = to }, true)

unfoldable pub force_state : State → Node → Node
force_state s n = record n { state = s }
