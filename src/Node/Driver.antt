-- ===== src/Node/Driver.antt =====
-- internal/node/node.go: however the methods of a node are called, one heartbeat at most starts a
-- deploy driver.
use auto_pxe.Prelude.{ℕ, ◌+◌, ◌≤◌, Bool, true, false, List, [], ◌∷◌, arith, Text, if◌then◌else◌}
use auto_pxe.Node.{Node, State, record_heartbeat, set_command_id, transition, force_state}

-- A call of one of the methods that change a node, by whichever goroutine.
pub data Call : Type 0 where
  heartbeat : ℕ → Text → Call
  command : Text → Call
  moves : State → State → Call
  forces : State → Call

unfoldable pub step : Node → Call → Node × Bool
unfolding record_heartbeat set_command_id transition force_state
step n (heartbeat now url) = record_heartbeat now url n
step n (command id) = (set_command_id id n, false)
step n (moves from to) = ((transition from to n).0, false)
step n (forces s) = (force_state s n, false)

-- The number of drivers that a history starts.
unfoldable pub starts : Node → List Call → ℕ
unfolding step
starts n [] = 0
starts n (c ∷ cs) = (if (step n c).1 then 1 else 0) + starts (step n c).0 cs

abbrev pub budget : Bool → ℕ
budget true = 0
budget false = 1

-- A step that starts a driver uses up the only start.
step-budget :
    (n : Node) (c : Call)
    → (if (step n c).1 then 1 else 0) + budget (step n c).0.driver_started ≤ budget n.driver_started
unfolding step
step-budget n (heartbeat now url) = ground arith
step-budget n (command id) = ground arith
step-budget n (moves from to) = ground arith
step-budget n (forces s) = ground arith

-- In any history of calls at most one heartbeat starts a driver, and none does if one has before.
pub starts-le : (n : Node) (cs : List Call) → starts n cs ≤ budget n.driver_started
unfolding starts
starts-le n [] = omega arith
starts-le n (c ∷ cs) = omega (arith, step-budget n c, starts-le (step n c).0 cs)
