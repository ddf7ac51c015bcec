-- ===== src/Ironic/Deploy.antt =====
-- internal/ironic/deploy.go: the driver of one node, as a function of the agent's answers. The
-- heartbeats that arrive while it runs change no field that it reads again. Its context is the background's,
-- which is never cancelled.
pub mod Polling
pub mod Outcome
use auto_pxe.Prelude.{
  ℕ, Bool, true, false, not, Option, none, some, List, [], ◌∷◌, if◌then◌else◌, Text, codes,
  is_empty, text_beq, ltb, ◌+◌,
}
use auto_pxe.Storage.{Disk, Io}
use auto_pxe.Node.{
  State, Node, new, deploying, run_image, done, failed, transition, force_state, set_command_id,
}
use auto_pxe.State.{FileFormat, Tracker, Saved, mark_deployed}
use auto_pxe.Ironic.{Server, InstanceInfo, instance_info}

-- One round of the loop: what `GetCommandStatus` gives, `none` for an error and the empty text where
-- the status is not a text, and the clock when the deadline is tested.
pub record Poll : Type 0 where
  pub status : Option Text
  pub checked : ℕ

-- Two hours.
abbrev pub time_limit : ℕ
time_limit = 7200000000000

-- The answers of the agent: the id that `standby.prepare_image` returns, `none` for an error and the
-- empty text where there is none; the clock when the loop begins, and its rounds; and whether
-- `standby.run_image` is accepted.
pub record Agent : Type 0 where
  pub prepared : Option Text
  pub begun : ℕ
  pub polls : List Poll
  pub accepts_run : Bool

pub data Command : Type 0 where
  prepare_image : InstanceInfo → Text → Command
  run : Command

-- How a round ends.
pub data Verdict : Type 0 where
  succeeded broken undecided : Verdict

-- The text of the status, in the loop's `switch`.
unfoldable pub verdict : Option Text → Verdict
unfolding text_beq
verdict none = undecided
verdict (some s) =
    if text_beq s (codes "SUCCEEDED")
    then succeeded
    else (if text_beq s (codes "FAILED") then broken else undecided)

-- One round, given what the rounds after it come to.
unfoldable pub poll_round : Verdict → Bool → Node → Option (Node × Bool) → Option (Node × Bool)
unfolding force_state
poll_round succeeded is_late n rest = some (n, true)
poll_round broken is_late n rest = some (force_state failed n, false)
poll_round undecided true n rest = some (force_state failed n, false)
poll_round undecided false n rest = rest

-- The node and the result of the loop, for a deadline; `none` is a loop that goes on after the given rounds.
unfoldable pub poll_until_terminal : ℕ → List Poll → Node → Option (Node × Bool)
unfolding verdict poll_round
poll_until_terminal deadline [] n = none
poll_until_terminal deadline (p ∷ ps) n =
    poll_round (verdict p.status) (ltb deadline p.checked) n (poll_until_terminal deadline ps n)

-- What a driver that has returned leaves, with the commands that it has sent, in their order.
pub record Driven : Type 0 where
  pub node : Node
  pub tracker : Option Tracker
  pub disk : Disk FileFormat
  pub commands : List Command

pub data Drive : Type 0 where
  panicked polling : Drive
  returned : Driven → Drive

module _ (now : ℕ) (io : Io) (s : Server) (agent : Agent) (t : Option Tracker)
    (d : Disk FileFormat) where
  -- The driver returns without a word to the tracker.
  abbrev pub stop : Node → List Command → Drive
  stop n commands = returned (record { node = n; tracker = t; disk = d; commands = commands })

  -- The record of the deployment; without a tracker there is none.
  unfoldable pub recorded : Option Tracker → Node → List Command → Driven
  unfolding mark_deployed
  recorded none n commands = record { node = n; tracker = none; disk = d; commands = commands }
  recorded (some tracker) n commands =
      let r : Saved = mark_deployed now io n.macs n.uuid s.image_hash tracker d in
      record { node = n; tracker = some r.tracker; disk = r.disk; commands = commands }

  -- Once `standby.run_image` is sent.
  unfoldable pub after_run : InstanceInfo → Text → Node → Bool → Drive
  unfolding force_state recorded
  after_run info drive n false = stop (force_state failed n) (prepare_image info drive ∷ run ∷ [])
  after_run info drive n true =
      returned (recorded t (force_state done n) (prepare_image info drive ∷ run ∷ []))

  unfoldable pub after_transition : InstanceInfo → Text → Node × Bool → Drive
  unfolding after_run
  after_transition info drive (n, false) = stop n (prepare_image info drive ∷ [])
  after_transition info drive (n, true) = after_run info drive n agent.accepts_run

  unfoldable pub after_poll : InstanceInfo → Text → Option (Node × Bool) → Drive
  unfolding after_transition transition
  after_poll info drive none = polling
  after_poll info drive (some (n, false)) = stop n (prepare_image info drive ∷ [])
  after_poll info drive (some (n, true)) =
      after_transition info drive (transition deploying run_image n)

  -- Once `standby.prepare_image` is sent.
  unfoldable pub after_prepare : InstanceInfo → Text → Node → Option Text → Drive
  unfolding after_poll poll_until_terminal set_command_id force_state is_empty
  after_prepare info drive n none = stop (force_state failed n) (prepare_image info drive ∷ [])
  after_prepare info drive n (some id) =
      if is_empty id
      then stop (force_state failed n) (prepare_image info drive ∷ [])
      else after_poll info drive
          (poll_until_terminal (agent.begun + time_limit) agent.polls (set_command_id id n))

  unfoldable pub dispatch : Text → Node → Option InstanceInfo → Drive
  unfolding after_prepare
  dispatch drive n none = panicked
  dispatch drive n (some info) = after_prepare info drive n agent.prepared

  unfoldable pub begin : Text → Node × Bool → Drive
  unfolding dispatch instance_info
  begin drive (n, false) = stop n []
  begin drive (n, true) = dispatch drive n (instance_info s n.uuid)

  -- `driveDeploy`, with the text of the config drive, empty where it could not be made.
  unfoldable pub drive_deploy : Text → Node → Drive
  unfolding begin transition is_empty
  drive_deploy drive n =
      if is_empty n.callback_url then stop n [] else begin drive (transition new deploying n)
