-- ===== src/Ironic/Deploy/Outcome.antt =====
-- How a deploy driver ends.
use mathlib.Core.Path.{subst}
use auto_pxe.Prelude.{
  sym, ap, ℕ, ◌≤◌, ◌≡◌, refl, Bool, true, false, Option, none, some, List, [], ◌∷◌, Text, is_empty,
  text_eq, length, ltb, any, arith, inl, inr, ◌⊎◌, Bool-cases, Returns, ◌∙◌, ◌+◌,
}
use auto_pxe.Storage.{Disk, Io}
use auto_pxe.Node.{
  Node, new, deploying, run_image, done, failed, transition, force_state, set_command_id,
  same_state,
}
use auto_pxe.State.{FileFormat, Tracker, is_deployed}
use auto_pxe.State.Tracked.{names, is_deployed-mark_deployed}
use auto_pxe.Ironic.{Server, InstanceInfo, instance_info}
use auto_pxe.Ironic.Deploy.{
  Agent, prepare_image, run, Driven, Drive, panicked, polling, returned, recorded, after_run,
  after_transition, after_poll, after_prepare, dispatch, begin, drive_deploy,
}
use auto_pxe.Ironic.Deploy.{time_limit, Command}
use auto_pxe.Ironic.Deploy.Polling.{is_final, Succeeds, HasEnded, poll_until_terminal-HasEnded}

module _ (now : ℕ) (io : Io) (s : Server) (agent : Agent) (t : Tracker) (d : Disk FileFormat) where
  -- What makes a deployment: the agent gives an id for `standby.prepare_image`, reports its success in
  -- time, and accepts `standby.run_image`.
  abbrev pub Completes : Type 0
  Completes =
      ((id : Text) × (agent.prepared ≡ some id) × (is_empty id ≡ false))
      × Succeeds (agent.begun + time_limit) agent.polls
      × (agent.accepts_run ≡ true)

  -- The driver ran to the end: the node is done, it got the two commands in this order, and its MACs
  -- are deployed.
  pub record IsDone (macs : List Text) (r : Driven) : Type 0 where
    pub completed : Completes
    pub state : r.node.state ≡ done
    pub commands :
        (info : InstanceInfo) × (drive : Text) × (r.commands ≡ prepare_image info drive ∷ run ∷ [])
    pub tracker : Tracker
    pub tracker_lem : r.tracker ≡ some tracker
    pub gated : (mac : Text) → names mac macs ≡ true → is_deployed mac tracker ≡ true

  -- The driver gave up: the node has failed, and nothing is recorded.
  pub record HasFailed (r : Driven) : Type 0 where
    pub incomplete : ¬ Completes
    pub state : r.node.state ≡ failed
    pub tracker : r.tracker ≡ some t
    pub disk : r.disk ≡ d

  abbrev pub Ends : List Text → Drive → Type 0
  Ends macs panicked = ⊥
  Ends macs polling = ⊥
  Ends macs (returned r) = IsDone macs r ⊎ HasFailed r

  has_failed :
      (n : Node) (commands : List Command)
      → (¬ Completes)
      → HasFailed
          (record { node = force_state failed n; tracker = some t; disk = d; commands = commands })
  unfolding force_state
  has_failed n commands c = record { incomplete = c; state = refl; tracker = refl; disk = refl }

  after_run-Ends :
      (info : InstanceInfo) (drive : Text) (n : Node) (b : Bool)
      → (b ≡ true → Completes)
      → (b ≡ false → ¬ Completes)
      → Ends n.macs (after_run now io s agent (some t) d info drive n b)
  unfolding after_run recorded force_state
  after_run-Ends info drive n false f g = inr (has_failed n _ (g refl))
  after_run-Ends info drive n true f g = inl (record {
    completed = f refl;
    state = refl;
    commands = (info, drive, refl);
    tracker = _;
    tracker_lem = refl;
    gated = λ mac h.
        ground (arith, is_deployed-mark_deployed now io n.macs n.uuid s.image_hash mac t d);
  })

  module _ (info : InstanceInfo) (drive : Text) (n : Node) where
    after_poll-Ends :
        (o : Option (Node × Bool))
        → same_state n.state deploying ≡ true
        → ((id : Text) × (agent.prepared ≡ some id) × (is_empty id ≡ false))
        → Returns (HasEnded (agent.begun + time_limit) agent.polls n) o
        → Ends n.macs (after_poll now io s agent (some t) d info drive o)
    unfolding after_poll after_transition transition force_state
    after_poll-Ends none e p h = elim h [ ]
    after_poll-Ends (some r) e p h = elim h [
      | inl (q, good) ↦
          subst (λ x. Ends n.macs (after_poll now io s agent (some t) d info drive (some x)))
            (sym q)
            (rw e (
              after_run-Ends info drive (record n { state = run_image }) agent.accepts_run
                (λ a. (p, good, a)) λ a c. cc (a, c.2)))
      | inr (q, bad) ↦
          subst (λ x. Ends n.macs (after_poll now io s agent (some t) d info drive (some x)))
            (sym q) (inr (has_failed n _ λ c. bad c.1))
    ]

  after_prepare-Ends :
      (info : InstanceInfo) (drive : Text) (n : Node) (o : Option Text)
      → agent.prepared ≡ o
      → same_state n.state deploying ≡ true
      → any (is_final (agent.begun + time_limit)) agent.polls ≡ true
      → Ends n.macs (after_prepare now io s agent (some t) d info drive n o)
  unfolding after_prepare set_command_id force_state
  after_prepare-Ends info drive n none e q f = inr (has_failed n _ λ c. cc (sym e ∙ c.0.1))
  after_prepare-Ends info drive n (some id) e q f = elim (Bool-cases (is_empty id)) [
    | inl missing ↦
        rw missing (inr (has_failed n _ λ c. absurd (ground (arith, missing, e, c.0.1, c.0.2))))
    | inr given ↦ rw given (
        after_poll-Ends info drive (set_command_id id n) _ q (id, e, given)
          (poll_until_terminal-HasEnded (agent.begun + time_limit) agent.polls (set_command_id id n)
            f))
  ]

  pub drive_deploy-Ends_of_final :
      (drive : Text) (n : Node)
      → 8 ≤ length n.uuid
      → is_empty n.callback_url ≡ false
      → n.state ≡ new
      → any (is_final (agent.begun + time_limit)) agent.polls ≡ true
      → Ends n.macs (drive_deploy now io s agent (some t) d drive n)
  unfolding drive_deploy begin dispatch transition instance_info
  drive_deploy-Ends_of_final drive n long given fresh f =
      let short : ltb (length n.uuid) 8 ≡ false = ground arith in
      let starts : same_state n.state new ≡ true = ap (λ x. same_state x new) fresh in
      rw (given, starts, short)
        (after_prepare-Ends _ drive (record n { state = deploying }) agent.prepared refl refl f)
