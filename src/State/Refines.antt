-- ===== src/State/Refines.antt =====
-- internal/state/state.go: the tracker with its file is a set of MACs with a durable copy.
use auto_pxe.Prelude.{
  ℕ, Bool, true, false, ◌||◌, ◌&&◌, ◌≡◌, ◌≢◌, refl, sym, ap, ◌∙◌, Option, none, some, List, [], ◌∷◌,
  if◌then◌else◌, Text, lookup, delete, text_eq, arith, ◌=?◌, lookup-delete, text_beq_iff,
  Option-cases, inl, inr, is_some, Returns, Returns-bind, ◌>>=◌,
}
use auto_pxe.Storage.{succeeds, Content, document, garbage, Disk, Io, replace}
use auto_pxe.State.{
  Record, FileFormat, Tracker, Loaded, ok, err, parse_failed, current_version, new_tracker, Saved,
  save, canon, mark_all, mark_deployed, forget, forget_found, forget_all, with_deployed, load,
}
use auto_pxe.State.Tracked.{is_named, lookup-mark_all, save-deployed}

-- A call that changes the tracker, or a restart of the program.
pub data Call : Type 0 where
  marks : ℕ → Io → List Text → Text → Text → Call
  forgets : Io → Text → Call
  forgets_all : Io → Call
  restarts : Call

-- The specification: two sets of canonical MACs, the one in force and the one that a restart brings back.
pub record View : Type 0 where
  pub current : Text → Bool
  pub durable : Text → Bool

abbrev pub becomes : Bool → (Text → Bool) → View → View
becomes saved macs v = record {
  current = macs;
  durable = λ c. if saved then macs c else v.durable c;
}

abbrev pub spec : Call → View → View
spec (marks now io macs uuid hash) v = becomes (succeeds io) (λ c. is_named c macs || v.current c) v
spec (forgets io mac) v =
    becomes (v.current (canon mac) && succeeds io)
      (λ c. if canon mac =? c then false else v.current c) v
spec (forgets_all io) v = becomes (succeeds io) (λ c. false) v
spec restarts v = record v { current = v.durable }

abbrev pub specs : List Call → View → View
specs [] v = v
specs (c ∷ cs) v = specs cs (spec c v)

abbrev pub Running : Type 0
Running = Tracker × Disk FileFormat

abbrev saved : Saved → Option Running
saved r = some (r.tracker, r.disk)

restarted : Disk FileFormat → Loaded → Option Running
restarted d (ok t) = some (t, d)
restarted d (err e) = none

-- A call of the code. `none` is a restart that fails.
unfoldable pub call : Call → Running → Option Running
unfolding mark_deployed forget forget_all restarted new_tracker
call (marks now io macs uuid hash) (t, d) = saved (mark_deployed now io macs uuid hash t d)
call (forgets io mac) (t, d) = saved (forget io mac t d).0
call (forgets_all io) (t, d) = saved (forget_all io t d)
call restarts (t, d) = restarted d (new_tracker true d t.path)

unfoldable pub run : List Call → Running → Option Running
unfolding call
run [] s = some s
run (c ∷ cs) s = do s' ← call c s; run cs s'

-- The records that the file holds.
abbrev stored : Option (Content FileFormat) → List (Text × Record)
stored (some (document f)) = f.deployed
stored _ = []

abbrev has : Text → List (Text × Record) → Bool
has c m = is_some (lookup c m)

pub record Refines (v : View) (s : Running) : Type 0 where
  pub current : (c : Text) → has c s.0.contents.deployed ≡ v.current c
  pub durable : (c : Text) → has c (stored s.1.file) ≡ v.durable c
  pub parses : s.1.file ≢ some garbage

save-file :
    (io : Io) (t : Tracker) (d : Disk FileFormat)
    → (stored (save io t d).disk.file
        ≡ (if succeeds io then t.contents.deployed else stored d.file))
      × (d.file ≢ some garbage → (save io t d).disk.file ≢ some garbage)
unfolding save replace
save-file io t d = ground arith

save-Refines :
    (io : Io) (v w : View) (t : Tracker) (d : Disk FileFormat)
    → ((c : Text) → has c t.contents.deployed ≡ w.current c)
    → ((c : Text) → w.durable c ≡ (if succeeds io then w.current c else v.durable c))
    → ((c : Text) → has c (stored d.file) ≡ v.durable c)
    → d.file ≢ some garbage
    → Refines w ((save io t d).tracker, (save io t d).disk)
save-Refines io v w t d now later before parses = record {
  current = λ c. rw (save-deployed io t d) (now c);
  durable = λ c. rw (save-file io t d).0 (ground (arith, now c, later c, before c));
  parses = (save-file io t d).1 parses;
}

module _ (v : View) (t : Tracker) (d : Disk FileFormat) (r : Refines v (t, d)) where
  marks-Refines :
      (now : ℕ) (io : Io) (macs : List Text) (uuid hash : Text)
      → Returns
          (Refines (spec (marks now io macs uuid hash) v))
          (call (marks now io macs uuid hash) (t, d))
  unfolding call mark_deployed
  marks-Refines now io macs uuid hash =
      save-Refines io v (spec (marks now io macs uuid hash) v)
        (with_deployed t (mark_all macs _ t.contents.deployed)) d
        (λ c. rw (lookup-mark_all macs _ c t.contents.deployed) (ground (arith, r.current c)))
        (λ c. refl) r.durable r.parses

  forgets_all-Refines :
      (io : Io) → Returns (Refines (spec (forgets_all io) v)) (call (forgets_all io) (t, d))
  unfolding call forget_all lookup
  forgets_all-Refines io =
      save-Refines io v (spec (forgets_all io) v) (with_deployed t []) d (λ c. refl) (λ c. refl)
        r.durable r.parses

  forgets-Refines :
      (io : Io) (mac : Text)
      → Returns (Refines (spec (forgets io mac) v)) (call (forgets io mac) (t, d))
  unfolding call forget forget_found
  forgets-Refines io mac = elim (Option-cases (lookup (canon mac) t.contents.deployed)) [
    | inl e ↦ rw e (record {
      current = λ c. ground (arith, r.current c, text_beq_iff (canon mac) c);
      durable = λ c. ground (arith, r.durable c, r.current (canon mac));
      parses = r.parses;
    })
    | inr (x, e) ↦ rw e (
        save-Refines io v (spec (forgets io mac) v)
          (with_deployed t (delete (canon mac) t.contents.deployed)) d
          (λ c. rw (lookup-delete (canon mac) c t.contents.deployed) (ground (arith, r.current c)))
          (λ c. ground (arith, r.current (canon mac))) r.durable r.parses)
  ]

  restarts-Refines : Returns (Refines (spec restarts v)) (call restarts (t, d))
  unfolding call new_tracker load lookup
  restarts-Refines = go d.file refl
    where
      empty : Tracker
      empty = record {
        path = t.path;
        contents = record { version = current_version; deployed = [] };
      }

      go :
          (o : Option (Content FileFormat))
          → d.file ≡ o
          → Returns (Refines (spec restarts v)) (
              restarted d (elim o [
                | none ↦ ok empty
                | some garbage ↦ err parse_failed
                | some (document f) ↦ ok (record empty { contents = f })
              ]))
      go none e = record {
        current = λ c. ap (λ o. has c (stored o)) (sym e) ∙ r.durable c;
        durable = r.durable;
        parses = r.parses;
      }
      go (some garbage) e = r.parses e
      go (some (document f)) e = record {
        current = λ c. ap (λ o. has c (stored o)) (sym e) ∙ r.durable c;
        durable = r.durable;
        parses = r.parses;
      }

call-Refines :
    (c : Call) (v : View) (s : Running) → Refines v s → Returns (Refines (spec c v)) (call c s)
call-Refines (marks now io macs uuid hash) v (t, d) r = marks-Refines v t d r now io macs uuid hash
call-Refines (forgets io mac) v (t, d) r = forgets-Refines v t d r io mac
call-Refines (forgets_all io) v (t, d) r = forgets_all-Refines v t d r io
call-Refines restarts v (t, d) r = restarts-Refines v t d r

-- The tracker and its file stand for the specification after any sequence of calls and restarts, if they
-- did before, whichever saves fail: a MAC is deployed if it was marked and not forgotten since, a restart
-- brings back the set of the last save that succeeded, and no restart fails.
pub run-Refines :
    (cs : List Call) (v : View) (s : Running)
    → Refines v s
    → Returns (Refines (specs cs v)) (run cs s)
unfolding run
run-Refines [] v s r = r
run-Refines (c ∷ cs) v s r =
    Returns-bind (Refines (spec c v)) (Refines (specs cs (spec c v))) (call c s) (run cs)
      (call-Refines c v s r) (λ s' r'. run-Refines cs (spec c v) s' r')
