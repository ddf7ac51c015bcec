-- ===== src/State/Tests.antt =====
-- The deploy-state tracker at concrete inputs.
use auto_pxe.Prelude.{
  ◌≡◌, refl, true, false, none, [], ◌∷◌, if◌then◌else◌, ◌||◌, Text, codes, text_eq, ◌=?◌, List,
  Returns, lookup, any, text_beq, is_empty,
}
use auto_pxe.Storage.{Disk, all_well}
use auto_pxe.State.{FileFormat, Tracker, ok, new_tracker, canon, is_deployed, mark_deployed, forget}
use auto_pxe.State.Tracked
use auto_pxe.State.Refines

abbrev empty_disk : Disk FileFormat
empty_disk = record { file = none; tmp = none }

abbrev path : Text
path = codes "/var/lib/autopxe/state.json"

abbrev empty : Tracker
empty = record { path = path; contents = record { version = 1; deployed = [] } }

new_tracker_runs : new_tracker true empty_disk path ≡ ok empty
unfolding new_tracker
new_tracker_runs = refl

abbrev mac_1 : Text
mac_1 = codes "AA-BB-CC-DD-EE-01"

abbrev mac_2 : Text
mac_2 = codes "aa:bb:cc:dd:ee:02"

is_deployed-mark_deployed_example :
    is_deployed mac_1 (mark_deployed 7 all_well (mac_1 ∷ []) [] [] empty empty_disk).tracker
    ≡ Tracked.names mac_1 (mac_1 ∷ []) || is_deployed mac_1 empty
is_deployed-mark_deployed_example =
    Tracked.is_deployed-mark_deployed 7 all_well (mac_1 ∷ []) [] [] mac_1 empty empty_disk

is_deployed-forget_example :
    let r = forget all_well mac_1 empty empty_disk in
    (r.1 ≡ is_deployed mac_1 empty)
    × (is_deployed mac_2 r.0.tracker
        ≡ (if canon mac_1 =? canon mac_2 then false else is_deployed mac_2 empty))
is_deployed-forget_example = Tracked.is_deployed-forget all_well mac_1 mac_2 empty empty_disk

new_tracker-mark_deployed_example :
    let r = mark_deployed 7 all_well (mac_1 ∷ mac_2 ∷ []) [] [] empty empty_disk in
    new_tracker true r.disk path ≡ ok r.tracker
unfolding mark_deployed
new_tracker-mark_deployed_example =
    Tracked.new_tracker-mark_deployed 7 all_well (mac_1 ∷ mac_2 ∷ []) [] [] empty empty_disk refl

-- A MAC is marked, its record is forgotten with a write that fails, and the program restarts.
abbrev calls : List Refines.Call
calls =
    Refines.marks 7 all_well (mac_1 ∷ []) [] []
    ∷ Refines.forgets (record all_well { renamed = false }) mac_1
    ∷ Refines.restarts
    ∷ []

abbrev nothing : Refines.View
nothing = record { current = λ c. false; durable = λ c. false }

empty-Refines : Refines.Refines nothing (empty, empty_disk)
unfolding lookup
empty-Refines = record { current = λ c. refl; durable = λ c. refl; parses = λ h. cc }

run-Refines_example :
    Returns (Refines.Refines (Refines.specs calls nothing)) (Refines.run calls (empty, empty_disk))
run-Refines_example = Refines.run-Refines calls nothing (empty, empty_disk) empty-Refines

-- It is deployed again.
comes_back : (Refines.specs calls nothing).current (canon mac_1) ≡ true
unfolding canon any text_beq is_empty
comes_back = refl
