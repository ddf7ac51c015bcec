-- ===== src/Node/Tests.antt =====
-- The node store and its driver flag at concrete inputs.
use auto_pxe.Prelude.{
  ℕ, ◌≤◌, ◌≡◌, refl, true, false, some, List, [], ◌∷◌, Text, codes, arith, any, text_eq, lookup,
  text_beq,
}
use auto_pxe.Node.{Node, new, deploying, new_node, new_uuid}
use auto_pxe.Node.Driver
use auto_pxe.Node.Driver.{Call, heartbeat, moves, forces, starts}
use auto_pxe.Node.Store.{new_store, canonical, first_indexed, get_or_create}
use auto_pxe.Node.Store.Index

abbrev random : List ℕ
random = 1 ∷ 2 ∷ 3 ∷ 4 ∷ 5 ∷ 6 ∷ 7 ∷ 8 ∷ 9 ∷ 10 ∷ 11 ∷ 12 ∷ 13 ∷ 14 ∷ 15 ∷ 16 ∷ []

abbrev fresh_node : Node
fresh_node = new_node random random [] []

new_uuid_runs : new_uuid random ≡ codes "01020304-0506-4708-890a-0b0c0d0e0f10"
unfolding new_uuid
new_uuid_runs = refl

-- A deployment, with a heartbeat before and after each step.
abbrev history : List Call
history =
    heartbeat 1 (codes "http://a")
    ∷ heartbeat 2 (codes "http://a")
    ∷ moves new deploying
    ∷ heartbeat 3 (codes "http://a")
    ∷ forces new
    ∷ heartbeat 4 (codes "http://a")
    ∷ []

starts_once : starts fresh_node history ≡ 1
unfolding starts new_node
starts_once = refl

starts-le_example : starts fresh_node history ≤ 1
unfolding new_node
starts-le_example = Driver.starts-le fresh_node history

abbrev mac_1 : Text
mac_1 = codes "aa:bb:cc:dd:ee:01"

abbrev mac_2 : Text
mac_2 = codes "AA-BB-CC-DD-EE-02"

abbrev macs : List Text
macs = mac_1 ∷ mac_2 ∷ []

get_or_create-shared_example :
    let r = get_or_create random random macs [] new_store in
    (r.1 ≡ some (new_uuid random))
    × (r.2 ≡ true)
    × (get_or_create random random (mac_2 ∷ []) [] r.0 ≡ (r.0, r.1, false))
unfolding canonical first_indexed new_store lookup any text_beq
get_or_create-shared_example =
    Index.get_or_create-shared random random random random macs (mac_2 ∷ []) [] [] new_store refl
      refl refl (λ m h. ground arith)
