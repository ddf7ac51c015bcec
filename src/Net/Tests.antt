-- ===== src/Net/Tests.antt =====
-- The canonical form of hardware addresses, at concrete texts.
use auto_pxe.Prelude.{ℕ, ◌≡◌, refl, ◌↔◌, List, [], ◌∷◌, codes}
use auto_pxe.Net.Mac.{parse_mac}
use auto_pxe.Net.Canon
use auto_pxe.Net.Canon.{canon}

abbrev address : List ℕ
address = 0xaa ∷ 0xbb ∷ 0xcc ∷ 0xdd ∷ 0xee ∷ 0x01 ∷ []

canon_dashes : canon (codes "AA-BB-CC-DD-EE-01") ≡ codes "aa:bb:cc:dd:ee:01"
unfolding canon
canon_dashes = refl

canon_other : canon (codes " Not A MAC ") ≡ codes "not a mac"
unfolding canon
canon_other = refl

canon-eq_iff_example :
    (canon (codes "AA-BB-CC-DD-EE-01") ≡ canon (codes "aabb.ccdd.ee01")) ↔ (address ≡ address)
unfolding parse_mac
canon-eq_iff_example =
    Canon.canon-eq_iff (codes "AA-BB-CC-DD-EE-01") (codes "aabb.ccdd.ee01") address address refl
      refl
