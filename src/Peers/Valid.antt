-- ===== src/Peers/Valid.antt =====
-- The table's counter counts the taken slots, on every operation.
use peer_file_torrent.Base.{
  ℕ, zero, suc, ◌≤◌, ◌<◌, ◌≡◌, refl, true, false, Option, none, some, List, [], ◌∷◌, arith, length,
  length-replicate, replicate, leb, Bool-cases, inl, inr,
}
use peer_file_torrent.Peers.{
  Peer, Peers, peer_list_create, fill_slot, peers_add, is_at, clear_slot, peers_remove,
}

abbrev pub taken : List (Option Peer) → ℕ
taken [] = 0
taken (none ∷ slots) = taken slots
taken (some p ∷ slots) = suc (taken slots)

-- The array has `npeers_max` slots, and `npeers_cur` of them are taken.
pub record IsValid (ps : Peers) : Type 0 where
  pub sized : length ps.list ≡ ps.npeers_max
  pub counted : taken ps.list ≡ ps.npeers_cur
  pub bounded : ps.npeers_max < 18446744073709551616

taken-le-length : (slots : List (Option Peer)) → taken slots ≤ length slots
taken-le-length [] = omega arith
taken-le-length (none ∷ slots) = omega (arith, taken-le-length slots)
taken-le-length (some p ∷ slots) = omega (arith, taken-le-length slots)

taken-replicate : (n : ℕ) → taken (replicate n none) ≡ 0
taken-replicate zero = refl
taken-replicate (suc n) = taken-replicate n

-- A new table is valid.
pub peer_list_create-IsValid : (n : ℕ) → n < 18446744073709551616 → IsValid (peer_list_create n)
unfolding peer_list_create
peer_list_create-IsValid n h = record {
  sized = length-replicate n none;
  counted = taken-replicate n;
  bounded = h;
}

-- A slot is found exactly if one is free, and then one more is taken.
fill_slot_lem :
    (p : Peer) (slots : List (Option Peer))
    → (length (fill_slot p slots).0 ≡ length slots)
      × ((fill_slot p slots).1 ≡ true → taken (fill_slot p slots).0 ≡ suc (taken slots))
      × ((fill_slot p slots).1 ≡ false
          → (taken slots ≡ length slots) × ((fill_slot p slots).0 ≡ slots))
unfolding fill_slot
fill_slot_lem p [] = (refl, λ h. cc, λ h. (refl, refl))
fill_slot_lem p (none ∷ slots) = (refl, λ h. refl, λ h. cc)
fill_slot_lem p (some q ∷ slots) =
    let (len, found, full) = fill_slot_lem p slots in
    (
      omega arith,
      λ h. omega (arith, found h),
      λ h. (omega (arith, (full h).0), ground (arith, full h)),
    )

clear_slot_lem :
    (ip : List ℕ) (port : ℕ) (slots : List (Option Peer))
    → (length (clear_slot ip port slots).0 ≡ length slots)
      × ((clear_slot ip port slots).1 ≡ true
          → suc (taken (clear_slot ip port slots).0) ≡ taken slots)
      × ((clear_slot ip port slots).1 ≡ false → (clear_slot ip port slots).0 ≡ slots)
unfolding clear_slot
clear_slot_lem ip port [] = (refl, λ h. cc, λ h. refl)
clear_slot_lem ip port (none ∷ slots) =
    let (len, found, same) = clear_slot_lem ip port slots in
    (omega arith, λ h. found h, λ h. ground (arith, same h))
clear_slot_lem ip port (some q ∷ slots) =
    let (len, found, same) = clear_slot_lem ip port slots in
    elim (Bool-cases (is_at ip port q)) [
      | inl hit ↦ rw hit (refl, λ h. refl, λ h. cc)
      | inr miss ↦ rw miss (omega arith, λ h. omega (arith, found h), λ h. ground (arith, same h))
    ]

-- `peers_add` keeps a table valid: it has its number of slots, and the count of peers is the number of
-- slots that are taken.
pub peers_add-IsValid : (ps : Peers) (p : Peer) → IsValid ps → IsValid (peers_add ps p)
unfolding peers_add
peers_add-IsValid ps p v =
    let (len, found, full) = fill_slot_lem p ps.list in
    elim (Bool-cases (leb ps.npeers_max ps.npeers_cur)) [
      | inl over ↦ rw over v
      | inr room ↦ rw room (record {
        sized = omega (arith, len, v.sized);
        counted =
            ground (arith, found, full, v.sized, v.counted, v.bounded, taken-le-length ps.list);
        bounded = v.bounded;
      })
    ]

-- `peers_remove` keeps a table valid.
pub peers_remove-IsValid :
    (ps : Peers) (ip : List ℕ) (port : ℕ) → IsValid ps → IsValid (peers_remove ps ip port)
unfolding peers_remove
peers_remove-IsValid ps ip port v =
    let (len, found, same) = clear_slot_lem ip port ps.list in
    record {
      sized = omega (arith, len, v.sized);
      counted = ground (arith, found, same, v.sized, v.counted, v.bounded, taken-le-length ps.list);
      bounded = v.bounded;
    }
