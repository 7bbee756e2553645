-- ===== src/Peers/Lookup.antt =====
-- The table as a map from addresses to peers.
use peer_file_torrent.Base.{
  ℕ, ◌<◌, ◌≡◌, refl, sym, ap₂, ◌∙◌, Bool, true, false, ◌&&◌, Option, none, some, List, [], ◌∷◌,
  arith, length, leb, ltb, ◌==◌, ◌≤◌, if◌then◌else◌, Bool-cases, inl, inr, str_eq, str_eq_iff, u16,
}
use peer_file_torrent.Peers.{
  Peer, Peers, fill_slot, peers_add, is_at, clear_slot, peers_remove, find_slot, peers_find,
}
use peer_file_torrent.Peers.Valid.{IsValid, taken}

is_at-eq :
    (ip : List ℕ) (port : ℕ) (p : Peer) → is_at ip port p ≡ true → (p.ip ≡ ip) × (p.port ≡ port)
unfolding is_at
is_at-eq ip port p h = ground (arith, str_eq_iff p.ip ip)

-- The address at which `p` is, is its own.
abbrev same_address : List ℕ → ℕ → List ℕ → ℕ → Bool
same_address ip port jp qort = str_eq ip jp && port == qort

same_address-eq :
    (ip jp : List ℕ) (port qort : ℕ)
    → same_address ip port jp qort ≡ true
    → (ip ≡ jp) × (port ≡ qort)
same_address-eq ip jp port qort h = ground (arith, str_eq_iff ip jp)

is_at_two :
    (ip jp : List ℕ) (port qort : ℕ) (p : Peer)
    → is_at ip port p ≡ true
    → is_at jp qort p ≡ same_address ip port jp qort
unfolding is_at
is_at_two ip jp port qort p h =
    ap₂ (λ s (n : ℕ). str_eq s jp && n == qort) (is_at-eq ip port p h).0 (is_at-eq ip port p h).1

-- No two slots hold the same address.
abbrev pub Distinct : List (Option Peer) → Type 0
Distinct [] = Unit
Distinct (none ∷ slots) = Distinct slots
Distinct (some p ∷ slots) = (find_slot p.ip p.port slots ≡ none) × Distinct slots

find_slot-fill_slot :
    (ip : List ℕ) (port : ℕ) (p : Peer) (slots : List (Option Peer))
    → taken slots < length slots
    → find_slot p.ip p.port slots ≡ none
    → find_slot ip port (fill_slot p slots).0
      ≡ (if is_at ip port p then some p else find_slot ip port slots)
unfolding find_slot fill_slot
find_slot-fill_slot ip port p [] room absent = absurd (omega arith)
find_slot-fill_slot ip port p (none ∷ slots) room absent = refl
find_slot-fill_slot ip port p (some q ∷ slots) room absent =
    let apart : is_at p.ip p.port q ≡ false = ground arith in
    let rest = find_slot-fill_slot ip port p slots (omega arith) (ground (arith, apart)) in
    elim (Bool-cases (is_at ip port p)) [
      | inl here ↦
          let other : is_at ip port q ≡ false =
            ap₂ (λ s (n : ℕ). is_at s n q) (sym (is_at-eq ip port p here).0)
              (sym (is_at-eq ip port p here).1)
            ∙ apart in
          rw (here, other) (rest ∙ rw here)
      | inr away ↦ ground (arith, rest, away)
    ]

find_slot-clear_slot :
    (ip jp : List ℕ) (port qort : ℕ) (slots : List (Option Peer))
    → Distinct slots
    → find_slot jp qort (clear_slot ip port slots).0
      ≡ (if same_address ip port jp qort then none else find_slot jp qort slots)
unfolding find_slot clear_slot
find_slot-clear_slot ip jp port qort [] d = ground arith
find_slot-clear_slot ip jp port qort (none ∷ slots) d = find_slot-clear_slot ip jp port qort slots d
find_slot-clear_slot ip jp port qort (some q ∷ slots) d =
    let rest = find_slot-clear_slot ip jp port qort slots d.1 in
    elim (Bool-cases (is_at ip port q)) [
      | inl hit ↦ rw hit (elim (Bool-cases (same_address ip port jp qort)) [
        | inl same ↦ rw same (
            ap₂ (λ s (n : ℕ). find_slot s n slots)
              (sym ((is_at-eq ip port q hit).0 ∙ (same_address-eq ip jp port qort same).0))
              (sym ((is_at-eq ip port q hit).1 ∙ (same_address-eq ip jp port qort same).1))
            ∙ d.0)
        | inr other ↦ rw (is_at_two ip jp port qort q hit, other)
      ])
      | inr miss ↦ rw miss (elim (Bool-cases (same_address ip port jp qort)) [
        | inl same ↦
            let other : is_at jp qort q ≡ false =
              ap₂ (λ s (n : ℕ). is_at s n q) (sym (same_address-eq ip jp port qort same).0)
                (sym (same_address-eq ip jp port qort same).1)
              ∙ miss in
            rw (same, other) (rest ∙ rw same)
        | inr other ↦ rw other (ground (arith, rest, other))
      ])
    ]

is_at_sym : (p q : Peer) → is_at p.ip p.port q ≡ is_at q.ip q.port p
unfolding is_at
is_at_sym p q = ground (arith, str_eq_iff p.ip q.ip, str_eq_iff q.ip p.ip)

fill_slot-Distinct :
    (p : Peer) (slots : List (Option Peer))
    → taken slots < length slots
    → find_slot p.ip p.port slots ≡ none
    → Distinct slots
    → Distinct (fill_slot p slots).0
unfolding find_slot fill_slot
fill_slot-Distinct p [] room absent d = absurd (omega arith)
fill_slot-Distinct p (none ∷ slots) room absent d = (absent, d)
fill_slot-Distinct p (some q ∷ slots) room absent d =
    let apart : is_at p.ip p.port q ≡ false = ground arith in
    let rest : find_slot p.ip p.port slots ≡ none = ground (arith, apart) in
    let other : is_at q.ip q.port p ≡ false = sym (is_at_sym p q) ∙ apart in
    (
      find_slot-fill_slot q.ip q.port p slots (omega arith) rest ∙ rw other d.0,
      fill_slot-Distinct p slots (omega arith) rest d.1,
    )

clear_slot-Distinct :
    (ip : List ℕ) (port : ℕ) (slots : List (Option Peer))
    → Distinct slots
    → Distinct (clear_slot ip port slots).0
unfolding clear_slot
clear_slot-Distinct ip port [] d = d
clear_slot-Distinct ip port (none ∷ slots) d = clear_slot-Distinct ip port slots d
clear_slot-Distinct ip port (some q ∷ slots) d = elim (Bool-cases (is_at ip port q)) [
  | inl hit ↦ rw hit d.1
  | inr miss ↦ rw miss (
    find_slot-clear_slot ip q.ip port q.port slots d.1 ∙ ground (arith, d.0),
    clear_slot-Distinct ip port slots d.1,
  )
]

-- A peer that is not at the address changes nothing at it.
find_slot-fill_slot_away :
    (ip : List ℕ) (port : ℕ) (p : Peer) (slots : List (Option Peer))
    → is_at ip port p ≡ false
    → find_slot ip port (fill_slot p slots).0 ≡ find_slot ip port slots
unfolding find_slot fill_slot
find_slot-fill_slot_away ip port p [] away = refl
find_slot-fill_slot_away ip port p (none ∷ slots) away = rw away refl
find_slot-fill_slot_away ip port p (some q ∷ slots) away =
    let rest = find_slot-fill_slot_away ip port p slots away in ground (arith, rest)

is_at_wide : (ip : List ℕ) (port : ℕ) (p : Peer) → 65536 ≤ p.port → is_at ip (u16 port) p ≡ false
unfolding is_at
is_at_wide ip port p wide =
    let apart : (p.port == u16 port) ≡ false = ground arith in ground (arith, apart)

-- With room in a valid table, where a search for the address of a new peer finds nothing, `peers_add`
-- makes the peer the answer to every search for its address, and changes no other answer. A search
-- cuts its port to 16 bits, so a peer with a port beyond them is the answer to none.
pub peers_find-peers_add :
    (ps : Peers) (p : Peer) (ip : List ℕ) (port : ℕ)
    → IsValid ps
    → ps.npeers_cur < ps.npeers_max
    → peers_find ps p.ip p.port ≡ none
    → peers_find (peers_add ps p) ip port
      ≡ (if ltb p.port 65536 && is_at ip (u16 port) p then some p else peers_find ps ip port)
unfolding peers_find peers_add
peers_find-peers_add ps p ip port v room absent =
    let open_slot : leb ps.npeers_max ps.npeers_cur ≡ false = ground arith in
    let free : taken ps.list < length ps.list = omega (arith, v.sized, v.counted) in
    rw open_slot (elim (Bool-cases (ltb p.port 65536)) [
      | inl narrow ↦
          let own : u16 p.port ≡ p.port = ground arith in
          let missing : find_slot p.ip p.port ps.list ≡ none = rw own at absent in
          rw narrow (find_slot-fill_slot ip (u16 port) p ps.list free missing)
      | inr wide ↦
          let away = is_at_wide ip port p (ground arith) in
          rw wide (find_slot-fill_slot_away ip (u16 port) p ps.list away)
    ])

-- No address is held twice after `peers_add` of a peer whose address is held by none.
pub peers_add-Distinct :
    (ps : Peers) (p : Peer)
    → IsValid ps
    → Distinct ps.list
    → ps.npeers_cur < ps.npeers_max
    → find_slot p.ip p.port ps.list ≡ none
    → Distinct (peers_add ps p).list
unfolding peers_add
peers_add-Distinct ps p v d room absent =
    let open_slot : leb ps.npeers_max ps.npeers_cur ≡ false = ground arith in
    let free : taken ps.list < length ps.list = omega (arith, v.sized, v.counted) in
    rw open_slot (fill_slot-Distinct p ps.list free absent d)

-- In a table that holds no address twice, `peers_remove` of an address makes every search for that
-- ip whose port, cut to 16 bits, is the removed one find nothing; every other search answers as
-- before, so that one for a removed port beyond 16 bits may still find a peer. No address is held
-- twice afterwards.
pub peers_find-peers_remove :
    (ps : Peers) (ip jp : List ℕ) (port qort : ℕ)
    → Distinct ps.list
    → (peers_find (peers_remove ps ip port) jp qort
        ≡ (if str_eq ip jp && port == u16 qort then none else peers_find ps jp qort))
      × Distinct (peers_remove ps ip port).list
unfolding peers_find peers_remove
peers_find-peers_remove ps ip jp port qort d =
    (find_slot-clear_slot ip jp port (u16 qort) ps.list d, clear_slot-Distinct ip port ps.list d)
