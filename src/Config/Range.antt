-- ===== src/Config/Range.antt =====
-- A configuration that is loaded is complete and within its limits.
use peer_file_torrent.Base.{
  ℕ, ◌≤◌, ◌≡◌, ◌≢◌, ◌⊎◌, inl, inr, arith, Bool, true, false, List, [], ◌∷◌, Bool-cases,
  Option-cases, length, ap, str_eq, take,
}
use peer_file_torrent.Config.{
  Config, PathKind, is_dir, is_other, missing, unknown, Parse, stored, rejected, exits, undefined,
  strtok, atoi, outside, fits_int, check_directory, directory_of_kind, and_next, ranged, entry,
  parse_value, parse_key, parse_entry, is_filled, config_load, err_peers, err_port,
}

-- Each number is zero or within its limits.
pub record IsInRange (c : Config) : Type 0 where
  pub max_peers : (c.max_peers ≡ 0) ⊎ ((1 ≤ c.max_peers) × (c.max_peers ≤ 2048))
  pub port : (c.port ≡ 0) ⊎ ((1024 ≤ c.port) × (c.port ≤ 65535))

-- The directory is not empty, and each number is within its limits.
pub record IsComplete (c : Config) : Type 0 where
  pub directory : c.directory ≢ []
  pub max_peers : (1 ≤ c.max_peers) × (c.max_peers ≤ 2048)
  pub port : (1024 ≤ c.port) × (c.port ≤ 65535)

-- A property of the configuration that is stored, if one is.
pub data Stores {W : Type 0} (P : Config → Type 0) : Parse W → Type 0 where
  stores : {w : W} {c : Config} → P c → Stores P (stored w c)
  stores_rejected : {code : ℕ} → Stores P (rejected code)
  stores_exits : {code : ℕ} → Stores P (exits code)
  stores_undefined : Stores P undefined

inside : (low high : ℕ) (v : Bool × ℕ) → outside low high v ≡ false → (low ≤ v.1) × (v.1 ≤ high)
unfolding outside
inside low high (true, n) h = cc
inside low high (false, n) h = (ground arith, ground arith)

Stores-and_next :
    {W : Type 0} {P Q : Config → Type 0} {r : Parse W} {next : W → Config → Parse W}
    → Stores P r
    → ((w : W) (c : Config) → P c → Stores Q (next w c))
    → Stores Q (and_next r next)
unfolding and_next
Stores-and_next (stores p) k = k _ _ p
Stores-and_next stores_rejected k = stores_rejected
Stores-and_next stores_exits k = stores_exits
Stores-and_next stores_undefined k = stores_undefined

module _ {W : Type 0} (stat : W → List ℕ → PathKind) (mkdir : W → List ℕ → W × Bool) where
  check_directory-Stores :
      (P : Config → Type 0) (w : W) (c : Config) (k : PathKind)
      → P c
      → Stores P (directory_of_kind stat mkdir w c k)
  unfolding directory_of_kind
  check_directory-Stores P w c is_dir p = stores p
  check_directory-Stores P w c is_other p = stores_exits
  check_directory-Stores P w c unknown p = stores_rejected
  check_directory-Stores P w c missing p = elim (Bool-cases (mkdir w c.directory).1) [
    | inl e ↦ rw e (stores p)
    | inr e ↦ rw e stores_rejected
  ]

  ranged-Stores :
      (P : Config → Type 0) (w : W) (low high code : ℕ) (put : ℕ → Config) (value : List ℕ)
      → ((n : ℕ) → low ≤ n → n ≤ high → P (put n))
      → Stores P (ranged w low high code put value)
  unfolding ranged
  ranged-Stores P w low high code put value p = elim (Bool-cases (fits_int (atoi value))) [
    | inr e ↦ rw e stores_undefined
    | inl e ↦ elim (Bool-cases (outside low high (atoi value))) [
      | inl f ↦ rw (e, f) stores_rejected
      | inr f ↦
          let (least, most) = inside low high (atoi value) f in
          rw (e, f) (stores (p (atoi value).1 least most))
    ]
  ]

  entry-Stores :
      (w : W) (c : Config) (key value : List ℕ)
      → IsInRange c
      → Stores IsInRange (entry stat mkdir w c key value)
  unfolding entry check_directory
  entry-Stores w c key value r =
      elim (Bool-cases (str_eq key (100 ∷ 105 ∷ 114 ∷ 101 ∷ 99 ∷ 116 ∷ 111 ∷ 114 ∷ 121 ∷ []))) [
        | inl e ↦ rw e (
            check_directory-Stores IsInRange w (record c { directory = take 255 value }) _
              (record { max_peers = r.max_peers; port = r.port }))
        | inr e ↦
            elim (Bool-cases
              (str_eq key (109 ∷ 97 ∷ 120 ∷ 95 ∷ 112 ∷ 101 ∷ 101 ∷ 114 ∷ 115 ∷ []))) [
                | inl f ↦
                    rw (e, f)
                      (ranged-Stores IsInRange w 1 2048 err_peers (λ n. record c { max_peers = n })
                        value λ n low high. record { max_peers = inr (low, high); port = r.port })
                | inr f ↦ elim (Bool-cases (str_eq key (112 ∷ 111 ∷ 114 ∷ 116 ∷ []))) [
                  | inl g ↦
                      rw (e, f, g)
                        (ranged-Stores IsInRange w 1024 65535 err_port (λ n. record c { port = n })
                          value
                          λ n low high. record { max_peers = r.max_peers; port = inr (low, high) })
                  | inr g ↦ rw (e, f, g) stores_rejected
                ]
              ]
      ]

  parse_entry-Stores :
      (w : W) (c : Config) (line : List ℕ)
      → IsInRange c
      → Stores IsInRange (parse_entry stat mkdir w c line)
  unfolding parse_entry parse_key parse_value
  parse_entry-Stores w c line r = elim (Option-cases (strtok 58 line)) [
    | inl e ↦ rw e stores_rejected
    | inr ((key, rest), e) ↦ elim (Option-cases (strtok 10 rest)) [
      | inl f ↦ rw (e, f) stores_rejected
      | inr ((value, more), f) ↦ rw (e, f) (entry-Stores w c key value r)
    ]
  ]

  filled : (c : Config) → IsInRange c → is_filled c ≡ true → IsComplete c
  unfolding is_filled
  filled c r h = record {
    directory = λ e. (let none_left : length c.directory ≡ 0 = ap length e in ground arith);
    max_peers = elim r.max_peers [ inl e ↦ absurd (ground arith) | inr p ↦ p ];
    port = elim r.port [ inl e ↦ absurd (ground arith) | inr p ↦ p ];
  }

-- Into memory where each number is zero or within its limits, `config_load` stores only a configuration with a
-- directory, 1 to 2048 peers and a port from 1024 to 65535, whatever the lines and the file system are.
pub config_load-IsComplete :
    {W : Type 0} (stat : W → List ℕ → PathKind) (mkdir : W → List ℕ → W × Bool) (w : W) (c : Config)
    (lines : List (List ℕ))
    → IsInRange c
    → Stores IsComplete (config_load stat mkdir w c lines)
unfolding config_load
config_load-IsComplete stat mkdir w c [] r = elim (Bool-cases (is_filled c)) [
  | inl e ↦ rw e (stores (filled stat mkdir c r e))
  | inr e ↦ rw e stores_rejected
]
config_load-IsComplete stat mkdir w c (line ∷ lines) r =
    Stores-and_next (parse_entry-Stores stat mkdir w c line r)
      λ w' c' r'. config_load-IsComplete stat mkdir w' c' lines r'
