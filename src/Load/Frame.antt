-- ===== src/Load/Frame.antt =====
-- What loading a package does to the files.
use peer_file_torrent.Base.{Returns, ℕ, ◌≡◌, ◌⊎◌, Option, some, List, replicate, Run}
use peer_file_torrent.Package.{Bpkg}
use peer_file_torrent.Load.{Files}

-- From `fs` to `fs'` no file has changed or gone, and at most one was created, of zeros.
pub record IsKept (fs fs' : Files) : Type 0 where
  pub kept : (path bytes : List ℕ) → fs path ≡ some bytes → fs' path ≡ some bytes
  pub created :
      (path bytes : List ℕ)
      → fs' path ≡ some bytes
      → (fs path ≡ some bytes) ⊎ ((n : ℕ) × (bytes ≡ replicate n 0))

-- What a run returns, if it returns.
abbrev Leaves : Files → Run (Files × Option Bpkg) → Type 0
Leaves fs r = Returns (λ (fs', p). IsKept fs fs') r
