-- ===== src/Base/Text.antt =====
-- C strings as the lists of their bytes, with no byte for the end.
use Prim.Native.Nat.{ℕ, zero, suc}
use mathlib.Core.Path.{◌≡◌, refl}
use mathlib.Core.Logic.{◌↔◌}
use mathlib.Core.Bool.{Bool, true, false, ◌&&◌, ◌||◌}
use mathlib.Core.List.{List, [], ◌∷◌}
use native.Mathlib.Omega.{arith}
use peer_file_torrent.Base.Tests.{◌==◌, leb, if◌then◌else◌}

-- `strcmp(s, t) == 0`.
unfoldable pub str_eq : List ℕ → List ℕ → Bool
str_eq [] [] = true
str_eq (a ∷ s) (b ∷ t) = a == b && str_eq s t
str_eq _ _ = false

-- `strncmp(s, t, n) == 0`.
unfoldable pub strn_eq : ℕ → List ℕ → List ℕ → Bool
strn_eq zero s t = true
strn_eq (suc n) (a ∷ s) (b ∷ t) = a == b && strn_eq n s t
strn_eq (suc n) [] [] = true
strn_eq (suc n) [] (b ∷ t) = false
strn_eq (suc n) (a ∷ s) [] = false

pub str_eq_refl : (s : List ℕ) → str_eq s s ≡ true
unfolding str_eq
str_eq_refl [] = refl
str_eq_refl (a ∷ s) = ground (arith, str_eq_refl s)

pub str_eq_sound : (s t : List ℕ) → str_eq s t ≡ true → s ≡ t
unfolding str_eq
str_eq_sound [] [] h = refl
str_eq_sound [] (b ∷ t) h = cc
str_eq_sound (a ∷ s) [] h = cc
str_eq_sound (a ∷ s) (b ∷ t) h = ground (arith, str_eq_sound s t)

pub str_eq_iff : (s t : List ℕ) → (str_eq s t ≡ true) ↔ (s ≡ t)
str_eq_iff s t = (str_eq_sound s t, λ e. rw e (str_eq_refl t))

-- `isspace` in the C locale.
unfoldable pub isspace : ℕ → Bool
isspace x = x == 32 || (leb 9 x && leb x 13)

unfoldable pub skip_space : List ℕ → List ℕ
skip_space [] = []
skip_space (x ∷ s) = let rest = skip_space s in if isspace x then rest else x ∷ s

-- The bytes in front of the first zero byte.
unfoldable pub until_nul : List ℕ → List ℕ
until_nul [] = []
until_nul (x ∷ s) = let rest = until_nul s in if x == 0 then [] else x ∷ rest
