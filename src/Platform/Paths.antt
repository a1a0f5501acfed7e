-- ===== src/Platform/Paths.antt =====
-- carbon-pc/src/platform/Paths.cpp. The two roots are arguments.
use open_carbon.Base.{
  ℕ, zero, suc, List, [], ◌∷◌, ◌++◌, Bool, true, false, ◌&&◌, ◌==◌, if◌then◌else◌, ◌≡◌, refl,
}

-- `rest.substr(rest.find_first_not_of('/'))`, and nothing for slashes alone.
abbrev pub without_slashes : List ℕ → List ℕ
without_slashes [] = []
without_slashes (c ∷ rest) =
    let further = without_slashes rest in if c == b'/' then further else c ∷ rest

abbrev pub below : List ℕ → List ℕ → List ℕ
below root [] = root
below root (c ∷ rest) = root ++ (b'/' ∷ c ∷ rest)

unfoldable pub join_path : List ℕ → List ℕ → List ℕ
join_path root rest = below root (without_slashes rest)

-- `path.rfind(prefix, 0) == 0`
abbrev pub starts_with : List ℕ → List ℕ → Bool
starts_with [] path = true
starts_with (c ∷ prefix) [] = false
starts_with (c ∷ prefix) (d ∷ path) = c == d && starts_with prefix path

-- `path.substr(n)`
abbrev pub substr : ℕ → List ℕ → List ℕ
substr zero path = path
substr (suc n) [] = []
substr (suc n) (c ∷ path) = substr n path

unfoldable pub resolve : List ℕ → List ℕ → List ℕ → List ℕ
unfolding join_path
resolve rom_root save_root path =
    if starts_with (b'r' ∷ b'o' ∷ b'm' ∷ b':' ∷ b'/' ∷ []) path
    then join_path rom_root (substr 5 path)
    else if starts_with (b's' ∷ b'a' ∷ b'v' ∷ b'e' ∷ b':' ∷ b'/' ∷ []) path
    then join_path save_root (substr 6 path)
    else path

-- A path of the save directory that goes on with no slash stands below the save root.
pub resolve-save :
    (rom_root save_root : List ℕ) (c : ℕ) (rest : List ℕ)
    → (c == b'/') ≡ false
    → resolve rom_root save_root (b's' ∷ b'a' ∷ b'v' ∷ b'e' ∷ b':' ∷ b'/' ∷ c ∷ rest)
      ≡ save_root ++ (b'/' ∷ c ∷ rest)
unfolding resolve join_path
resolve-save rom_root save_root c rest e = rw (e) refl
