-- ===== src/Database/Files/Names/Laws.antt =====
-- Names without separators and dots stay in the directory.
use proj_rc.Base.{
  false, ◌≡◌, refl, All, none, some, [], ◌∷◌, ◌==◌, if◌then◌else◌, Bytes, bytes_eq, codes,
  Bool-cases, inl, inr,
}
use proj_rc.Database.Files.{FileSystem, is_dir}
use proj_rc.Database.Files.Paths.{asset_dir, asset_file}
use proj_rc.Database.Files.Names.{components, asset_path, resolve, finish, child}

-- A file's name: no separator and no zero byte, and neither empty nor one of the dots.
pub record IsFileName (name : Bytes) : Type 0 where
  pub no_separator : All (λ c. (c == b'/') ≡ false) name
  pub no_zero : All (λ c. (c == 0) ≡ false) name
  pub not_empty : bytes_eq name [] ≡ false
  pub not_dot : bytes_eq name (codes ".") ≡ false
  pub not_dots : bytes_eq name (codes "..") ≡ false

pub components-plain : (s : Bytes) → All (λ c. (c == b'/') ≡ false) s → components s ≡ s ∷ []
unfolding components
components-plain [] h = refl
components-plain (c ∷ s) (k, h) = rw (k, components-plain s h) refl

pub asset_path-IsFileName :
    (a_id name : Bytes) (fs : FileSystem)
    → IsFileName name
    → asset_path a_id name fs
      ≡ (if is_dir (asset_dir a_id) fs then some (asset_file a_id name) else none)
unfolding asset_path
asset_path-IsFileName a_id name fs h =
    let one = components-plain name h.no_separator in
    elim (Bool-cases (is_dir (asset_dir a_id) fs)) [
      | inl d ↦
          rw (one, d) (unfold resolve finish child in rw (h.not_empty, h.not_dot, h.not_dots) refl)
      | inr d ↦ rw (one, d) (unfold resolve in refl)
    ]
