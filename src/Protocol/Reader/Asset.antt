-- ===== src/Protocol/Reader/Asset.antt =====
-- A file in a message: its name, its size and its bytes.
use proj_rc.Base.{ℕ, ◌≤◌, ◌≡◌, refl, ◌++◌, arith, Bytes, length}
use proj_rc.Shared.Decimal.{to_string, stol_u32}
use proj_rc.Protocol.Adapter.{Adapter, IsLawful}
use proj_rc.Protocol.Reader.{
  Reader, ◌>>=◌, ◌>>◌, lift, read_space, read_string, read_file, max_file_size,
}
use proj_rc.Protocol.Reader.Yields.{Yields, read_string-Yields}
use proj_rc.Protocol.Reader.Fields.{IsWord, number-Yields, read_file-Yields}
use proj_rc.Protocol.Reader.Phrases.{after_space-Yields}
use proj_rc.Protocol.Codes.{space}

-- A file that a message can carry.
pub record IsAsset (fname : Bytes) (fsize : ℕ) (fdata : Bytes) : Type 0 where
  pub name_size : length fname ≤ 24
  pub name_word : IsWord fname
  pub size_eq : fsize ≡ length fdata
  pub size_le : length fdata ≤ max_file_size

module _ (a : Adapter) {pending : a.Source → Bytes} (w : IsLawful a pending) {M : Type 0} where
  open a use {Source}

  pub asset-Yields :
      (k : Bytes → ℕ → Bytes → Reader Source M) (fname : Bytes) (fsize : ℕ) (fdata tail : Bytes)
      (s : Source) {m : M} {rest : Bytes}
      → IsAsset fname fsize fdata
      → pending s ≡ space ++ (fname ++ (space ++ (to_string fsize ++ (space ++ (fdata ++ tail)))))
      → ((t : Source) → pending t ≡ tail → Yields a w (k fname fsize fdata) t m rest)
      → Yields a w
          (read_space a
            >> (read_string a 24 >>= λ f.
                read_space a
                >> ((read_string a 8 >>= λ str. lift (stol_u32 str)) >>= λ n.
                    read_space a >> (read_file a n >>= λ d. k f n d))))
          s
          m
          rest
  asset-Yields k fname fsize fdata tail s v h next =
      after_space-Yields a w (read_string a 24) _ s h
        (λ t g. read_string-Yields a w 24 fname b' ' t _ v.name_size v.name_word refl g)
        λ t g.
          after_space-Yields a w (read_string a 8 >>= λ str. lift (stol_u32 str)) _ t g
            (λ t g.
              number-Yields a w 7 fsize b' ' t _ (omega (arith, v.size_eq, v.size_le))
                (omega (arith, v.size_eq, v.size_le)) refl g)
            λ t g.
              after_space-Yields a w (read_file a fsize) _ t g
                (λ t g. rw v.size_eq (read_file-Yields a w fdata t tail v.size_le g)) next
