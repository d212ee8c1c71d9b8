-- ===== src/Database/Files/Laws.antt =====
-- Looking a path up after a change of the tree.
use proj_rc.Shared.Chars.{isalnum, all_bytes}
use proj_rc.Base.{
  ℕ, zero, suc, ◌-◌, ◌≤◌, ◌<◌, All, ◌==◌, false, length, Bytes, true, ◌≡◌, refl, none, some, [],
  ◌∷◌, arith, if◌then◌else◌, ap, sym, ◌∙◌,
}
use proj_rc.Database.Files.Paths.{FilePath, path_eq, path_eq_refl, path_eq→eq}
use proj_rc.Database.Files.{
  Node, Entries, FileSystem, find, put, delete, fgets, first_line, write_file, read_file, regular,
  directory, mkdir,
}

pub find-put :
    (q p : FilePath) (n : Node) (e : Entries)
    → find q (put p n e) ≡ (if path_eq p q then some n else find q e)
unfolding find put
find-put q p n [] = refl
find-put q p n ((r, m) ∷ e) = ground (
  arith,
  find-put q p n e,
  path_eq→eq r p,
  path_eq→eq r q,
  path_eq→eq p q,
  path_eq_refl p,
  path_eq_refl q,
)

pub find-delete :
    (q p : FilePath) (e : Entries) → find q (delete p e) ≡ (if path_eq p q then none else find q e)
unfolding find delete
find-delete q p [] = ground arith
find-delete q p ((r, m) ∷ e) = ground (
  arith,
  find-delete q p e,
  path_eq→eq r p,
  path_eq→eq r q,
  path_eq→eq p q,
  path_eq_refl p,
  path_eq_refl q,
)

alnum_line : (n : ℕ) (s : Bytes) → length s ≤ n → all_bytes isalnum s ≡ true → first_line n s ≡ s
unfolding first_line isalnum
alnum_line zero [] l h = refl
alnum_line zero (c ∷ s) l h = absurd (omega arith)
alnum_line (suc n) [] l h = refl
alnum_line (suc n) (c ∷ s) l h = ground (arith, alnum_line n s)

-- Letters and digits, eight at most, are read back whole by `fgets(content, 9, fp)`.
pub fgets-alnum :
    (s : Bytes) → 1 ≤ length s → length s ≤ 8 → all_bytes isalnum s ≡ true → fgets 9 s ≡ some s
unfolding fgets
fgets-alnum [] l u h = absurd (omega arith)
fgets-alnum (c ∷ s) l u h = ap some (alnum_line 8 (c ∷ s) u h)

whole_line :
    (n : ℕ) (s : Bytes) → length s ≤ n → All (λ c. (c == 10) ≡ false) s → first_line n s ≡ s
unfolding first_line
whole_line zero [] l h = refl
whole_line zero (c ∷ s) l h = absurd (omega arith)
whole_line (suc n) [] l h = refl
whole_line (suc n) (c ∷ s) l (k, h) = rw k (ap (λ t. c ∷ t) (whole_line n s (omega arith) h))

-- A line that fits is read back whole.
pub fgets-line :
    (n : ℕ) (s : Bytes)
    → 0 < length s
    → length s < n
    → All (λ c. (c == 10) ≡ false) s
    → fgets n s ≡ some s
unfolding fgets
fgets-line n [] l u h = absurd (omega arith)
fgets-line n (c ∷ s) l u h = ap some (whole_line (n - 1) (c ∷ s) (omega arith) h)

-- A file that has been written is read back.
pub read_file-write_file :
    (p : FilePath) (s : Bytes) (fs fs' : FileSystem)
    → write_file p s fs ≡ (true, fs')
    → read_file p fs' ≡ some s
unfolding write_file
read_file-write_file p s fs fs' h =
    let made : put p (regular s) fs.entries ≡ fs'.entries = ground (arith, h) in
    let found : find p fs'.entries ≡ some (regular s) =
      ap (find p) (sym made) ∙ (find-put p p (regular s) fs.entries ∙ rw (path_eq_refl p) refl) in
    rw (read_file, found) refl

-- The tree after a directory has been made.
pub find-mkdir :
    (p q : FilePath) (fs fs' : FileSystem)
    → mkdir p fs ≡ (true, fs')
    → find q fs'.entries ≡ (if path_eq p q then some directory else find q fs.entries)
unfolding mkdir
find-mkdir p q fs fs' h =
    let made : put p directory fs.entries ≡ fs'.entries = ground (arith, h) in
    ap (find q) (sym made) ∙ find-put q p directory fs.entries

-- The tree after a file has been written.
pub find-write_file :
    (p q : FilePath) (s : Bytes) (fs fs' : FileSystem)
    → write_file p s fs ≡ (true, fs')
    → find q fs'.entries ≡ (if path_eq p q then some (regular s) else find q fs.entries)
unfolding write_file
find-write_file p q s fs fs' h =
    let made : put p (regular s) fs.entries ≡ fs'.entries = ground (arith, h) in
    ap (find q) (sym made) ∙ find-put q p (regular s) fs.entries
