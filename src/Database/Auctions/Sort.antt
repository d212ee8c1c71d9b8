-- ===== src/Database/Auctions/Sort.antt =====
-- `std::sort` with a comparison of numbers that are read from text, and may throw.
pub mod Laws
use proj_rc.Base.{ℕ, Bool, List, [], ◌∷◌, if◌then◌else◌, leb}
use proj_rc.Shared.Outcome.{Outcome, ok, ◌>>=◌}

module _ {A : Type 0} where
  -- Each element with the number that it is compared by.
  unfoldable pub with_keys : (A → Outcome ℕ) → List A → Outcome (List (ℕ × A))
  with_keys key [] = ok []
  with_keys key (x ∷ xs) = key x >>= λ n. with_keys key xs >>= λ more. ok ((n, x) ∷ more)

  unfoldable pub insert_by : ℕ × A → List (ℕ × A) → List (ℕ × A)
  insert_by (n, x) [] = (n, x) ∷ []
  insert_by (n, x) ((m, y) ∷ rest) =
      let more = insert_by (n, x) rest in if leb n m then (n, x) ∷ (m, y) ∷ rest else (m, y) ∷ more

  unfoldable pub sort_pairs : List (ℕ × A) → List (ℕ × A)
  unfolding insert_by
  sort_pairs [] = []
  sort_pairs (p ∷ ps) = insert_by p (sort_pairs ps)

  abbrev pub values : List (ℕ × A) → List A
  values [] = []
  values ((n, x) ∷ ps) = x ∷ values ps

  -- A single element is not compared with anything.
  unfoldable pub sort_by : (A → Outcome ℕ) → List A → Outcome (List A)
  unfolding with_keys sort_pairs
  sort_by key [] = ok []
  sort_by key (x ∷ []) = ok (x ∷ [])
  sort_by key (x ∷ y ∷ xs) = with_keys key (x ∷ y ∷ xs) >>= λ ps. ok (values (sort_pairs ps))
