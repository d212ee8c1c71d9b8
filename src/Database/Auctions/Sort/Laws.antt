-- ===== src/Database/Auctions/Sort/Laws.antt =====
-- Sorting gives the elements back, in the order of their numbers.
use proj_rc.Base.{
  ℕ, ◌≤◌, ◌≡◌, ◌∙◌, sym, refl, ap, subst, arith, inl, inr, Bool-cases, List, [], ◌∷◌, All, leb,
}
use mathlib.Core.List.{Perm}
use mathlib.Core.List.Perm
use proj_rc.Shared.Outcome.{Outcome, ok, ok-injective, outcome-cases}
use proj_rc.Database.Auctions.Sort.{with_keys, insert_by, sort_pairs, values, sort_by}

module _ {A : Type 0} where
  -- The first component of each pair is at most that of each later one.
  abbrev IsAscending : List (ℕ × A) → Type 0
  IsAscending [] = Unit
  IsAscending (p ∷ ps) = All (λ q. p.0 ≤ q.0) ps × IsAscending ps

  insert_by-All :
      (P : ℕ × A → Type 0) (p : ℕ × A) (ps : List (ℕ × A)) → P p → All P ps → All P (insert_by p ps)
  unfolding insert_by
  insert_by-All P (n, x) [] h hs = (h, tt)
  insert_by-All P (n, x) ((m, y) ∷ ps) h (k, hs) = elim (Bool-cases (leb n m)) [
    | inl e ↦ rw e (h, (k, hs))
    | inr e ↦ rw e (k, insert_by-All P (n, x) ps h hs)
  ]

  All-le : (n m : ℕ) (ps : List (ℕ × A)) → n ≤ m → All (λ q. m ≤ q.0) ps → All (λ q. n ≤ q.0) ps
  All-le n m [] l h = tt
  All-le n m (q ∷ ps) l (k, h) = (omega arith, All-le n m ps l h)

  insert_by-IsAscending :
      (p : ℕ × A) (ps : List (ℕ × A)) → IsAscending ps → IsAscending (insert_by p ps)
  unfolding insert_by
  insert_by-IsAscending (n, x) [] h = (tt, tt)
  insert_by-IsAscending (n, x) ((m, y) ∷ ps) (below, h) = elim (Bool-cases (leb n m)) [
    | inl e ↦ let le : n ≤ m = ground (arith, e) in rw e ((le, All-le n m ps le below), (below, h))
    | inr e ↦
        let le : m ≤ n = ground (arith, e) in
        rw e (insert_by-All (λ q. m ≤ q.0) (n, x) ps le below, insert_by-IsAscending (n, x) ps h)
  ]

  insert_by-Perm :
      (p : ℕ × A) (ps : List (ℕ × A)) → Perm (values (insert_by p ps)) (p.1 ∷ values ps)
  unfolding insert_by
  insert_by-Perm (n, x) [] = Perm.refl _
  insert_by-Perm (n, x) ((m, y) ∷ ps) = elim (Bool-cases (leb n m)) [
    | inl e ↦ rw e (Perm.refl _)
    | inr e ↦ rw e (Perm.trans (Perm.cons y (insert_by-Perm (n, x) ps)) (Perm.swap x y _))
  ]

  sort_pairs-IsAscending : (ps : List (ℕ × A)) → IsAscending (sort_pairs ps)
  unfolding sort_pairs
  sort_pairs-IsAscending [] = tt
  sort_pairs-IsAscending (p ∷ ps) =
      insert_by-IsAscending p (sort_pairs ps) (sort_pairs-IsAscending ps)

  sort_pairs-Perm : (ps : List (ℕ × A)) → Perm (values (sort_pairs ps)) (values ps)
  unfolding sort_pairs
  sort_pairs-Perm [] = Perm.refl _
  sort_pairs-Perm (p ∷ ps) =
      Perm.trans (insert_by-Perm p (sort_pairs ps)) (Perm.cons p.1 (sort_pairs-Perm ps))

  sort_pairs-All : (P : ℕ × A → Type 0) (ps : List (ℕ × A)) → All P ps → All P (sort_pairs ps)
  unfolding sort_pairs
  sort_pairs-All P [] h = tt
  sort_pairs-All P (p ∷ ps) (k, h) = insert_by-All P p (sort_pairs ps) k (sort_pairs-All P ps h)

  abbrev HasKey : (A → Outcome ℕ) → ℕ × A → Type 0
  HasKey key q = key q.1 ≡ ok q.0

  with_keys-HasKey :
      (key : A → Outcome ℕ) (xs : List A) (ps : List (ℕ × A))
      → with_keys key xs ≡ ok ps
      → All (HasKey key) ps × (values ps ≡ xs)
  unfolding with_keys
  with_keys-HasKey key [] ps h = rw (sym (ok-injective h)) (tt, refl)
  with_keys-HasKey key (x ∷ xs) ps h = elim (outcome-cases (key x)) [
    | inr (e, k) ↦ absurd (ground (arith, h, k))
    | inl (n, k) ↦ elim (outcome-cases (with_keys key xs)) [
      | inr (e, l) ↦ absurd (ground (arith, h, k, l))
      | inl (more, l) ↦
          let made : (n, x) ∷ more ≡ ps = ground (arith, h, k, l) in
          let (keys, same) = with_keys-HasKey key xs more l in
          rw (sym made) ((k, keys), ap (λ q. x ∷ q) same)
    ]
  ]

  -- No element has a smaller number than one before it.
  abbrev pub IsSorted : (A → Outcome ℕ) → List A → Type 0
  IsSorted key [] = Unit
  IsSorted key (x ∷ xs) =
      All (λ y. (m n : ℕ) → key x ≡ ok m → key y ≡ ok n → m ≤ n) xs × IsSorted key xs

  values-below :
      (key : A → Outcome ℕ) (p : ℕ × A) (ps : List (ℕ × A))
      → HasKey key p
      → All (HasKey key) ps
      → All (λ q. p.0 ≤ q.0) ps
      → All (λ y. (m n : ℕ) → key p.1 ≡ ok m → key y ≡ ok n → m ≤ n) (values ps)
  values-below key p [] k ks h = tt
  values-below key p (q ∷ ps) k (l, ks) (le, h) = (
    λ m n e f. omega (arith, le, ok-injective (sym k ∙ e), ok-injective (sym l ∙ f)),
    values-below key p ps k ks h,
  )

  values-IsSorted :
      (key : A → Outcome ℕ) (ps : List (ℕ × A))
      → All (HasKey key) ps
      → IsAscending ps
      → IsSorted key (values ps)
  values-IsSorted key [] ks h = tt
  values-IsSorted key (p ∷ ps) (k, ks) (below, h) =
      (values-below key p ps k ks below, values-IsSorted key ps ks h)

  -- When sorting by a number read from each element returns, the result is a permutation of
  -- the list in which no element has a smaller number than one before it.
  pub sort_by-IsSorted :
      (key : A → Outcome ℕ) (xs ys : List A) → sort_by key xs ≡ ok ys → IsSorted key ys × Perm ys xs
  unfolding sort_by
  sort_by-IsSorted key [] ys h = rw (sym (ok-injective h)) (tt, Perm.refl _)
  sort_by-IsSorted key (x ∷ []) ys h = rw (sym (ok-injective h)) ((tt, tt), Perm.refl _)
  sort_by-IsSorted key (x ∷ y ∷ xs) ys h = elim (outcome-cases (with_keys key (x ∷ y ∷ xs))) [
    | inr (e, k) ↦ absurd (ground (arith, h, k))
    | inl (ps, k) ↦
        let (keys, same) = with_keys-HasKey key (x ∷ y ∷ xs) ps k in
        let made : values (sort_pairs ps) ≡ ys = ground (arith, h, k) in
        rw (sym made) (
          values-IsSorted key (sort_pairs ps) (sort_pairs-All (HasKey key) ps keys)
              (sort_pairs-IsAscending ps),
          subst (λ q. Perm (values (sort_pairs ps)) q) same (sort_pairs-Perm ps),
        )
  ]
