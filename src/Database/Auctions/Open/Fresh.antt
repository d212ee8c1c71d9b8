-- ===== src/Database/Auctions/Open/Fresh.antt =====
-- The id that `Open` gives to a new auction.
use proj_rc.Base.{
  ℕ, ◌≤◌, ◌<◌, true, false, ◌≡◌, ◌∙◌, sym, refl, ap, arith, inl, inr, List, [], ◌∷◌, All,
  Option-cases,
}
use proj_rc.Shared.Outcome.{Outcome, ok, ok-injective}
use proj_rc.Shared.Outcome
use proj_rc.Shared.Decimal.{pos, stoi, to_u32}
use proj_rc.Shared.Convert.{convert_auction_id_to_str}
use proj_rc.Shared.Convert.Laws.{convert_auction_id_to_str-IsAuctionId, stoi-auction_id_to_str}
use proj_rc.Database.Files.{FileSystem, find, is_dir}
use proj_rc.Database.Files.Paths.{FilePath, auctions_dir, auction_dir}
use proj_rc.Database.Files.Listing.{children, iterate, dir_id}
use proj_rc.Database.Files.Listing.Laws.{All-children, dir_id-auction_dir}
use proj_rc.Database.Auctions.Infos.{check_auction_exists}
use proj_rc.Database.Auctions.Open.{above, next_id, first_id, new_aid}

-- The directory has the id of an auction for its name.
abbrev pub IsNumbered : FilePath → Type 0
IsNumbered p = (k : ℕ) × (k < 1000) × (stoi (dir_id p) ≡ ok (pos k))

-- The directory has a smaller id.
abbrev pub IsBelow : ℕ → FilePath → Type 0
IsBelow n p = (k : ℕ) → stoi (dir_id p) ≡ ok (pos k) → k < n

pub record NextId (aid : ℕ) (ps : List FilePath) (n : ℕ) : Type 0 where
  pub result : next_id aid ps ≡ ok n
  pub grows : aid ≤ n
  pub bounded : n ≤ 1000
  pub largest : All (IsBelow n) ps

pos-injective : {m n : ℕ} → ok (pos m) ≡ ok (pos n) → m ≡ n
pos-injective h = cc

next_id_lem :
    (aid : ℕ) (ps : List FilePath) → aid ≤ 1000 → All IsNumbered ps → (n : ℕ) × NextId aid ps n
unfolding next_id
next_id_lem aid [] b h =
    (aid, record { result = refl; grows = omega arith; bounded = b; largest = tt })
next_id_lem aid (p ∷ ps) b ((k, small, e), h) =
    let at : above aid k ≤ 1000 = ground arith in
    let (n, x) = next_id_lem (above aid k) ps at h in
    let same : to_u32 (pos k) ≡ k = unfold to_u32 in omega arith in
    (
      n,
      record {
        result = rw (e, Outcome.◌>>=◌, same) x.result;
        grows = ground (arith, x.grows);
        bounded = x.bounded;
        largest = (
          λ m g. let eq : k ≡ m = pos-injective (sym e ∙ g) in ground (arith, x.grows),
          x.largest,
        );
      },
    )

-- The number of the new auction, from the tree `fs`.
pub record IsFresh (fs : FileSystem) (n : ℕ) : Type 0 where
  pub found : new_aid fs ≡ ok n
  pub positive : 0 < n
  pub bounded : n ≤ 1000
  pub largest : All (IsBelow n) (children auctions_dir fs.entries)
  pub unused : n < 1000 → check_auction_exists (convert_auction_id_to_str n) fs ≡ false

first_id_lem :
    (ps : List FilePath)
    → All IsNumbered ps
    → (n : ℕ) × (first_id ps ≡ ok n) × (0 < n) × (n ≤ 1000) × All (IsBelow n) ps
unfolding first_id
first_id_lem [] h = (1, refl, omega arith, omega arith, tt)
first_id_lem (p ∷ ps) ((k, small, e), h) =
    let (n, x) = next_id_lem 0 (p ∷ ps) (omega arith) ((k, small, e), h) in
    (n, x.result, omega (arith, x.largest.0 k e), x.bounded, x.largest)

unused_id :
    (n : ℕ) (fs : FileSystem)
    → n < 1000
    → All (IsBelow n) (children auctions_dir fs.entries)
    → check_auction_exists (convert_auction_id_to_str n) fs ≡ false
unfolding check_auction_exists
unused_id n fs small h =
    let c = convert_auction_id_to_str n in
    elim (Option-cases (find (auction_dir c) fs.entries)) [
      | inl e ↦ ground (arith, e)
      | inr (nd, e) ↦
          let below : IsBelow n (auction_dir c) =
            All-children (IsBelow n) auctions_dir (auction_dir c) nd fs.entries refl e h in
          let named : dir_id (auction_dir c) ≡ c =
            dir_id-auction_dir c (convert_auction_id_to_str-IsAuctionId n small).three in
          absurd (omega (arith, below n (ap stoi named ∙ stoi-auction_id_to_str n small)))
    ]

-- Where AUCTIONS is a directory and each entry of it ends in the text of a number below 1000,
-- `new_aid` returns a number: it is positive, at most 1000, larger than that of every entry,
-- and, when it is below 1000, no auction with it exists.
pub new_aid-IsFresh :
    (fs : FileSystem)
    → is_dir auctions_dir fs ≡ true
    → All IsNumbered (children auctions_dir fs.entries)
    → (n : ℕ) × IsFresh fs n
unfolding new_aid iterate
new_aid-IsFresh fs base h =
    let (n, e, positive, bounded, largest) = first_id_lem (children auctions_dir fs.entries) h in
    (
      n,
      record {
        found = rw (base, Outcome.◌>>=◌) e;
        positive = positive;
        bounded = bounded;
        largest = largest;
        unused = λ small. unused_id n fs small largest;
      },
    )
