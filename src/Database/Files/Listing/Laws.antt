-- ===== src/Database/Files/Listing/Laws.antt =====
-- Every entry of a directory is among those that the iterator meets.
use proj_rc.Base.{
  true, false, ◌≡◌, ◌∙◌, refl, ap, subst, inl, inr, Bool-cases, some, List, [], ◌∷◌, ◌++◌, All,
  Bool, if◌then◌else◌, codes, Bytes, length, drop,
}
use proj_rc.Database.Files.{Node, Entries, find}
use proj_rc.Database.Files.Paths.{
  FilePath, path_eq, path_eq_refl, path_eq→eq, parent, auction_dir, path_text,
}
use proj_rc.Database.Files.Listing.{children, stands_in, dir_id, last_three}

stands_in-parent : (d : FilePath) (p : FilePath) → parent p ≡ some d → stands_in d (parent p) ≡ true
stands_in-parent d p h = rw (h, path_eq_refl d) refl

All-tail :
    (P : FilePath → Type 0) (b : Bool) (q : FilePath) (ps : List FilePath)
    → All P (if b then q ∷ ps else ps)
    → All P ps
All-tail P true q ps h = h.1
All-tail P false q ps h = h

-- What holds of all entries of a directory holds of each path in it that is found.
pub All-children :
    (P : FilePath → Type 0) (d p : FilePath) (n : Node) (e : Entries)
    → parent p ≡ some d
    → find p e ≡ some n
    → All P (children d e)
    → P p
unfolding children find
All-children P d p n [] in_d h all = absurd cc
All-children P d p n ((q, m) ∷ e) in_d h all = elim (Bool-cases (path_eq q p)) [
  | inl same ↦
      let same_path : q ≡ p = path_eq→eq q p same in
      let in_q : stands_in d (parent q) ≡ true =
        stands_in-parent d q (ap parent same_path ∙ in_d) in
      let held : All P (q ∷ children d e) = rw in_q at all in subst P same_path held.0
  | inr other ↦ All-children P d p n e in_d (rw other at h) (All-tail P _ q (children d e) all)
]

pub drop-append : {A : Type 0} (xs ys : List A) → drop (length xs) (xs ++ ys) ≡ ys
drop-append [] ys = refl
drop-append (x ∷ xs) ys = drop-append xs ys

-- The directory of an auction whose id has three bytes shows that id.
pub dir_id-auction_dir : (a_id : Bytes) → length a_id ≡ 3 → dir_id (auction_dir a_id) ≡ a_id
unfolding dir_id last_three path_text
dir_id-auction_dir a_id three = rw three (drop-append (codes "ASDIR/AUCTIONS/") a_id)
