-- ===== src/Llist/Delete.antt =====
-- `llist_delete`: when it ends, and what it frees.
use dungeon.Base.{
  ℕ, zero, suc, ◌<◌, ◌≡◌, refl, false, none, some, List, [], ◌∷◌, has, length, if◌then◌else◌, arith,
  ok,
}
use dungeon.Llist.{Llist, delete_loop}
use dungeon.Llist.Ring.{IsRing}
use dungeon.Llist.Fetch.{fetch_head_nb-Fetches}

-- With fuel for more rounds than there are nodes, the loop of `llist_delete` on a sound list ends:
-- it frees every node of the list and no other.
pub delete-frees :
    (fuel : ℕ) {s : Llist} (xs : List ℕ)
    → IsRing s 0 xs
    → length xs < fuel
    → (t : Llist) × (delete_loop fuel s ≡ some (ok t))
      × IsRing t 0 []
      × ((p : ℕ) → t.live p ≡ (if has p xs then false else s.live p))
unfolding delete_loop
delete-frees zero xs ring h = absurd (omega arith)
delete-frees (suc fuel) {s} [] ring h = (s, ground (arith, ring.counted), ring, λ p. refl)
delete-frees (suc fuel) {s} (x ∷ xs) ring h =
    let (t, run, left, dead, _, _) = (fetch_head_nb-Fetches (x ∷ xs) ring).0 in
    let (u, rest, done, freed) = delete-frees fuel xs left (omega arith) in
    (u, ground (arith, ring.counted, run, rest), done, λ p. ground (arith, freed p, dead p))

-- A list that counts more nodes than it has is never deleted: the loop runs out of any fuel.
pub delete_forever :
    (fuel : ℕ) {s : Llist} {extra : ℕ} (xs : List ℕ)
    → IsRing s extra xs
    → 0 < extra
    → delete_loop fuel s ≡ none
unfolding delete_loop
delete_forever zero xs ring h = refl
delete_forever (suc fuel) {s} [] ring h =
    let run = (fetch_head_nb-Fetches [] ring).0 in
    ground (arith, ring.counted, run, delete_forever fuel [] ring h)
delete_forever (suc fuel) {s} (x ∷ xs) ring h =
    let (t, run, left, dead, _, _) = (fetch_head_nb-Fetches (x ∷ xs) ring).0 in
    ground (arith, ring.counted, run, delete_forever fuel xs left h)
