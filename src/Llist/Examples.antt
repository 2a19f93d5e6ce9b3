-- ===== src/Llist/Examples.antt =====
-- Runs of the lists of ds_llist.c on a list of two nodes.
use dungeon.Base.{
  ℕ, ◌≡◌, refl, Bool, true, false, Option, none, some, List, [], ◌∷◌, has, ◌==◌, if◌then◌else◌,
  arith, ok, ℤ,
}
use dungeon.Llist.{
  Llist, update, reply, llist_new, llist_append_nb, llist_fetch_head_nb, llist_fetch_match,
  delete_loop,
}
use dungeon.Llist.Ring.{IsRing}
use dungeon.Llist.Delete.{delete-frees}
use dungeon.Llist.Match.{Finds, find_match, fetch_match-Finds}
use dungeon.Llist.View.{view, append_nb, fetch_head_nb, append_nb-view, fetch_head_nb-view}

-- The head node at 1, and the nodes 2 and 3 with the data 20 and 30.
abbrev pair : Llist
pair = record {
  nr_nodes = 2;
  volume = 3;
  dumb = 1;
  next = update (update (update (λ p. 0) 1 2) 2 3) 3 1;
  prev = update (update (update (λ p. 0) 2 1) 3 2) 1 3;
  ptr = update (update (λ p. 0) 2 20) 3 30;
  live = update (update (update (λ p. false) 1 true) 2 true) 3 true;
}

pair-IsRing : IsRing pair 0 (2 ∷ 3 ∷ [])
pair-IsRing = record {
  linked = (refl, refl, (refl, refl, (refl, refl)));
  distinct = (refl, (refl, (refl, tt)));
  nodes = (refl, (refl, (refl, tt)));
  counted = refl;
}

-- Whether a datum is 30.
abbrev is_30 : ℕ → Bool
is_30 v = v == 30

new_empty : llist_new (some 1) true false (λ p. 0) (λ p. false) 3 ≡ none
unfolding llist_new
new_empty = refl

delete-frees_example :
    (t : Llist) × (delete_loop 3 pair ≡ some (ok t))
    × IsRing t 0 []
    × ((p : ℕ) → t.live p ≡ (if has p (2 ∷ 3 ∷ []) then false else pair.live p))
delete-frees_example = delete-frees 3 (2 ∷ 3 ∷ []) pair-IsRing (omega arith)

fetch_match-Finds_example : Finds pair 0 (some (1, 3, [])) (llist_fetch_match 3 is_30 pair)
unfolding find_match
fetch_match-Finds_example = fetch_match-Finds 3 is_30 (2 ∷ 3 ∷ []) pair-IsRing (omega arith)

append_nb-view_example :
    (r : ℤ × Llist) × (ys : List ℕ) × (llist_append_nb false (some 4) 40 pair ≡ reply false r)
    × IsRing r.1 0 ys
    × ((r.0, view r.1 ys) ≡ append_nb false true 40 (view pair (2 ∷ 3 ∷ [])))
append_nb-view_example = append_nb-view false 4 40 pair-IsRing refl

fetch_head_nb-view_example :
    (r : ℤ × Option ℕ × Llist) × (ys : List ℕ) × (llist_fetch_head_nb false pair ≡ ok r)
    × IsRing r.2 0 ys
    × ((r.0, r.1, view r.2 ys) ≡ fetch_head_nb false (view pair (2 ∷ 3 ∷ [])))
fetch_head_nb-view_example = fetch_head_nb-view (2 ∷ 3 ∷ []) false pair-IsRing
