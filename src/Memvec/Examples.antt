-- ===== src/Memvec/Examples.antt =====
-- The text "data" in the block 8, and copies of it.
use dungeon.Base.{
  ℕ, ◌≡◌, refl, true, some, none, List, [], ◌∷◌, leb, length, if◌then◌else◌, ok, ◌++◌,
}
use dungeon.Memvec.{Heap, write, string_toc, string_fromc}
use dungeon.Memvec.Copies.{string_toc-string_fromc}

abbrev text : List ℕ
text = 100 ∷ 97 ∷ 116 ∷ 97 ∷ []

abbrev empty : Heap
empty p = none

abbrev one_text : Heap
one_text = write empty 8 (some (text ++ 0 ∷ []))

string_toc-string_fromc_example :
    (string_fromc true one_text 8
      ≡ ok (if leb (length text) 0 then none else some (record { ptr = 8; size = length text })))
    × (string_toc true one_text (record { ptr = 8; size = length text })
        ≡ ok (some (text ++ 0 ∷ [])))
unfolding write
string_toc-string_fromc_example = string_toc-string_fromc one_text 8 text [] refl refl
