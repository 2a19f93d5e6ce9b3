-- ===== src/BufferList/Examples.antt =====
-- Runs of the buffers of ds_bufferlist.c.
use dungeon.Base.{ℕ, ◌≡◌, refl, true, some, List, [], ◌∷◌, arith, ℤ, pos, minus_one}
use dungeon.BufferList.{
  Node, Buffer, Copied, buffer_delete, buffer_nbytes, buffer_read, buffer_write,
}
use dungeon.BufferList.Bytes.{contents, IsValid, write-append}
use dungeon.BufferList.Rounds.{Handed}
use dungeon.BufferList.Read.{buffer_read-Handed}

-- The bytes 1 2 3 in one node and 4 in the next.
abbrev first : Node
first = record { start = 0 ∷ 1 ∷ 2 ∷ 3 ∷ []; pos = 1; size = 3 }

abbrev second : Node
second = record { start = 4 ∷ []; pos = 0; size = 1 }

abbrev four : Buffer
four = record {
  base = record { items = first ∷ second ∷ []; volume = 3 };
  bufsize = 2;
  max = 3;
  nbytes = 4;
}

four-IsValid : IsValid four
four-IsValid = record {
  fit = (omega arith, (omega arith, tt));
  counted = refl;
  summed = refl;
  room = refl;
}

contents-four : contents four ≡ 1 ∷ 2 ∷ 3 ∷ 4 ∷ []
contents-four = refl

delete_used : buffer_delete (some four) ≡ (minus_one, some four)
unfolding buffer_delete
delete_used = refl

nbytes_four : buffer_nbytes four ≡ 4
unfolding buffer_nbytes
nbytes_four = refl

write-append_example :
    let r = buffer_write true true true four (5 ∷ 6 ∷ []) in
    IsValid r.1 × (◌≡◌ {A = ℤ × List ℕ} (r.0, contents r.1) (pos 2, 1 ∷ 2 ∷ 3 ∷ 4 ∷ 5 ∷ 6 ∷ []))
write-append_example = write-append four-IsValid (5 ∷ 6 ∷ []) true true true

buffer_read-Handed_example : (c : Copied) × (buffer_read 4 four 2 ≡ some c) × Handed four 2 [] c
buffer_read-Handed_example = buffer_read-Handed 4 four 2 four-IsValid (omega arith)
