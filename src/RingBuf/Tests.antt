-- ===== src/RingBuf/Tests.antt =====
-- A ring of three bytes, filled and wrapped.
use rusttgcalls.Prelude.{ℕ, List, ◌≡◌, refl, [], ◌∷◌, ◌++◌, last_of}
use rusttgcalls.RingBuf.{RingBuffer, new, write_all, snapshot, write, copy_in}
use rusttgcalls.RingBuf.Laws.{new-IsValid, write-IsValid, capacity}
use rusttgcalls.RingBuf.Tail.{snapshot-write, snapshot-write_all}

abbrev chunks : List (List ℕ)
chunks = (1 ∷ 2 ∷ []) ∷ (3 ∷ 4 ∷ []) ∷ (5 ∷ []) ∷ []

tail_of_stream : snapshot (write_all (new 3) chunks) ≡ 3 ∷ 4 ∷ 5 ∷ []
unfolding new write_all snapshot write copy_in
tail_of_stream = refl

abbrev part_filled : RingBuffer
part_filled = (write (new 3) (1 ∷ 2 ∷ [])).0

snapshot-write_all_example :
    snapshot (write_all (new 3) chunks) ≡ last_of 3 (1 ∷ 2 ∷ 3 ∷ 4 ∷ 5 ∷ [])
snapshot-write_all_example = snapshot-write_all 3 chunks

snapshot-write_example :
    snapshot (write part_filled (3 ∷ 4 ∷ [])).0
    ≡ last_of (capacity part_filled) (snapshot part_filled ++ (3 ∷ 4 ∷ []))
snapshot-write_example =
    snapshot-write part_filled (3 ∷ 4 ∷ []) (write-IsValid (new 3) (1 ∷ 2 ∷ []) (new-IsValid 3)).0
