-- ===== src/Pups/BufferTests.antt =====
-- A buffer of three values that goes round.
use dogeboxd.Base.{ℕ, ◌≡◌, some, List, [], ◌∷◌, arith}
use dogeboxd.Pups.Buffer.{Buffer, add_all, get_values, push_all, IsBuffer, add_all_refines}

abbrev full_at_two : Buffer ℕ
full_at_two = record { values = 7 ∷ 8 ∷ 6 ∷ []; tail = 2 }

abbrev adds : List ℕ
adds = 9 ∷ 10 ∷ []

add_all_refines_example :
    (b' : Buffer ℕ) × (add_all adds full_at_two ≡ some b')
    × IsBuffer b'
    × (get_values b' ≡ push_all adds (get_values full_at_two))
add_all_refines_example = add_all_refines adds full_at_two (omega arith)
