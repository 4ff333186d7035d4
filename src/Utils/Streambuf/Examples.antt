-- ===== src/Utils/Streambuf/Examples.antt =====
-- A stream buffer that a second push carries over into a second buffer.
use h2pp.Prelude.{ℕ, ◌∷◌, List, [], ◌++◌, replicate, length-replicate, some, ◌≡◌, refl, arith}
use h2pp.Utils.Buffer.{Buffer}
use h2pp.Utils.Buffer.View.{IsBuffer}
use h2pp.Utils.Streambuf.{push_back}
use h2pp.Utils.Streambuf.Stored.{contents, IsStreambuf, push_back-contents}

abbrev zeros : ℕ → List ℕ
zeros n = replicate n 0

-- Four bytes of room, three of them in use.
abbrev three_of_four : Buffer
three_of_four = record { offset = 3; maxsize = 4; memory = 1 ∷ 2 ∷ 3 ∷ 9 ∷ [] }

three_of_four-IsBuffer : IsBuffer three_of_four
three_of_four-IsBuffer = record { within = omega arith; allocated = refl }

abbrev seventy : List ℕ
seventy = replicate 70 7

push_back-contents_example :
    (bs' : List Buffer) × (push_back zeros [] seventy ≡ some bs')
    × (contents bs' ≡ contents [] ++ seventy)
    × IsStreambuf bs'
push_back-contents_example = push_back-contents zeros [] seventy (λ n. length-replicate n 0) tt
