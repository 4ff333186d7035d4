-- ===== src/Http2/Window/Examples.antt =====
-- A window of 100 bytes that is topped up from 25 missing bytes on.
use h2pp.Prelude.{[], ◌∷◌, ◌+◌, ◌≡◌, refl, arith}
use h2pp.Http2.Window.{DummyWindow, dec, update, need_update}
use h2pp.Http2.Window.Credit.{IsOpen, receive, receive-Balanced}

abbrev small : DummyWindow
small = record { max_size = 100; size = 100; trigger_size = 25 }

receive_test : (receive small 1 (10 ∷ 20 ∷ 75 ∷ 5 ∷ [])).0 ≡ 105
unfolding receive update dec need_update
receive_test = refl

receive-Balanced_example :
    ((receive small 1 (30 ∷ 75 ∷ [])).1.size + 105 ≡ 100 + (receive small 1 (30 ∷ 75 ∷ [])).0)
    × IsOpen (receive small 1 (30 ∷ 75 ∷ [])).1
receive-Balanced_example =
    receive-Balanced small 1 (30 ∷ 75 ∷ [])
      (record { not_over = omega arith; near_full = omega arith; fits = omega arith }) (omega arith)
      (omega arith, (omega arith, tt))
