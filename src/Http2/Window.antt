-- ===== src/Http2/Window.antt =====
-- lib/dummy_window.h and dummy_window.cpp: a flow-control window, its members `uint32_t`.
pub mod Credit
mod Examples
use h2pp.Prelude.{
  ℕ, ◌+◌, ◌-◌, ◌*◌, ◌/◌, ◌%◌, ◌^◌, List, [], ◌∷◌, Bool, Option, none, some, leb, if◌then◌else◌,
}
use h2pp.Http2.Frame.Builder.{update_window}

pub record DummyWindow : Type 0 where
  pub max_size : ℕ
  pub size : ℕ
  pub trigger_size : ℕ

abbrev pub sub32 : ℕ → ℕ → ℕ
sub32 a b = (a + 2 ^ 32 - b) % 2 ^ 32

unfoldable pub dummy_window : ℕ → ℕ → DummyWindow
dummy_window msize trigger = record { max_size = msize; size = msize; trigger_size = trigger }

unfoldable pub dec : DummyWindow → ℕ → DummyWindow
dec w v = record w { size = sub32 w.size v }

unfoldable pub need_update : DummyWindow → Bool
need_update w = leb w.trigger_size (sub32 w.max_size w.size)

-- The WINDOW_UPDATE frame, if one is due, and the window after it.
unfoldable pub update : DummyWindow → ℕ → Option (List ℕ) × DummyWindow
update w http_id =
    let inc_size = sub32 w.max_size w.size in
    if need_update w
    then (some (update_window inc_size http_id), record w { size = (w.size + inc_size) % 2 ^ 32 })
    else (none, w)

pub current : DummyWindow → ℕ
current w = w.size
