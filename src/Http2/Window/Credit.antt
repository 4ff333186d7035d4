-- ===== src/Http2/Window/Credit.antt =====
-- The credit that lib/dummy_window.cpp grants, counted on the side of the peer.
use h2pp.Prelude.{
  ℕ, ◌+◌, ◌-◌, ◌*◌, ◌/◌, ◌%◌, ◌^◌, ◌≤◌, ◌<◌, List, [], ◌∷◌, Option, none, some, true, false,
  Bool-cases, ◌≡◌, refl, ◌∙◌, inl, inr, drop, length, All, arith,
}
use h2pp.Http2.Window.{DummyWindow, dec, need_update, update, sub32}

-- The increment in the bytes of a WINDOW_UPDATE frame.
abbrev pub increment : List ℕ → ℕ
increment (a ∷ b ∷ c ∷ d ∷ rest) = a * 16777216 + b * 65536 + c * 256 + d
increment _ = 0

-- What the peer may send more after it gets the frame, if there is one.
abbrev pub granted : Option (List ℕ) → ℕ
granted none = 0
granted (some frame) = increment (drop 9 frame)

-- The window is not larger than its full size, and short of it by less than the trigger.
pub record IsOpen (w : DummyWindow) : Type 0 where
  pub not_over : w.size ≤ w.max_size
  pub near_full : w.max_size < w.size + w.trigger_size
  pub fits : w.max_size < 2 ^ 32

-- What `dec` and then `update` leave of a window.
pub record Topped (w : DummyWindow) (v : ℕ) (after : Option (List ℕ) × DummyWindow) : Type 0 where
  pub balance : after.1.size ≡ w.size - v + granted after.0
  pub same_max : after.1.max_size ≡ w.max_size
  pub same_trigger : after.1.trigger_size ≡ w.trigger_size
  pub still_open : IsOpen after.1

increment-be32 :
    (x : ℕ)
    → x < 2 ^ 32
    → x / 16777216 % 256 * 16777216 + x / 65536 % 256 * 65536 + x / 256 % 256 * 256 + x % 256 ≡ x
increment-be32 x h = omega arith

module _ (w : DummyWindow) (v http_id : ℕ) (le : w.size ≤ w.max_size) (fits : w.max_size < 2 ^ 32)
    (room : v ≤ w.size) where
  left : sub32 w.size v ≡ w.size - v
  left = omega arith

  missing : sub32 w.max_size (sub32 w.size v) ≡ w.max_size - (w.size - v)
  missing = omega arith

  refilled : (sub32 w.size v + sub32 w.max_size (sub32 w.size v)) % 2 ^ 32 ≡ w.max_size
  refilled = omega arith

  update-granted :
      0 < w.trigger_size → need_update (dec w v) ≡ true → Topped w v (update (dec w v) http_id)
  unfolding update dec
  update-granted pos due = rw due (record {
    balance =
        rw (increment-be32 (sub32 w.max_size (sub32 w.size v)) (omega arith), refilled, missing)
          (omega arith);
    same_max = refl;
    same_trigger = refl;
    still_open = record {
      not_over = omega (arith, refilled);
      near_full = (omega (arith, refilled));
      fits = fits;
    };
  })

  short_of : need_update (dec w v) ≡ false → w.max_size - (w.size - v) < w.trigger_size
  unfolding need_update dec
  short_of not_due = ground (arith, missing)

  update-waiting : need_update (dec w v) ≡ false → Topped w v (update (dec w v) http_id)
  unfolding update dec
  update-waiting not_due = rw not_due (record {
    balance = omega (arith, left);
    same_max = refl;
    same_trigger = refl;
    still_open = record {
      not_over = omega (arith, left);
      near_full = (omega (arith, left, short_of not_due));
      fits = fits;
    };
  })

-- For a window not over its full size, which is under 2^32, and a positive trigger: after data of
-- `v` bytes, which the window has room for, `dec` and `update` leave a window that is
-- short of its full size by less than the trigger; its size is what the peer counts: the old size
-- less the data, and the increment that the frame, if there is one, carries.
pub update-dec :
    (w : DummyWindow) (v http_id : ℕ)
    → w.size ≤ w.max_size
    → w.max_size < 2 ^ 32
    → 0 < w.trigger_size
    → v ≤ w.size
    → Topped w v (update (dec w v) http_id)
update-dec w v http_id le fits pos room = elim (Bool-cases (need_update (dec w v))) [
  | inl due ↦ update-granted w v http_id le fits room pos due
  | inr not_due ↦ update-waiting w v http_id le fits room not_due
]

-- Data frames of these sizes, each counted by `dec` and followed by `update`: the increments sent
-- back, added up, and the window in the end.
unfoldable pub receive : DummyWindow → ℕ → List ℕ → ℕ × DummyWindow
receive w http_id [] = (0, w)
receive w http_id (v ∷ vs) =
    let (frame, w') = update (dec w v) http_id in
    let (total, last) = receive w' http_id vs in (granted frame + total, last)

abbrev pub sum : List ℕ → ℕ
sum [] = 0
sum (v ∷ vs) = v + sum vs

receive_within :
    (w : DummyWindow) (http_id m t : ℕ) (vs : List ℕ)
    → IsOpen w
    → w.max_size ≡ m
    → w.trigger_size ≡ t
    → 0 < t
    → All (λ v. v + t ≤ m) vs
    → ((receive w http_id vs).1.size + sum vs ≡ w.size + (receive w http_id vs).0)
      × IsOpen (receive w http_id vs).1
unfolding receive
receive_within w http_id m t [] open_w em et pos sizes = (refl, open_w)
receive_within w http_id m t (v ∷ vs) open_w em et pos (room, sizes) =
    let top =
      update-dec w v http_id open_w.not_over open_w.fits (omega arith)
        (omega (arith, open_w.near_full)) in
    let (balanced, still) =
      receive_within (update (dec w v) http_id).1 http_id m t vs top.still_open (top.same_max ∙ em)
        (top.same_trigger ∙ et) pos sizes in
    (omega (arith, balanced, top.balance, open_w.near_full), still)

-- From an open window with a positive trigger, frames of data that leave the trigger's room of the
-- full window never overrun it, however many come: the window stays open, and its size and all
-- data are what it had and all increments sent back.
pub receive-Balanced :
    (w : DummyWindow) (http_id : ℕ) (vs : List ℕ)
    → IsOpen w
    → 0 < w.trigger_size
    → All (λ v. v + w.trigger_size ≤ w.max_size) vs
    → ((receive w http_id vs).1.size + sum vs ≡ w.size + (receive w http_id vs).0)
      × IsOpen (receive w http_id vs).1
receive-Balanced w http_id vs open_w pos sizes =
    receive_within w http_id w.max_size w.trigger_size vs open_w refl refl pos sizes

-- Below the trigger no update is sent, and the window stays.
pub update-none : (w : DummyWindow) (id : ℕ) → need_update w ≡ false → update w id ≡ (none, w)
unfolding update
update-none w id h = rw (h) refl

-- From the trigger on an update is sent, a frame of thirteen bytes.
pub update-some :
    (w : DummyWindow) (id : ℕ)
    → need_update w ≡ true
    → (frame : List ℕ) × (w' : DummyWindow) × (update w id ≡ (some frame, w')) × (length frame ≡ 13)
unfolding update
update-some w id h = rw (h) (_, _, refl, refl)
