-- ===== src/Http2/Client/Sends.antt =====
-- The command queue of lib/base_client.cpp: what `get_tx_data` sends of it.
use h2pp.Prelude.{
  ℕ, ◌+◌, ◌-◌, ◌<◌, List, Result, throw, undefined, [], ◌∷◌, ◌++◌, Bool-cases, ok, ◌≡◌, refl, ap,
  ◌⊎◌, inl, inr, length, length-append, ltb, leb, not, min, arith,
}
use h2pp.Http2.Response.Body.{joined}
use h2pp.Http2.Registry.Serve.{Serving, get_data}
use h2pp.Hpack.IndexedTable.{OrderedSet}
use h2pp.Hpack.Encoder.{EncoderConfig}
use h2pp.Http2.Client.{Client, Commands, take_commands, is_all, served, get_tx_data}

-- The queue cut where the window ends.
pub record Cut (queue : List (List ℕ)) (window : ℕ) (k : Commands) : Type 0 where
  pub in_order : k.sent ++ k.left ≡ queue
  pub paid : length (joined k.sent) + k.window ≡ window
  pub full :
      (k.left ≡ [])
      ⊎ ((b : List ℕ) × (rest : List (List ℕ)) × (k.left ≡ b ∷ rest) × (k.window < length b))

pub take_commands-Cut :
    (queue : List (List ℕ)) (window : ℕ) → Cut queue window (take_commands queue window)
unfolding take_commands
take_commands-Cut [] window = record { in_order = refl; paid = omega arith; full = inl refl }
take_commands-Cut (b ∷ queue) window = elim (Bool-cases (ltb window (length b))) [
  | inl over ↦ rw (over) (record {
    in_order = refl;
    paid = omega arith;
    full = inr (b, queue, refl, ground (arith, over));
  })
  | inr fits ↦
      (let rest = take_commands-Cut queue (window - length b) in
        rw (fits) (record {
          in_order = ap (◌∷◌ b) rest.in_order;
          paid = ground (
            arith,
            rest.paid,
            fits,
            length-append b (joined (take_commands queue (window - length b)).sent),
          );
          full = rest.full;
        }))
]

served-queue :
    (c : Client) (r : Serving × Result ℕ) → (served c r).0.tx_command_queue ≡ c.tx_command_queue
served-queue c (t, ok used) = refl
served-queue c (t, throw exception) = refl
served-queue c (t, undefined) = refl

List-cases :
    (xs : List (List ℕ)) → (xs ≡ []) ⊎ ((b : List ℕ) × (rest : List (List ℕ)) × (xs ≡ b ∷ rest))
List-cases [] = inl refl
List-cases (b ∷ rest) = inr (b, rest, refl)

module _ (fresh : ℕ → List ℕ) (set : OrderedSet) (config : EncoderConfig) (c : Client) where
  -- `get_tx_data` cuts the queue of commands in two: it keeps the second part, of which the first
  -- command is larger than what the first part leaves of the server's window. If a command is kept
  -- the first part is all that it gives, and nothing else of the client changes but the window, which
  -- shrinks by the bytes given.
  pub get_tx_data-Cut :
      (k : Commands) × Cut c.tx_command_queue c.server_window_size k
      × ((get_tx_data fresh set config c).0.tx_command_queue ≡ k.left)
      × ((k.left ≡ [])
          ⊎ (get_tx_data fresh set config c
              ≡ (record c { tx_command_queue = k.left; server_window_size = k.window }, ok k.sent)))
  unfolding get_tx_data
  get_tx_data-Cut = (
    k,
    take_commands-Cut c.tx_command_queue c.server_window_size,
    elim (Bool-cases (not (is_all k.left))) [
      | inl e ↦ rw (e) refl
      | inr e ↦ elim (Bool-cases (leb 18 (min k.window c.settings.local_settings.max_frame_size))) [
        | inl room ↦
            rw (e, room)
              (served-queue cut (
                get_data fresh set config (min k.window c.settings.local_settings.max_frame_size)
                  c.registry c.encoder_table k.sent))
        | inr tight ↦ rw (e, tight) refl
      ]
    ],
    elim (List-cases k.left) [ inl e ↦ inl e | inr (b, rest, e) ↦ inr (rw (e) refl) ],
  )
    where
      k : Commands
      k = take_commands c.tx_command_queue c.server_window_size

      cut : Client
      cut = record c { tx_command_queue = k.left; server_window_size = k.window }
