-- ===== src/Http2/Settings/Handler.antt =====
-- When lib/settings_manager.cpp calls the handler of an exchange.
use h2pp.Prelude.{
  ℕ, List, [], ◌∷◌, ◌++◌, append-nil, append_assoc, ◌∙◌, Bool, true, false, Bool-cases, not, ◌&&◌,
  ◌||◌, Option, none, some, Option-cases, Result, ok, throw, system_error, undefined, ◌>>=◌,
  first_returned, ◌≡◌, inl, inr, refl, sym, ap, subst, ok-injective, if◌then◌else◌,
}
use h2pp.Http2.Protocol.{settings_type, has_flag, ack}
use h2pp.Http2.Frame.{SettingsItem, Header, from_buffer, get_frame, items}
use h2pp.Http2.Settings.{
  Settings, Manager, Reaction, initiate_sync_settings, on_settings_frame, on_items, on_ack,
  is_synced, finished, cancel, on_timeout,
}

-- What happens to a manager.
pub data Event : Type 0 where
  initiated : Settings → Bool → ℕ → Event
  frame_received : List ℕ → Event
  cancelled : ℕ → Event
  timed_out : Event

-- An event's effect: the handlers of the exchanges begun, the handlers called, in their order, and
-- the manager.
pub record Effect : Type 0 where
  pub begun : List ℕ
  pub calls : List ℕ
  pub manager : Manager

-- The handler of a call, and the one that waits.
abbrev pub called : Option (ℕ × ℕ) → List ℕ
called none = []
called (some (handler, ec)) = handler ∷ []

abbrev pub waiting : Option ℕ → List ℕ
waiting none = []
waiting (some handler) = handler ∷ []

unfoldable pub handle : ℕ → Manager → Event → Result Effect
handle in_progress m (initiated local remote_sync handler) = do
  (frame, m') ← initiate_sync_settings in_progress m local remote_sync handler
  ok (record { begun = handler ∷ []; calls = []; manager = m' })
handle in_progress m (frame_received bytes) = do
  r ← on_settings_frame m bytes
  ok (record { begun = []; calls = called r.call; manager = r.manager })
handle in_progress m (cancelled ec) =
    let (call, m') = cancel m ec in ok (record { begun = []; calls = called call; manager = m' })
handle in_progress m timed_out =
    let (call, m') = on_timeout m in ok (record { begun = []; calls = called call; manager = m' })

-- A call that throws does so before it changes the manager.
abbrev caught : Manager → Result Effect → Result Effect
caught m undefined = undefined
caught m (throw exception) = ok (record { begun = []; calls = []; manager = m })
caught m (ok e) = ok e

-- The events in their order, exceptions caught.
unfoldable pub run : ℕ → Manager → List Event → Result Effect
run in_progress m [] = ok (record { begun = []; calls = []; manager = m })
run in_progress m (e ∷ es) = do
  first ← caught m (handle in_progress m e)
  rest ← run in_progress first.manager es
  ok (record {
    begun = first.begun ++ rest.begun;
    calls = first.calls ++ rest.calls;
    manager = rest.manager;
  })

-- The handlers called and then the one that waits, against the one that waited and then those of the
-- exchanges begun.
abbrev pub Accounts : Manager → Effect → Type 0
Accounts m e = e.calls ++ waiting e.manager.settings_handler ≡ waiting m.settings_handler ++ e.begun

-- That a call takes the handler that waits, or none and leaves it.
abbrev Passes : Manager → Option (ℕ × ℕ) → Manager → Type 0
Passes m call m' = called call ++ waiting m'.settings_handler ≡ waiting m.settings_handler

finished-Passes : (m : Manager) (ec : ℕ) → Passes m (finished m ec).0 (finished m ec).1
unfolding finished
finished-Passes m ec = elim (Option-cases m.settings_handler) [
  | inl e ↦ rw (e) refl
  | inr (h, e) ↦ rw (e) refl
]

on_ack-Passes : (m : Manager) → Passes m (on_ack m).call (on_ack m).manager
unfolding on_ack
on_ack-Passes m = elim (Bool-cases (is_synced m')) [
  | inl e ↦ rw e (finished-Passes m' 0)
  | inr e ↦ rw e refl
]
  where
    m' : Manager
    m' = record m { local_settings_ack = true; settings_timer = false }

reaction-Passes :
    (acknowledged : Bool) (m : Manager) (bytes : List ℕ) (h : Header) (r : Reaction)
    → (if acknowledged then ok (on_ack m) else (do is ← items bytes h; ok (on_items m is))) ≡ ok r
    → Passes m r.call r.manager
unfolding on_items
reaction-Passes true m bytes h r returned =
    subst (λ (q : Reaction). Passes m q.call q.manager) (ok-injective returned) (on_ack-Passes m)
reaction-Passes false m bytes h r returned =
    let (is, listed, returned') = first_returned _ (items bytes h) returned in
    subst (λ (q : Reaction). Passes m q.call q.manager) (ok-injective returned') refl

on_settings_frame-Passes :
    (m : Manager) (bytes : List ℕ) (r : Reaction)
    → on_settings_frame m bytes ≡ ok r
    → Passes m r.call r.manager
unfolding on_settings_frame
on_settings_frame-Passes m bytes r returned =
    let (a, cut, returned') = first_returned _ (from_buffer bytes) returned in
    let (h, cast, returned'') = first_returned _ (get_frame settings_type a) returned' in
    reaction-Passes (has_flag h.flags ack) m a.buffer h r returned''

-- An exchange begins where no handler waits, and its handler waits then.
initiate-waiting :
    (in_progress : ℕ) (m m' : Manager) (local : Settings) (remote_sync : Bool) (handler : ℕ)
    (frame : List ℕ)
    → initiate_sync_settings in_progress m local remote_sync handler ≡ ok (frame, m')
    → waiting m'.settings_handler ≡ waiting m.settings_handler ++ (handler ∷ [])
unfolding initiate_sync_settings
initiate-waiting in_progress m m' local remote_sync handler frame returned =
    elim (Option-cases m.settings_handler) [
      | inl e ↦
          rw (e) (sym (ap (λ p. waiting p.1.settings_handler) (ok-injective (rw e at returned))))
      | inr (h, e) ↦ absurd_of (rw e at returned)
    ]
  where
    clash_of : Result (List ℕ × Manager) → Type 0
    clash_of r = r ≡ ok (frame, m')

    absurd_of : {P : Type 0} → clash_of (throw (system_error in_progress)) → P
    absurd_of clash = cc

-- A call that begins no exchange.
passed-Accounts :
    (m : Manager) (call : Option (ℕ × ℕ)) (m' : Manager) (e : Effect)
    → Passes m call m'
    → ◌≡◌ {A = Result Effect} (ok (record { begun = []; calls = called call; manager = m' })) (ok e)
    → Accounts m e
passed-Accounts m call m' e passes returned =
    subst (Accounts m) (ok-injective returned)
      (passes ∙ sym (append-nil (waiting m.settings_handler)))

handle-Accounts :
    (in_progress : ℕ) (m : Manager) (event : Event) (e : Effect)
    → handle in_progress m event ≡ ok e
    → Accounts m e
unfolding handle cancel on_timeout
handle-Accounts in_progress m (initiated local remote_sync handler) e returned =
    let ((frame, m'), initiated_ok, returned') =
      first_returned _ (initiate_sync_settings in_progress m local remote_sync handler) returned in
    subst (Accounts m) (ok-injective returned')
      (initiate-waiting in_progress m m' local remote_sync handler frame initiated_ok)
handle-Accounts in_progress m (frame_received bytes) e returned =
    let (r, reacted, returned') = first_returned _ (on_settings_frame m bytes) returned in
    passed-Accounts m r.call r.manager e (on_settings_frame-Passes m bytes r reacted) returned'
handle-Accounts in_progress m (cancelled ec) e returned =
    passed-Accounts m _ _ e (finished-Passes (record m { settings_timer = false }) ec) returned
handle-Accounts in_progress m timed_out e returned =
    passed-Accounts m _ _ e (finished-Passes (record m { settings_timer = false }) _) returned

caught-Accounts :
    (m : Manager) (r : Result Effect) (e : Effect)
    → ((x : Effect) → r ≡ ok x → Accounts m x)
    → caught m r ≡ ok e
    → Accounts m e
caught-Accounts m undefined e right returned = cc
caught-Accounts m (throw exception) e right returned = passed-Accounts m none m e refl returned
caught-Accounts m (ok x) e right returned = right e returned

-- Over any events that run without undefined behaviour, the handlers called, in their order, and then
-- the one that waits are the one that waited at first and then those of the exchanges begun, in their
-- order.
pub run-Accounts :
    (in_progress : ℕ) (m : Manager) (events : List Event) (e : Effect)
    → run in_progress m events ≡ ok e
    → Accounts m e
unfolding run
run-Accounts in_progress m [] e returned = passed-Accounts m none m e refl returned
run-Accounts in_progress m (event ∷ events) e returned =
    let (first, handled, returned') =
      first_returned _ (caught m (handle in_progress m event)) returned in
    let (rest, ran, returned'') =
      first_returned _ (run in_progress first.manager events) returned' in
    subst (Accounts m) (ok-injective returned'') (
      append_assoc first.calls rest.calls (waiting rest.manager.settings_handler)
      ∙ ap (λ x. first.calls ++ x) (run-Accounts in_progress first.manager events rest ran)
      ∙ sym (append_assoc first.calls (waiting first.manager.settings_handler) rest.begun)
      ∙ ap (λ x. x ++ rest.begun)
          (caught-Accounts m _ first (handle-Accounts in_progress m event) handled)
      ∙ append_assoc (waiting m.settings_handler) first.begun rest.begun)

-- A handler that was not called and that no timer will call.
pub record Waiting (handler : ℕ) (r : Reaction) : Type 0 where
  pub no_call : r.call ≡ none
  pub still_set : r.manager.settings_handler ≡ some handler
  pub no_timer : r.manager.settings_timer ≡ false

-- Where an exchange waits for the remote settings and the acknowledgement comes before them, the
-- acknowledgement stops the timer and calls no handler, nor does a following SETTINGS frame,
-- though both halves are then complete: the handler waits on, with no timer.
pub on_ack-on_items_stuck :
    (m : Manager) (handler : ℕ) (fields : List SettingsItem)
    → m.settings_handler ≡ some handler
    → m.need_remote_sync ≡ true
    → m.remote_settings_got ≡ false
    → Waiting handler (on_ack m)
      × Waiting handler (on_items (on_ack m).manager fields)
      × (is_synced (on_items (on_ack m).manager fields).manager ≡ true)
unfolding on_ack on_items
on_ack-on_items_stuck m handler fields waits sync not_got =
    rw (sync, not_got)
      (
        record { no_call = refl; still_set = waits; no_timer = refl },
        record { no_call = refl; still_set = waits; no_timer = refl },
        refl,
      )

-- Where the other half is there or not wanted, an acknowledgement calls the waiting handler with
-- no error, once and for all.
pub on_ack_completes :
    (m : Manager) (handler : ℕ)
    → m.settings_handler ≡ some handler
    → (not m.need_remote_sync || m.remote_settings_got) ≡ true
    → ((on_ack m).call ≡ some (handler, 0))
      × ((on_ack m).manager.settings_handler ≡ none)
      × ((on_ack (on_ack m).manager).call ≡ none)
unfolding on_ack finished
on_ack_completes m handler waits other =
    rw (waits, both m.need_remote_sync m.remote_settings_got other)
      (refl, refl, rw (both m.need_remote_sync m.remote_settings_got other))
  where
    both : (n g : Bool) → (not n || g) ≡ true → ((n && (g && true)) || (not n && true)) ≡ true
    both true true h = refl
    both true false h = h
    both false g h = refl
