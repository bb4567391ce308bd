-- ===== src/Main/SignIn/Chosen.antt =====
-- How the method in signIn.tsx changes over time.
use shareframe_board.Common.{
  ◌≡◌, refl, ap, ◌∙◌, Bool, true, false, not, ◌&&◌, ◌||◌, List, [], ◌∷◌, ◌++◌, arith,
}
use shareframe_board.ConnectionMode.{ConnectionModeState, connecting, connected}
use shareframe_board.ConnectionMode.{ap as hotspot}
use shareframe_board.Main.SignIn.{
  SignInState, initial_state, method_of, on_hotspot, LoginMethod, otp, password, SignInEvent,
  mode_changed, method_toggled, show_clicked, login_submitted, secret_typed, login_over,
  switch_when_offline, handle_toggle_method, other_method, submit_over, handle_event, after,
}

abbrev pub is_offline : ConnectionModeState → Bool
is_offline m = m.loaded && not m.internet

abbrev pub is_steady : SignInEvent → Bool
is_steady (mode_changed m) = not (is_offline m)
is_steady _ = true

-- The method after an event, and after all the toggles among the events.
abbrev pub toggled_by : SignInEvent → LoginMethod → LoginMethod
toggled_by method_toggled method = other_method method
toggled_by _ method = method

abbrev pub toggled : List SignInEvent → LoginMethod → LoginMethod
toggled [] method = method
toggled (e ∷ events) method = toggled events (toggled_by e method)

-- No event makes the page switch, which is so once it has.
abbrev pub AreSteady : Bool → List SignInEvent → Type 0
AreSteady switched [] = Unit
AreSteady switched (e ∷ events) = ((switched || is_steady e) ≡ true) × AreSteady switched events

AreSteady-true : (events : List SignInEvent) → AreSteady true events
AreSteady-true [] = tt
AreSteady-true (e ∷ events) = (refl, AreSteady-true events)

after-append :
    (xs ys : List SignInEvent) (s : SignInState) → after (xs ++ ys) s ≡ after ys (after xs s)
unfolding after
after-append [] ys s = refl
after-append (x ∷ xs) ys s = after-append xs ys (handle_event x s)

handle_event-steady :
    (e : SignInEvent) (s : SignInState)
    → (s.auto_switched || is_steady e) ≡ true
    → ((handle_event e s).auto_switched ≡ s.auto_switched)
      × ((handle_event e s).chosen_method ≡ toggled_by e s.chosen_method)
unfolding handle_event handle_toggle_method submit_over switch_when_offline
handle_event-steady (mode_changed m) s h = (ground arith, ground arith)
handle_event-steady method_toggled s h = (refl, refl)
handle_event-steady show_clicked s h = (refl, refl)
handle_event-steady login_submitted s h = (refl, refl)
handle_event-steady (secret_typed text) s h = (refl, refl)
handle_event-steady (login_over r) s h = (refl, refl)

after-AreSteady :
    (switched : Bool) (events : List SignInEvent) (s : SignInState)
    → s.auto_switched ≡ switched
    → AreSteady switched events
    → ((after events s).auto_switched ≡ switched)
      × ((after events s).chosen_method ≡ toggled events s.chosen_method)
unfolding after
after-AreSteady switched [] s h a = (h, refl)
after-AreSteady switched (e ∷ events) s h (a, rest) =
    let (auto, chosen) = handle_event-steady e s (ap (◌|| is_steady e) h ∙ a) in
    let (auto', chosen') = after-AreSteady switched events (handle_event e s) (auto ∙ h) rest in
    (auto', chosen' ∙ ap (toggled events) chosen)

switch_when_offline-first :
    (m : ConnectionModeState) (s : SignInState)
    → is_offline m ≡ true
    → s.auto_switched ≡ false
    → ((switch_when_offline m s).auto_switched ≡ true)
      × ((switch_when_offline m s).chosen_method ≡ password)
unfolding switch_when_offline
switch_when_offline-first m s h k = (ground arith, ground arith)

-- The method that the page uses: the password on the hotspot, and otherwise the one that was chosen.
abbrev pub used : ConnectionModeState → LoginMethod → LoginMethod
used now chosen = elim now.loaded [
  | false ↦ chosen
  | true ↦ elim now.mode [ hotspot ↦ password | connecting ↦ chosen | connected ↦ chosen ]
]

method_of-used :
    (now : ConnectionModeState) (s : SignInState) → method_of now s ≡ used now s.chosen_method
unfolding method_of on_hotspot
method_of-used now s = ground arith

-- On its own hotspot the page always uses the password. Elsewhere it uses the method that is chosen:
-- while the board has never been seen without internet, the code, changed by each toggle. The first
-- time it is seen without, the password is chosen; from then on only the toggles change the choice,
-- however the connection changes.
pub after-toggled :
    (events : List SignInEvent) (m : ConnectionModeState) (later : List SignInEvent)
    (now : ConnectionModeState)
    → AreSteady false events
    → is_offline m ≡ true
    → (method_of now (after events initial_state) ≡ used now (toggled events otp))
      × (method_of now (after (events ++ mode_changed m ∷ later) initial_state)
          ≡ used now (toggled later password))
unfolding after handle_event
after-toggled events m later now h o =
    let s = after events initial_state in
    let (auto, chosen) = after-AreSteady false events initial_state refl h in
    let (a, c) = switch_when_offline-first m s o auto in
    (
      method_of-used now s ∙ ap (used now) chosen,
      method_of-used now (after (events ++ mode_changed m ∷ later) initial_state)
          ∙ ap (λ t. used now t.chosen_method)
              (after-append events (mode_changed m ∷ later) initial_state)
          ∙ ap (used now) (
              (after-AreSteady true later (switch_when_offline m s) a (AreSteady-true later)).1
              ∙ ap (toggled later) c),
    )
