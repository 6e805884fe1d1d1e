-- ===== src/Client/App/Panics.antt =====
-- When Update of cmd/client/internal/ui/app.go dereferences nil.
use chattui.Common.{
  Bool, true, false, Option, none, some, List, [], ◌∷◌, if◌then◌else◌, ◌≡◌, refl, sym, ap, ◌∙◌,
  arith, ◌↔◌, inl, inr, Bool-cases, some-injective, string_key,
}
use chattui.Dto.{Room}
use chattui.Client.Tea
use chattui.Client.Tea.{Msg, Cmd}
use chattui.Client.Chat.Screen as Chat
use chattui.Client.App.{
  screen_chat, Kit, App, Routed, handled, goes_on, switch, update, behind, intercept, leave,
  show_rooms, quits, to_screen,
}

module _ {R D E T : Type 0} (K : Kit R D E T) where
  abbrev is_leave : Msg → Bool
  is_leave Tea.leave_room = true
  is_leave msg = false

  abbrev Runs : Option (App R D E T × List Cmd) → Type 0
  Runs o = (r : App R D E T × List Cmd) × (o ≡ some r)

  if_Runs :
      (b : Bool) (x y : Option (App R D E T × List Cmd))
      → Runs x
      → Runs y
      → Runs (if b then x else y)
  if_Runs true x y h k = h
  if_Runs false x y h k = k

  switch-Runs : (msg : Msg) (a : App R D E T) → is_leave msg ≡ false → Runs (switch K msg a)
  unfolding switch
  switch-Runs (Tea.key k) a h = if_Runs (quits K k a) _ _ (_, refl) (_, refl)
  switch-Runs Tea.leave_room a h = absurd (ground (arith, h))
  switch-Runs msg a h = (_, refl)

  behind-Runs : (msg : Msg) (r : Routed R D E T) → is_leave msg ≡ false → Runs (behind K msg r)
  behind-Runs msg (handled a cmds) h = (_, refl)
  behind-Runs msg (goes_on a) h = switch-Runs msg a h

  leave-none : (r : Option Room) (a : App R D E T) → leave K r a ≡ none → r ≡ none
  unfolding leave
  leave-none none a h = refl
  leave-none (some r) a h = absurd (cc)

  is_leave_only : (msg : Msg) → is_leave msg ≡ true → msg ≡ Tea.leave_room
  is_leave_only Tea.leave_room h = refl
  is_leave_only msg h = absurd (ground (arith, h))

  update-leave : (a : App R D E T) → update K Tea.leave_room a ≡ leave K a.current_room a
  unfolding update intercept switch
  update-leave a = refl

  leave_no_room : (r : Option Room) (a : App R D E T) → r ≡ none → leave K r a ≡ none
  unfolding leave
  leave_no_room none a h = refl
  leave_no_room (some r) a h = absurd (cc)

  -- `Update` dereferences nil exactly when it is told to leave the room while there is none.
  pub update-panics :
      (msg : Msg) (a : App R D E T)
      → (update K msg a ≡ none) ↔ ((msg ≡ Tea.leave_room) × (a.current_room ≡ none))
  unfolding update
  update-panics msg a = elim (Bool-cases (is_leave msg)) [
    | inl t ↦
        let e = is_leave_only msg t in
        (
          λ h. (
            e,
            leave-none a.current_room a
                (sym (update-leave a) ∙ (sym (ap (λ m. update K m a) e) ∙ h)),
          ),
          λ (x, y). ap (λ m. update K m a) e ∙ (update-leave a ∙ leave_no_room a.current_room a y),
        )
    | inr f ↦
        let (r, e) = behind-Runs msg (intercept K msg a) f in
        (λ h. absurd (cc), λ (x, y). absurd (ground (arith, sym (ap is_leave x) ∙ f)))
  ]

  left :
      (r : Option Room) (a a' : App R D E T) (cmds : List Cmd)
      → leave K r a ≡ some (a', cmds)
      → a'.current_room ≡ none
  unfolding leave show_rooms
  left none a a' cmds h = absurd (cc)
  left (some r) a a' cmds h = ap (λ x. x.0.current_room) (sym (some-injective _ _ h))

  -- Two presses of esc on the room screen leave it as it is and send two messages to leave; the
  -- second of them, after the first has left the room, dereferences nil.
  pub double_esc-panics :
      (a a' : App R D E T) (cmds : List Cmd)
      → a.active ≡ screen_chat
      → update K Tea.leave_room a ≡ some (a', cmds)
      → (update K (Tea.key "esc") a ≡ some (a, Tea.emit Tea.leave_room ∷ []))
        × (update K Tea.leave_room a' ≡ none)
  unfolding update intercept switch quits to_screen Chat.update
  double_esc-panics a a' cmds e h = (
    rw e refl,
    update-leave a'
        ∙ leave_no_room a'.current_room a'
            (left a.current_room a a' cmds (sym (update-leave a) ∙ h)),
  )
