-- ===== src/Client/App/Invariant.antt =====
-- The states that the client of cmd/client/internal/ui/app.go reaches.
use chattui.Common.{
  ℤ, pos, ◌==◌, int_key, String, Bool, true, false, Option, none, some, List, [], ◌∷◌,
  if◌then◌else◌, ◌≡◌, refl, sym, ap, ◌∙◌, arith, Bool-cases, inl, inr,
}
use chattui.Dto.{Room}
use chattui.Client.Tea
use chattui.Client.Tea.{Msg, Cmd}
use chattui.Client.Inbox.{BadgesMsg}
use chattui.Client.Chat.Screen as Chat
use chattui.Client.DmChat.Screen as DmScreen
use chattui.Client.App.{
  Screen, is_rooms, is_dm, Kit, App, switch, leave, new_badges, show_rooms, show_chat, show_dm_chat,
  badge_total, quits,
}
use chattui.Client.App.Commands.{tame, all, if_cmds, tame-rooms, tame-dm}
use chattui.Client.App.Kept.{
  is_auth, plain-Kept, Sound, Kept, to_screen-Kept, plain-rooms, plain-dm, plain_not,
}

-- The messages that can come at the login screen.
abbrev pub at_login : Msg → Bool
at_login (Tea.key k) = true
at_login (Tea.paste s) = true
at_login (Tea.window_size w h) = true
at_login Tea.tick = true
at_login (Tea.incoming msg) = true
at_login (Tea.ws_error e) = true
at_login Tea.reconnecting = true
at_login Tea.connected = true
at_login (Tea.success token id name) = true
at_login (Tea.auth_error e) = true
at_login msg = false

module _ {R D E T : Type 0} (P : String → Type 0) (K : Kit R D E T) where
  abbrev pub Carries : Msg → Type 0
  Carries (Tea.success token id name) = P token
  Carries msg = Unit {0}

  -- What becomes of the message: a panic, or a state that keeps what is to be kept.
  abbrev pub Ends : Screen → Option (App R D E T × List Cmd) → Type 0
  Ends s none = Unit {0}
  Ends s (some r) = Kept P s r.0 r.1

  beyond : (a : App R D E T) → Sound P a → (is_auth a.active ≡ true → false ≡ true) → P a.token
  beyond a s h =
      s.token
        (elim (Bool-cases (is_auth a.active)) [ inl t ↦ absurd (ground (arith, h t)) | inr f ↦ f ])

  if_Ends :
      (s : Screen) (b : Bool) (x y : Option (App R D E T × List Cmd))
      → Ends s x
      → Ends s y
      → Ends s (if b then x else y)
  if_Ends s true x y h k = h
  if_Ends s false x y h k = k

  leave-Ends : (s : Screen) (r : Option Room) (a : App R D E T) → P a.token → Ends s (leave K r a)
  unfolding leave show_rooms
  leave-Ends s none a p = tt
  leave-Ends s (some r) a p = plain-Kept P s _ _ refl p refl

  -- A change that neither the screens nor the token see.
  same-Kept : (a a' : App R D E T) → Sound P a' → a'.active ≡ a.active → Kept P a.active a' []
  same-Kept a a' s e = record {
    sound = s;
    commands = refl;
    login = λ h. (sym (ap is_auth e) ∙ h, refl);
  }

  new_badges-Kept :
      (b : BadgesMsg) (a : App R D E T)
      → Sound P a
      → Kept P a.active (new_badges K b a).0 (new_badges K b a).1
  unfolding new_badges
  new_badges-Kept b a s =
      let a' = record a { room_badges = b.room_badges; conv_badges = b.conv_badges } in
      elim (Bool-cases (is_rooms a.active)) [
        | inl t ↦
            let h = plain-rooms a.active t in
            rw t (
              plain-Kept P a.active _ _ h (s.token (plain_not a.active h).0) (
                tame-rooms K.rooms_list K.input K.trim_space
                  (Tea.rooms_refresh_badges b.room_badges (badge_total a')) a'.rooms))
        | inr f ↦ elim (Bool-cases (is_dm a.active)) [
          | inl t ↦
              let h = plain-dm a.active t in
              rw (f, t)
                (plain-Kept P a.active _ _ h (s.token (plain_not a.active h).0) (
                  tame-dm K.dm_list K.input K.trim_space
                    (Tea.dm_refresh_badges b.conv_badges (badge_total a')) a'.dm))
          | inr g ↦ rw (f, g) (same-Kept a a' (record { token = s.token; room = s.room }) refl)
        ]
      ]

  show_chat-Kept :
      (s : Screen) (room : Room) (a : App R D E T)
      → P a.token
      → Kept P s (show_chat K room a).0 (show_chat K room a).1
  unfolding show_chat Chat.init Chat.new
  show_chat-Kept s room a p = record {
    sound = record { token = λ h. p; room = λ h. refl };
    commands = refl;
    login = λ h. absurd (ground (arith, h));
  }

  tame-show_dm_chat :
      (conv peer : ℤ) (name : String) (a : App R D E T)
      → all tame (show_dm_chat K conv peer name a).1 ≡ true
  unfolding show_dm_chat DmScreen.init DmScreen.new
  tame-show_dm_chat conv peer name a =
      if_cmds tame (conv == pos 0) []
        (Tea.load_dm_history conv ∷ Tea.mark_as_read (some conv) none ∷ []) refl refl

  show_dm_chat-Kept :
      (s : Screen) (conv peer : ℤ) (name : String) (a : App R D E T)
      → P a.token
      → Kept P s (show_dm_chat K conv peer name a).0 (show_dm_chat K conv peer name a).1
  unfolding show_dm_chat
  show_dm_chat-Kept s conv peer name a p =
      plain-Kept P s _ _ refl p (tame-show_dm_chat conv peer name a)

  pub switch-Ends :
      (msg : Msg) (a : App R D E T)
      → Sound P a
      → Carries msg
      → (is_auth a.active ≡ true → at_login msg ≡ true)
      → Ends a.active (switch K msg a)
  unfolding switch
  switch-Ends (Tea.key k) a s p l =
      if_Ends a.active (quits K k a) _ _
        (record { sound = s; commands = refl; login = λ h. (h, refl) })
        (to_screen-Kept P K a.active (Tea.key k) a refl s)
  switch-Ends (Tea.window_size w h) a s p l =
      to_screen-Kept P K a.active (Tea.window_size w h) (record a { width = w; height = h }) refl
        (record { token = s.token; room = s.room })
  switch-Ends (Tea.success token id name) a s p l = plain-Kept P a.active _ _ refl p refl
  switch-Ends Tea.ws_connected a s p l =
      same-Kept a _ (record { token = s.token; room = s.room }) refl
  switch-Ends Tea.reconnecting a s p l =
      same-Kept a _ (record { token = s.token; room = s.room }) refl
  switch-Ends Tea.connected a s p l = same-Kept a _ (record { token = s.token; room = s.room }) refl
  switch-Ends (Tea.badges b) a s p l = new_badges-Kept b a s
  switch-Ends (Tea.room_selected room) a s p l = show_chat-Kept a.active room a (beyond a s l)
  switch-Ends Tea.leave_room a s p l = leave-Ends a.active a.current_room a (beyond a s l)
  switch-Ends Tea.rooms_show_dms a s p l = plain-Kept P a.active _ _ refl (beyond a s l) refl
  switch-Ends (Tea.conv_selected c) a s p l =
      show_dm_chat-Kept a.active c.id c.peer_id c.peer_username a (beyond a s l)
  switch-Ends (Tea.new_dm peer name) a s p l =
      show_dm_chat-Kept a.active (pos 0) peer name a (beyond a s l)
  switch-Ends Tea.leave_dm_list a s p l = plain-Kept P a.active _ _ refl (beyond a s l) refl
  switch-Ends Tea.leave_dm a s p l = plain-Kept P a.active _ _ refl (beyond a s l) refl
  switch-Ends Tea.rooms_show_inbox a s p l = plain-Kept P a.active _ _ refl (beyond a s l) refl
  switch-Ends Tea.dm_show_inbox a s p l = plain-Kept P a.active _ _ refl (beyond a s l) refl
  switch-Ends Tea.leave_inbox a s p l = plain-Kept P a.active _ _ refl (beyond a s l) refl
  switch-Ends Tea.inbox_show_dms a s p l = plain-Kept P a.active _ _ refl (beyond a s l) refl
  switch-Ends (Tea.open_room id name) a s p l = show_chat-Kept a.active _ a (beyond a s l)
  switch-Ends (Tea.open_dm conv peer name) a s p l =
      show_dm_chat-Kept a.active conv peer name a (beyond a s l)
  switch-Ends msg a s p l = to_screen-Kept P K a.active msg a refl s
