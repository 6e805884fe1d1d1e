-- ===== src/Client/App/Kept.antt =====
-- What every Update of cmd/client/internal/ui/app.go keeps.
use chattui.Common.{
  ℕ, ℤ, String, Bool, true, false, not, Option, none, some, List, if◌then◌else◌, ◌&&◌, ◌≡◌, refl,
  sym, ap, ◌∙◌, arith, ◌==◌, string_key, insert, int_key,
}
use chattui.Client.Tea
use chattui.Client.Tea.{Msg, Cmd}
use chattui.Ws.Message.{InboxUpdatedPayload, type_inbox_updated}
use chattui.Client.Auth
use chattui.Client.App.{
  Screen, screen_auth, screen_rooms, screen_chat, screen_dm, screen_dm_chat, screen_inbox, is_rooms,
  is_dm, Kit, App, Routed, handled, goes_on, routed, tell_rooms, tell_dm, note_conv, note_room,
  note_payload, intercept, to_screen, badge_total,
}
use chattui.Client.App.Commands.{
  tame, auth_only, all, tame-rooms, tame-dm, auth_only-auth, tame-auth_only, all-imp, tame-chat,
  room-chat, tame-dm_chat, tame-inbox,
}

abbrev pub is_auth : Screen → Bool
is_auth screen_auth = true
is_auth s = false

abbrev pub is_chat : Screen → Bool
is_chat screen_chat = true
is_chat s = false

-- A screen that is neither the login screen nor a room.
abbrev pub plain : Screen → Bool
plain s = not (is_auth s) && not (is_chat s)

pub plain_not : (s : Screen) → plain s ≡ true → (is_auth s ≡ false) × (is_chat s ≡ false)
plain_not s h = (ground arith, ground arith)

pub plain-rooms : (s : Screen) → is_rooms s ≡ true → plain s ≡ true
plain-rooms screen_auth h = h
plain-rooms screen_rooms h = refl
plain-rooms screen_chat h = h
plain-rooms screen_dm h = refl
plain-rooms screen_dm_chat h = refl
plain-rooms screen_inbox h = refl

pub plain-dm : (s : Screen) → is_dm s ≡ true → plain s ≡ true
plain-dm screen_auth h = h
plain-dm screen_rooms h = refl
plain-dm screen_chat h = h
plain-dm screen_dm h = refl
plain-dm screen_dm_chat h = refl
plain-dm screen_inbox h = refl

module _ {R D E T : Type 0} (P : String → Type 0) where
  -- Beyond the login screen there is a token, and the room screen shows the current room.
  pub record Sound (a : App R D E T) : Type 0 where
    pub token : is_auth a.active ≡ false → P a.token
    pub room : is_chat a.active ≡ true → a.current_room ≡ some a.chat.room

  -- The new state is sound; it is the login screen only if the old one, `s`, was, and then all commands
  -- are those of a login; no command sends a success by itself.
  pub record Kept (s : Screen) (a' : App R D E T) (cmds : List Cmd) : Type 0 where
    pub sound : Sound a'
    pub commands : all tame cmds ≡ true
    pub login : is_auth a'.active ≡ true → (is_auth s ≡ true) × (all auth_only cmds ≡ true)

  pub plain-Sound : (a : App R D E T) → plain a.active ≡ true → P a.token → Sound a
  plain-Sound a h p = record {
    token = λ e. p;
    room = λ e. absurd (ground (arith, plain_not a.active h));
  }

  pub plain-Kept :
      (s : Screen) (a' : App R D E T) (cmds : List Cmd)
      → plain a'.active ≡ true
      → P a'.token
      → all tame cmds ≡ true
      → Kept s a' cmds
  plain-Kept s a' cmds h p c = record {
    sound = plain-Sound a' h p;
    commands = c;
    login = λ e. absurd (ground (arith, plain_not a'.active h));
  }

  -- What becomes of a message that the first part of Update has seen.
  abbrev pub Passed : Screen → Routed R D E T → Type 0
  Passed s (handled a' cmds) = Kept s a' cmds
  Passed s (goes_on a') = Sound a' × (a'.active ≡ s)

  if_Passed :
      (s : Screen) (b : Bool) (x y : Routed R D E T)
      → (b ≡ true → Passed s x)
      → Passed s y
      → Passed s (if b then x else y)
  if_Passed s true x y h k = h refl
  if_Passed s false x y h k = k

  module _ (K : Kit R D E T) where
    note_conv-Passed :
        (c : Option ℤ) (n : ℕ) (a : App R D E T) → Sound a → Passed a.active (note_conv K c n a)
    unfolding note_conv
    note_conv-Passed none n a s = (s, refl)
    note_conv-Passed (some c) n a s =
        let a' = record a { conv_badges = insert c n a.conv_badges } in
        if_Passed a.active (is_dm a.active)
          (routed K (tell_dm K (Tea.conv_badge_update c n (badge_total a')) a')) (goes_on a')
          (λ h.
            plain-Kept a.active _ _ (plain-dm a.active h)
              (s.token (plain_not a.active (plain-dm a.active h)).0)
              (tame-dm K.dm_list K.input K.trim_space (Tea.conv_badge_update c n (badge_total a'))
                a'.dm))
          (record { token = s.token; room = s.room }, refl)

    note_room-Passed :
        (r c : Option ℤ) (n : ℕ) (a : App R D E T) → Sound a → Passed a.active (note_room K r c n a)
    unfolding note_room
    note_room-Passed none c n a s = note_conv-Passed c n a s
    note_room-Passed (some r) c n a s =
        let a' = record a { room_badges = insert r n a.room_badges } in
        if_Passed a.active (is_rooms a.active)
          (routed K (tell_rooms K (Tea.room_badge_update r n (badge_total a')) a'))
          (note_conv K c n a')
          (λ h.
            plain-Kept a.active _ _ (plain-rooms a.active h)
              (s.token (plain_not a.active (plain-rooms a.active h)).0)
              (tame-rooms K.rooms_list K.input K.trim_space
                (Tea.room_badge_update r n (badge_total a')) a'.rooms))
          (note_conv-Passed c n a' (record { token = s.token; room = s.room }))

    note_payload-Passed :
        (p : Option InboxUpdatedPayload) (a : App R D E T)
        → Sound a
        → Passed a.active (note_payload K p a)
    unfolding note_payload
    note_payload-Passed none a s = (s, refl)
    note_payload-Passed (some p) a s =
        note_room-Passed p.ref_room_id p.ref_conversation_id p.unread_count a s

    pub intercept-Passed :
        (msg : Msg) (a : App R D E T) → Sound a → Passed a.active (intercept K msg a)
    unfolding intercept
    intercept-Passed (Tea.ws_error e) a s = (record { token = s.token; room = s.room }, refl)
    intercept-Passed (Tea.incoming msg) a s =
        if_Passed a.active (msg.kind == type_inbox_updated)
          (note_payload K (K.unmarshal_inbox msg.payload) a) (goes_on a)
          (λ h. note_payload-Passed (K.unmarshal_inbox msg.payload) a s) (s, refl)
    intercept-Passed msg a s = (s, refl)

    -- Whichever screen it is that takes the message.
    pub to_screen-Kept :
        (c : Screen) (msg : Msg) (a : App R D E T)
        → a.active ≡ c
        → Sound a
        → Kept a.active (to_screen K c msg a).0 (to_screen K c msg a).1
    unfolding to_screen
    to_screen-Kept screen_auth msg a e s = record {
      sound = record { token = s.token; room = s.room };
      commands =
          all-imp auth_only tame tame-auth_only (Auth.update K.input K.trim_space msg a.auth).1
            (auth_only-auth K.input K.trim_space msg a.auth);
      login = λ h. (h, auth_only-auth K.input K.trim_space msg a.auth);
    }
    to_screen-Kept screen_rooms msg a e s =
        plain-Kept a.active _ _ (ap plain e) (s.token (ap is_auth e))
          (tame-rooms K.rooms_list K.input K.trim_space msg a.rooms)
    to_screen-Kept screen_chat msg a e s = record {
      sound = record {
        token = s.token;
        room =
            λ h. s.room h ∙ ap some (sym (room-chat K.input K.chat_codec K.trim_space msg a.chat));
      };
      commands = tame-chat K.input K.chat_codec K.trim_space msg a.chat;
      login = λ h. absurd (ground (arith, ap is_auth e));
    }
    to_screen-Kept screen_dm msg a e s =
        plain-Kept a.active _ _ (ap plain e) (s.token (ap is_auth e))
          (tame-dm K.dm_list K.input K.trim_space msg a.dm)
    to_screen-Kept screen_dm_chat msg a e s =
        plain-Kept a.active _ _ (ap plain e) (s.token (ap is_auth e))
          (tame-dm_chat K.input K.dm_codec K.trim_space msg a.dm_chat)
    to_screen-Kept screen_inbox msg a e s =
        plain-Kept a.active _ _ (ap plain e) (s.token (ap is_auth e))
          (tame-inbox K.inbox_list K.unmarshal_inbox K.now msg a.inbox)
