-- ===== src/Client/App.antt =====
-- cmd/client/internal/ui/app.go: the app around the screens. The connection status, a global of
-- package hud, is a field. The widgets, JSON, the clock and strings.TrimSpace are parameters.
pub mod Machine
pub mod Commands
pub mod Kept
pub mod Invariant
pub mod Answers
pub mod Reachable
pub mod Panics
pub mod Badges
mod Tests
use chattui.Common.{
  ℕ, ◌+◌, ℤ, pos, String, Bool, true, false, not, Option, none, some, List, [], ◌∷◌, if◌then◌else◌,
  ◌==◌, ◌&&◌, string_key, int_key, Map, insert,
}
use chattui.Dto
use chattui.Dto.{Room, Conversation, InboxFeed}
use chattui.Ws.Message.{Json, Message, InboxUpdatedPayload, type_inbox_updated}
use chattui.Client.Inbox.{BadgesMsg, total}
use chattui.Client.Inbox.Screen as Inbox
use chattui.Client.Render.Frame.{Status, offline, connecting, live}
use chattui.Client.Chat.{Codec}
use chattui.Client.Chat.Screen as Chat
use chattui.Client.DmChat
use chattui.Client.DmChat.Screen as DmScreen
use chattui.Client.Rooms
use chattui.Client.Dm
use chattui.Client.Auth
use chattui.Client.Tea
use chattui.Client.Tea.{Msg, Cmd, ListWidget, InputWidget}

pub data Screen : Type 0 where
  screen_auth screen_rooms screen_chat screen_dm screen_dm_chat screen_inbox : Screen

abbrev pub is_rooms : Screen → Bool
is_rooms screen_rooms = true
is_rooms s = false

abbrev pub is_dm : Screen → Bool
is_dm screen_dm = true
is_dm s = false

-- The libraries that the screens use: lists in states `R`, `D` and `E`, inputs in states `T`.
pub record Kit (R D E T : Type 0) : Type 0 where
  pub rooms_list : ListWidget R Room
  pub dm_list : ListWidget D Conversation
  pub inbox_list : ListWidget E InboxFeed
  pub input : InputWidget T
  pub chat_codec : Codec
  pub dm_codec : DmChat.Codec
  pub unmarshal_inbox : Json → Option InboxUpdatedPayload
  pub trim_space : String → String
  pub now : ℤ

-- App with its AppState. A screen that was not opened yet holds what `New` would make of zeros.
pub record App (R D E T : Type 0) : Type 0 where
  pub token : String
  pub user_id : ℤ
  pub username : String
  pub current_room : Option Room
  pub room_badges : Map ℤ ℕ
  pub conv_badges : Map ℤ ℕ
  pub has_ws : Bool
  pub active : Screen
  pub status : Status
  pub width : ℕ
  pub height : ℕ
  pub auth : Auth.Model T
  pub rooms : Rooms.Model R T
  pub chat : Chat.Model T
  pub dm : Dm.Model D T
  pub dm_chat : DmScreen.Model T
  pub inbox : Inbox.Model E

module _ {R D E T : Type 0} where
  unfoldable pub badge_total : App R D E T → ℕ
  unfolding total
  badge_total a = total a.room_badges + total a.conv_badges

-- What the first part of `Update` does: it has answered, or the message goes on.
pub data Routed (R D E T : Type 0) : Type 0 where
  handled : App R D E T → List Cmd → Routed R D E T
  goes_on : App R D E T → Routed R D E T

module _ {R D E T : Type 0} (K : Kit R D E T) where
  abbrev pub with_rooms : App R D E T → Rooms.Model R T × List Cmd → App R D E T × List Cmd
  with_rooms a (m, cmds) = (record a { rooms = m }, cmds)

  abbrev pub with_dm : App R D E T → Dm.Model D T × List Cmd → App R D E T × List Cmd
  with_dm a (m, cmds) = (record a { dm = m }, cmds)

  abbrev pub tell_rooms : Msg → App R D E T → App R D E T × List Cmd
  tell_rooms msg a = with_rooms a (Rooms.update K.rooms_list K.input K.trim_space msg a.rooms)

  abbrev pub tell_dm : Msg → App R D E T → App R D E T × List Cmd
  tell_dm msg a = with_dm a (Dm.update K.dm_list K.input K.trim_space msg a.dm)

  abbrev pub routed : App R D E T × List Cmd → Routed R D E T
  routed (a, cmds) = handled a cmds

  unfoldable pub note_conv : Option ℤ → ℕ → App R D E T → Routed R D E T
  unfolding badge_total
  note_conv none n a = goes_on a
  note_conv (some c) n a =
      let a' = record a { conv_badges = insert c n a.conv_badges } in
      if is_dm a.active
      then routed (tell_dm (Tea.conv_badge_update c n (badge_total a')) a')
      else goes_on a'

  unfoldable pub note_room : Option ℤ → Option ℤ → ℕ → App R D E T → Routed R D E T
  unfolding note_conv badge_total
  note_room none conv n a = note_conv conv n a
  note_room (some r) conv n a =
      let a' = record a { room_badges = insert r n a.room_badges } in
      if is_rooms a.active
      then routed (tell_rooms (Tea.room_badge_update r n (badge_total a')) a')
      else note_conv conv n a'

  -- An inbox_updated message, as it was parsed.
  unfoldable pub note_payload : Option InboxUpdatedPayload → App R D E T → Routed R D E T
  unfolding note_room
  note_payload none a = goes_on a
  note_payload (some p) a = note_room p.ref_room_id p.ref_conversation_id p.unread_count a

  -- The part of `Update` above the switch.
  unfoldable pub intercept : Msg → App R D E T → Routed R D E T
  unfolding note_payload
  intercept (Tea.ws_error e) a = goes_on (record a { status = offline })
  intercept (Tea.incoming msg) a =
      if msg.kind == type_inbox_updated
      then note_payload (K.unmarshal_inbox msg.payload) a
      else goes_on a
  intercept msg a = goes_on a

  -- The switch on the active screen.
  unfoldable pub to_screen : Screen → Msg → App R D E T → App R D E T × List Cmd
  to_screen screen_auth msg a =
      let (m, cmds) = Auth.update K.input K.trim_space msg a.auth in (record a { auth = m }, cmds)
  to_screen screen_rooms msg a = tell_rooms msg a
  to_screen screen_chat msg a =
      let (m, cmds) = Chat.update K.input K.chat_codec K.trim_space msg a.chat in
      (record a { chat = m }, cmds)
  to_screen screen_dm msg a = tell_dm msg a
  to_screen screen_dm_chat msg a =
      let (m, cmds) = DmScreen.update K.input K.dm_codec K.trim_space msg a.dm_chat in
      (record a { dm_chat = m }, cmds)
  to_screen screen_inbox msg a =
      let (m, cmds) = Inbox.update K.inbox_list K.unmarshal_inbox K.now msg a.inbox in
      (record a { inbox = m }, cmds)

  unfoldable pub show_rooms : List Cmd → App R D E T → App R D E T × List Cmd
  unfolding badge_total
  show_rooms more a = (
    record a {
      active = screen_rooms;
      rooms =
          Rooms.new K.rooms_list K.input K.trim_space a.room_badges (badge_total a) a.width a.height
            a.rooms.theme;
    },
    Tea.fetch_rooms ∷ Tea.widget ∷ more,
  )

  unfoldable pub show_dms : List Cmd → App R D E T → App R D E T × List Cmd
  unfolding badge_total
  show_dms more a = (
    record a {
      active = screen_dm;
      dm = Dm.new K.dm_list K.input K.trim_space a.conv_badges (badge_total a) a.width a.height;
    },
    Tea.fetch_convs ∷ Tea.widget ∷ more,
  )

  unfoldable pub show_inbox : App R D E T → App R D E T × List Cmd
  show_inbox a = (
    record a {
      active = screen_inbox;
      inbox = Inbox.new K.inbox_list K.unmarshal_inbox K.now a.width a.height;
    },
    Tea.fetch_entries ∷ Tea.widget ∷ [],
  )

  unfoldable pub show_chat : Room → App R D E T → App R D E T × List Cmd
  show_chat room a =
      let m = Chat.new K.input K.chat_codec K.trim_space a.has_ws room a.width a.height in
      (
        record a { current_room = some room; active = screen_chat; chat = m },
        Chat.init K.input K.chat_codec K.trim_space m,
      )

  unfoldable pub show_dm_chat : ℤ → ℤ → String → App R D E T → App R D E T × List Cmd
  show_dm_chat conv peer peer_name a =
      let m =
        DmScreen.new K.input K.dm_codec K.trim_space a.has_ws conv peer peer_name a.user_id
          a.username a.width a.height in
      (
        record a { active = screen_dm_chat; dm_chat = m },
        DmScreen.init K.input K.dm_codec K.trim_space m,
      )

  -- A key that the app takes itself.
  unfoldable pub quits : String → App R D E T → Bool
  quits k a =
      if k == "ctrl+c"
      then true
      else k == "esc"
        && (is_rooms a.active && not (Rooms.has_overlay K.rooms_list K.input K.trim_space a.rooms))

  -- `a.state.CurrentRoom.ID` of no room is a nil dereference: `none`.
  unfoldable pub leave : Option Room → App R D E T → Option (App R D E T × List Cmd)
  unfolding show_rooms
  leave none a = none
  leave (some r) a = some (show_rooms (Tea.fetch_badges ∷ []) (record a { current_room = none }))

  -- The case inbox.BadgesMsg.
  unfoldable pub new_badges : BadgesMsg → App R D E T → App R D E T × List Cmd
  unfolding badge_total
  new_badges b a =
      let a' = record a { room_badges = b.room_badges; conv_badges = b.conv_badges } in
      if is_rooms a.active
      then tell_rooms (Tea.rooms_refresh_badges b.room_badges (badge_total a')) a'
      else if is_dm a.active
      then tell_dm (Tea.dm_refresh_badges b.conv_badges (badge_total a')) a'
      else (a', [])

  -- The case auth.SuccessMsg.
  unfoldable pub logged_in : String → ℤ → String → App R D E T → App R D E T × List Cmd
  unfolding show_rooms
  logged_in token id name a = show_rooms (Tea.connect_ws ∷ Tea.fetch_badges ∷ []) (record a {
    token = token;
    user_id = id;
    username = name;
    status = connecting;
    room_badges = [];
    conv_badges = [];
  })

  -- The switch on the message, with what falls out of it.
  unfoldable pub switch : Msg → App R D E T → Option (App R D E T × List Cmd)
  unfolding to_screen logged_in leave new_badges show_dms show_inbox show_chat show_dm_chat
      show_rooms quits
  switch (Tea.key k) a =
      if quits k a then some (a, Tea.quit ∷ []) else some (to_screen a.active (Tea.key k) a)
  switch (Tea.window_size w h) a =
      some (to_screen a.active (Tea.window_size w h) (record a { width = w; height = h }))
  switch (Tea.success token id name) a = some (logged_in token id name a)
  switch Tea.ws_connected a = some (record a { has_ws = true; status = live }, [])
  switch Tea.reconnecting a = some (record a { status = connecting }, [])
  switch Tea.connected a = some (record a { status = live }, [])
  switch (Tea.badges b) a = some (new_badges b a)
  switch (Tea.room_selected room) a = some (show_chat room a)
  switch Tea.leave_room a = leave a.current_room a
  switch Tea.rooms_show_dms a = some (show_dms [] a)
  switch (Tea.conv_selected c) a = some (show_dm_chat c.id c.peer_id c.peer_username a)
  switch (Tea.new_dm peer name) a = some (show_dm_chat (pos 0) peer name a)
  switch Tea.leave_dm_list a = some (show_rooms [] a)
  switch Tea.leave_dm a = some (show_dms (Tea.fetch_badges ∷ []) a)
  switch Tea.rooms_show_inbox a = some (show_inbox a)
  switch Tea.dm_show_inbox a = some (show_inbox a)
  switch Tea.leave_inbox a = some (show_rooms [] a)
  switch Tea.inbox_show_dms a = some (show_dms [] a)
  switch (Tea.open_room id name) a =
      some (show_chat (record { id = id; name = name; slug = ""; created_at = pos 0 }) a)
  switch (Tea.open_dm conv peer name) a = some (show_dm_chat conv peer name a)
  switch msg a = some (to_screen a.active msg a)

  abbrev pub behind : Msg → Routed R D E T → Option (App R D E T × List Cmd)
  behind msg (handled a cmds) = some (a, cmds)
  behind msg (goes_on a) = switch msg a

  -- `none` is a panic.
  unfoldable pub update : Msg → App R D E T → Option (App R D E T × List Cmd)
  unfolding intercept switch
  update msg a = behind msg (intercept msg a)

  -- NewApp; `theme` is the theme that is set.
  unfoldable pub new_app : String → App R D E T
  new_app theme = record {
    token = "";
    user_id = pos 0;
    username = "";
    current_room = none;
    room_badges = [];
    conv_badges = [];
    has_ws = false;
    active = screen_auth;
    status = offline;
    width = 0;
    height = 0;
    auth = Auth.new K.input K.trim_space;
    rooms = Rooms.new K.rooms_list K.input K.trim_space [] 0 0 0 theme;
    chat =
        Chat.new K.input K.chat_codec K.trim_space false
          (record { id = pos 0; name = ""; slug = ""; created_at = pos 0 }) 0 0;
    dm = Dm.new K.dm_list K.input K.trim_space [] 0 0 0;
    dm_chat = DmScreen.new K.input K.dm_codec K.trim_space false (pos 0) (pos 0) "" (pos 0) "" 0 0;
    inbox = Inbox.new K.inbox_list K.unmarshal_inbox K.now 0 0;
  }
