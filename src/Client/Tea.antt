-- ===== src/Client/Tea.antt =====
-- What the screens of cmd/client/internal/ui send one another: the messages of Bubble Tea and of
-- the screens, the commands that an Update returns, and the widgets of the bubbles package, which
-- are parameters.
use chattui.Common.{ℕ, ℤ, String, Bool, true, false, Option, List, Map}
use chattui.Dto.{Room, Conversation, User, InboxFeed}
use chattui.Ws.Message.{Message}
use chattui.Client.Inbox.{BadgesMsg}
use chattui.Client.Chat.{StoredMessage}

-- A tea.Msg: the message types that some Update of the client names.
pub data Msg : Type 0 where
  -- tea.KeyPressMsg, as msg.String(), tea.PasteMsg, tea.WindowSizeMsg and spinner.TickMsg
  key paste : String → Msg
  window_size : ℕ → ℕ → Msg
  tick : Msg
  -- package ws, and wsConnectedMsg of package ui
  incoming : Message → Msg
  ws_error : String → Msg
  reconnecting connected ws_connected : Msg
  -- package auth: the token, the user's number and name
  success : String → ℤ → String → Msg
  auth_error : String → Msg
  -- package rooms
  room_selected : Room → Msg
  rooms_show_dms rooms_show_inbox : Msg
  room_error : String → Msg
  room_badge_update : ℤ → ℕ → ℕ → Msg
  rooms_refresh_badges : Map ℤ ℕ → ℕ → Msg
  rooms_loaded : List Room → Msg
  room_created room_joined : Room → Msg
  -- package chat
  leave_room : Msg
  chat_history : List StoredMessage → Msg
  -- package dm
  conv_selected : Conversation → Msg
  new_dm : ℤ → String → Msg
  leave_dm_list dm_show_inbox : Msg
  conv_badge_update : ℤ → ℕ → ℕ → Msg
  dm_refresh_badges : Map ℤ ℕ → ℕ → Msg
  convs_loaded : List Conversation → Msg
  peer_found : User → Msg
  dm_error : String → Msg
  -- package dmchat
  leave_dm : Msg
  dm_history : List StoredMessage → Msg
  -- package inbox
  leave_inbox inbox_show_dms : Msg
  open_room : ℤ → String → Msg
  open_dm : ℤ → ℤ → String → Msg
  inbox_error : String → Msg
  badges : BadgesMsg → Msg
  entries_loaded : List InboxFeed → Msg
  marked_as_read : InboxFeed → Msg

-- A tea.Cmd: what it will do when it runs. A batch is a list of them, and nil is none.
pub data Cmd : Type 0 where
  emit : Msg → Cmd
  quit : Cmd
  -- textinput.Blink, spinner.Tick, and whatever a widget asks for
  widget : Cmd
  login_with register_with : String → String → Cmd
  connect_ws fetch_badges : Cmd
  fetch_rooms fetch_convs fetch_entries : Cmd
  create_room : String → Cmd
  join_and_select : Room → Cmd
  lookup_user : String → Cmd
  load_history load_dm_history : ℤ → Cmd
  -- MarkAsRead of the API client, whose answer is dropped, or comes back with the entry
  mark_as_read : Option ℤ → Option ℤ → Cmd
  mark_entry : Option ℤ → Option ℤ → InboxFeed → Cmd
  -- the send of the WebSocket client, made by the Update itself
  send_room_message send_direct_message : ℤ → String → Cmd

pub data FilterState : Type 0 where
  unfiltered filtering filter_applied : FilterState

abbrev pub is_unfiltered : FilterState → Bool
is_unfiltered unfiltered = true
is_unfiltered filtering = false
is_unfiltered filter_applied = false

abbrev pub is_filtering : FilterState → Bool
is_filtering unfiltered = false
is_filtering filtering = true
is_filtering filter_applied = false

-- list.Model of items `I`, in states `L`.
pub record ListWidget (L I : Type 0) : Type 0 where
  pub empty : L
  pub items : L → List I
  pub set_items : List I → L → L
  pub selected : L → Option I
  pub filter_state : L → FilterState
  pub update : Msg → L → L

-- textinput.Model, in states `T`. `Focus` and `Blur` are one method.
pub record InputWidget (T : Type 0) : Type 0 where
  pub blank : T
  pub value : T → String
  pub set_value : String → T → T
  pub set_focus : Bool → T → T
  pub update : Msg → T → T
