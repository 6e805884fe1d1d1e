-- ===== src/Client/App/Commands.antt =====
-- Which commands the screens of cmd/client/internal/ui return.
use chattui.Common.{
  ℤ, String, Bool, true, false, Option, none, some, List, [], ◌∷◌, ◌++◌, if◌then◌else◌, ◌&&◌,
  string_key, nat_key, int_key, ltb, ◌≡◌, refl, arith,
}
use chattui.Client.Tea
use chattui.Client.Tea.{Msg, Cmd, ListWidget, InputWidget}
use chattui.Ws.Message.{Json, InboxUpdatedPayload}
use chattui.Client.Rooms
use chattui.Client.Dm
use chattui.Client.Auth
use chattui.Client.Auth.{mode_login, mode_register, Mode}
use chattui.Client.Chat.{Codec}
use chattui.Client.Chat.Screen as Chat
use chattui.Client.DmChat
use chattui.Client.DmChat.Screen as DmScreen
use chattui.Client.Inbox.{mark_target}
use chattui.Client.Inbox.Screen as Inbox
use chattui.Dto.{Room, Conversation, InboxFeed, InboxRoom, InboxUser}

-- A command that does not itself send a success.
abbrev pub tame : Cmd → Bool
tame (Tea.emit (Tea.success token id name)) = false
tame c = true

-- A command of the login screen.
abbrev pub auth_only : Cmd → Bool
auth_only (Tea.emit (Tea.auth_error e)) = true
auth_only Tea.quit = true
auth_only Tea.widget = true
auth_only (Tea.login_with u p) = true
auth_only (Tea.register_with u p) = true
auth_only c = false

abbrev pub all : (Cmd → Bool) → List Cmd → Bool
all p [] = true
all p (c ∷ cs) = p c && all p cs

-- The commands of a login are tame.
pub tame-auth_only : (c : Cmd) → auth_only c ≡ true → tame c ≡ true
tame-auth_only (Tea.emit (Tea.success token id name)) h = h
tame-auth_only c h = refl

pub all-imp :
    (p q : Cmd → Bool)
    → ((c : Cmd) → p c ≡ true → q c ≡ true)
    → (cs : List Cmd) → all p cs ≡ true
    → all q cs ≡ true
all-imp p q f [] h = refl
all-imp p q f (c ∷ cs) h = ground (arith, f c, all-imp p q f cs)

-- The commands of both branches of a test.
if_all {ℓ} :
    {A : Type ℓ} (p : Cmd → Bool) (b : Bool) (x y : A × List Cmd)
    → all p x.1 ≡ true
    → all p y.1 ≡ true
    → all p (if b then x else y).1 ≡ true
if_all p true x y h k = h
if_all p false x y h k = k

pub if_cmds :
    (p : Cmd → Bool) (b : Bool) (x y : List Cmd)
    → all p x ≡ true
    → all p y ≡ true
    → all p (if b then x else y) ≡ true
if_cmds p true x y h k = h
if_cmds p false x y h k = k

ruleset branches = (if_all, if_cmds, refl)

module _ {L T : Type 0} (W : ListWidget L Room) (I : InputWidget T) (trim : String → String) where
  tame-rooms_select :
      (r : Option Room) (k : String) (m : Rooms.Model L T)
      → all tame (Rooms.select W I trim r k m).1 ≡ true
  tame-rooms_select none k m = refl
  tame-rooms_select (some r) k m = refl

  pub tame-rooms :
      (msg : Msg) (m : Rooms.Model L T) → all tame (Rooms.update W I trim msg m).1 ≡ true
  unfolding Rooms.update
  tame-rooms (Tea.key k) m =
      search (branches, tame-rooms_select (W.selected m.list) k m) depth 20 fits 2000
  tame-rooms msg m = search branches depth 20 fits 2000

module _ {L T : Type 0} (W : ListWidget L Conversation) (I : InputWidget T)
    (trim : String → String) where
  tame-dm_select :
      (c : Option Conversation) (k : String) (m : Dm.Model L T)
      → all tame (Dm.select W I trim c k m).1 ≡ true
  tame-dm_select none k m = refl
  tame-dm_select (some c) k m = refl

  pub tame-dm : (msg : Msg) (m : Dm.Model L T) → all tame (Dm.update W I trim msg m).1 ≡ true
  unfolding Dm.update
  tame-dm (Tea.key k) m =
      search (branches, tame-dm_select (W.selected m.list) k m) depth 20 fits 2000
  tame-dm msg m = search branches depth 20 fits 2000

module _ {T : Type 0} (I : InputWidget T) (trim : String → String) where
  auth_only-request : (mode : Mode) (u p : String) → auth_only (Auth.request I trim mode u p) ≡ true
  auth_only-request mode_login u p = refl
  auth_only-request mode_register u p = refl

  auth_only-submit :
      (m : Auth.Model T) → all auth_only (Auth.submit I trim m ∷ Tea.widget ∷ []) ≡ true
  unfolding Auth.submit
  auth_only-submit m =
      ground (
        arith,
        auth_only-request m.mode (trim (I.value m.username_input)) (I.value m.password_input),
      )

  pub auth_only-auth :
      (msg : Msg) (m : Auth.Model T) → all auth_only (Auth.update I trim msg m).1 ≡ true
  unfolding Auth.update Auth.update_key Auth.update_inputs
  auth_only-auth (Tea.key k) m =
      search (branches, auth_only-submit (record m { err = "" })) depth 20 fits 2000
  auth_only-auth msg m = search branches depth 20 fits 2000

module _ {T : Type 0} (I : InputWidget T) (J : Codec) (trim : String → String) where
  pub tame-chat : (msg : Msg) (m : Chat.Model T) → all tame (Chat.update I J trim msg m).1 ≡ true
  unfolding Chat.update
  tame-chat (Tea.key k) m = search branches depth 20 fits 2000
  tame-chat msg m = search branches depth 20 fits 2000

  if_room :
      (r : Room) (b : Bool) (x y : Chat.Model T × List Cmd)
      → x.0.room ≡ r
      → y.0.room ≡ r
      → (if b then x else y).0.room ≡ r
  if_room r true x y h k = h
  if_room r false x y h k = k

  -- The room screen stays with its room.
  pub room-chat : (msg : Msg) (m : Chat.Model T) → (Chat.update I J trim msg m).0.room ≡ m.room
  unfolding Chat.update
  room-chat (Tea.key k) m = search if_room depth 20 fits 2000
  room-chat msg m = search depth 20 fits 2000

module _ {T : Type 0} (I : InputWidget T) (J : DmChat.Codec) (trim : String → String) where
  pub tame-dm_chat :
      (msg : Msg) (m : DmScreen.Model T) → all tame (DmScreen.update I J trim msg m).1 ≡ true
  unfolding DmScreen.update
  tame-dm_chat (Tea.key k) m = search branches depth 20 fits 2000
  tame-dm_chat msg m = search branches depth 20 fits 2000

pub all-append :
    (p : Cmd → Bool) (a b : List Cmd) → all p a ≡ true → all p b ≡ true → all p (a ++ b) ≡ true
all-append p [] b h k = k
all-append p (c ∷ a) b h k = ground (arith, all-append p a b)

tame-open_refs :
    (r : Option InboxRoom) (c : Option ℤ) (u : Option InboxUser)
    → all tame (Inbox.open_refs r c u) ≡ true
tame-open_refs (some r) c u = refl
tame-open_refs none (some c) (some u) = refl
tame-open_refs none (some c) none = refl
tame-open_refs none none u = refl

tame-mark : (e : InboxFeed) → all tame (Inbox.mark_as_read_cmd e) ≡ true
unfolding Inbox.mark_as_read_cmd
tame-mark e = of e.ref_conversation_id e.room
  where
    of :
        (c : Option ℤ) (r : Option InboxRoom)
        → all tame (elim (mark_target c r) [ none ↦ [] | some (x, y) ↦ Tea.mark_entry x y e ∷ [] ])
          ≡ true
    of (some c) r = refl
    of none (some r) = refl
    of none none = refl

module _ {L : Type 0} (W : ListWidget L InboxFeed) (unmarshal : Json → Option InboxUpdatedPayload)
    (now : ℤ) where
  tame-on_mark :
      (e : Option InboxFeed) (k : String) (m : Inbox.Model L)
      → all tame (Inbox.on_mark W unmarshal now e k m).1 ≡ true
  tame-on_mark none k m = refl
  tame-on_mark (some e) k m = search (branches, tame-mark e)

  tame-on_enter :
      (e : Option InboxFeed) (k : String) (m : Inbox.Model L)
      → all tame (Inbox.on_enter W unmarshal now e k m).1 ≡ true
  unfolding Inbox.open_entry
  tame-on_enter none k m = refl
  tame-on_enter (some e) k m =
      all-append tame (Inbox.open_entry e) (Inbox.mark_if_unread W unmarshal now e)
        (tame-open_refs e.room e.ref_conversation_id e.source_user)
        (if_cmds tame (ltb 0 e.unread_count) (Inbox.mark_as_read_cmd e) [] (tame-mark e) refl)

  tame-on_payload :
      (p : Option InboxUpdatedPayload) (m : Inbox.Model L)
      → all tame (Inbox.on_payload W unmarshal now p m).1 ≡ true
  unfolding Inbox.on_payload
  tame-on_payload none m = refl
  tame-on_payload (some p) m = refl

  pub tame-inbox :
      (msg : Msg) (m : Inbox.Model L) → all tame (Inbox.update W unmarshal now msg m).1 ≡ true
  unfolding Inbox.update
  tame-inbox (Tea.key k) m =
      search (branches, tame-on_mark (W.selected m.list) k m, tame-on_enter (W.selected m.list) k m)
        depth 20 fits 2000
  tame-inbox (Tea.incoming msg) m =
      search (branches, tame-on_payload (unmarshal msg.payload) m) depth 20 fits 2000
  tame-inbox msg m = search branches depth 20 fits 2000
