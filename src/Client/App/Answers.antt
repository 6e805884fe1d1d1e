-- ===== src/Client/App/Answers.antt =====
-- The messages that the commands of cmd/client/internal/ui send.
use chattui.Common.{String, true, Option, none, some, List, ◌≡◌, refl, arith}
use chattui.Dto
use chattui.Client.Tea
use chattui.Client.Tea.{Msg, Cmd}
use chattui.Client.Inbox.{compute_badges}
use chattui.Client.App.{Kit}
use chattui.Client.App.Machine.{
  Reply, reply, failed, Api, or_else, authenticated, joined, dialled, answer, is_external, Issues,
}
use chattui.Client.App.Commands.{tame, auth_only}
use chattui.Client.App.Invariant.{at_login, Carries}

module _ {R D E T : Type 0} (P : String → Type 0) (K : Kit R D E T) where
  abbrev pub Carried : Option Msg → Type 0
  Carried none = Unit {0}
  Carried (some msg) = Carries P K msg

  login-Carries :
      (r : Reply Dto.Auth)
      → ((res : Dto.Auth) → r ≡ reply res → P res.token)
      → Carries P K (or_else authenticated Tea.auth_error r)
  login-Carries (reply res) h = h res refl
  login-Carries (failed e) h = tt

  or_else-Carries :
      {A : Type 0} (f : A → Msg) (g : String → Msg) (r : Reply A)
      → ((a : A) → Carries P K (f a))
      → ((e : String) → Carries P K (g e))
      → Carries P K (or_else f g r)
  or_else-Carries f g (reply a) h k = h a
  or_else-Carries f g (failed e) h k = k e

  dialled-Carries : (r : Option String) → Carries P K (dialled r)
  dialled-Carries none = tt
  dialled-Carries (some e) = tt

  joined-Carries : (room : Dto.Room) (r : Option String) → Carries P K (joined room r)
  joined-Carries room none = tt
  joined-Carries room (some e) = tt

  badges-Carries :
      (r : Reply (List Dto.InboxFeed))
      → Carried (or_else (λ es. some (Tea.badges (compute_badges es))) (λ e. none) r)
  badges-Carries (reply es) = tt
  badges-Carries (failed e) = tt

  -- A success comes from a login or a registration.
  pub answer-Carries : (A : Api) (c : Cmd) → Issues K P A → tame c ≡ true → Carried (answer A c)
  unfolding answer
  answer-Carries A (Tea.emit (Tea.success token id name)) i h = absurd (ground (arith, h))
  answer-Carries A (Tea.login_with u p) i h = login-Carries (A.login u p) (i.0 u p)
  answer-Carries A (Tea.register_with u p) i h = login-Carries (A.register u p) (i.1 u p)
  answer-Carries A Tea.connect_ws i h = dialled-Carries A.connect
  answer-Carries A Tea.fetch_badges i h = badges-Carries A.get_inbox
  answer-Carries A Tea.fetch_rooms i h =
      or_else-Carries Tea.rooms_loaded Tea.room_error A.list_rooms (λ a. tt) (λ e. tt)
  answer-Carries A Tea.fetch_convs i h =
      or_else-Carries Tea.convs_loaded Tea.dm_error A.list_conversations (λ a. tt) (λ e. tt)
  answer-Carries A Tea.fetch_entries i h =
      or_else-Carries Tea.entries_loaded Tea.inbox_error A.get_inbox (λ a. tt) (λ e. tt)
  answer-Carries A (Tea.create_room name) i h =
      or_else-Carries Tea.room_created Tea.room_error (A.create_room name) (λ a. tt) (λ e. tt)
  answer-Carries A (Tea.join_and_select room) i h = joined-Carries room (A.join_room room.id)
  answer-Carries A (Tea.lookup_user name) i h =
      or_else-Carries Tea.peer_found Tea.dm_error (A.get_user_by_username name) (λ a. tt) (λ e. tt)
  answer-Carries A (Tea.load_history room) i h =
      or_else-Carries Tea.chat_history Tea.ws_error (A.get_messages room) (λ a. tt) (λ e. tt)
  answer-Carries A (Tea.load_dm_history conv) i h =
      or_else-Carries Tea.dm_history Tea.ws_error (A.get_conversation_messages conv) (λ a. tt)
        (λ e. tt)
  answer-Carries A c i h = tt

  abbrev pub Allows : Option Msg → Type 0
  Allows none = Unit {0}
  Allows (some msg) = at_login msg ≡ true

  or_else-login : (r : Reply Dto.Auth) → at_login (or_else authenticated Tea.auth_error r) ≡ true
  or_else-login (reply a) = refl
  or_else-login (failed e) = refl

  pub answer-Allows : (A : Api) (c : Cmd) → auth_only c ≡ true → Allows (answer A c)
  unfolding answer
  answer-Allows A (Tea.emit (Tea.auth_error e)) h = refl
  answer-Allows A (Tea.login_with u p) h = or_else-login (A.login u p)
  answer-Allows A (Tea.register_with u p) h = or_else-login (A.register u p)
  answer-Allows A Tea.quit h = tt
  answer-Allows A Tea.widget h = tt
  answer-Allows A c h = absurd (ground (arith, h))

  pub external-Carries : (msg : Msg) → is_external msg ≡ true → Carries P K msg
  external-Carries (Tea.success token id name) h = absurd (ground (arith, h))
  external-Carries msg h = tt

  pub external-login : (msg : Msg) → is_external msg ≡ true → at_login msg ≡ true
  external-login (Tea.key k) h = refl
  external-login (Tea.paste s) h = refl
  external-login (Tea.window_size w d) h = refl
  external-login Tea.tick h = refl
  external-login (Tea.incoming msg) h = refl
  external-login (Tea.ws_error e) h = refl
  external-login Tea.reconnecting h = refl
  external-login Tea.connected h = refl
  external-login msg h = absurd (ground (arith, h))
