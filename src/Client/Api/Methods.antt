-- ===== src/Client/Api/Methods.antt =====
-- The methods of Client in cmd/client/internal/api/{auth,rooms,users,conversations,inbox}.go. A
-- result beside an error is never read, and is left out.
use chattui.Common.{ℕ, ℤ, pos, String, Bool, Option, List, []}
use chattui.Dto
use chattui.Auth.{Input}
use chattui.Client.Api.{Try, Request, Exchange, Library, Client, do_, do_nothing}
use chattui.Client.Api.Calls
use chattui.Client.Api.Calls.{outgoing}

module _ {J : Type 0} (L : Library J) where
  abbrev zero_user : Dto.User
  zero_user = record { id = pos 0; username = ""; created_at = L.no_time }

  abbrev zero_auth : Dto.Auth
  zero_auth = record { user = zero_user; token = ""; expires_at = pos 0 }

  abbrev zero_room : Dto.Room
  zero_room = record { id = pos 0; name = ""; slug = ""; created_at = L.no_time }

  module _ {W : Type 0} (send : Request J → W → Exchange J × W) (c : Client) where
    unfoldable pub login : Input → W → Try Dto.Auth × W
    unfolding do_
    login req = do_ L send L.unmarshal_auth zero_auth c (outgoing L (Calls.login req))

    unfoldable pub register : Input → W → Try Dto.Auth × W
    unfolding do_
    register req = do_ L send L.unmarshal_auth zero_auth c (outgoing L (Calls.register req))

    unfoldable pub list_rooms : W → Try (List Dto.Room) × W
    unfolding do_
    list_rooms = do_ L send L.unmarshal_rooms [] c (outgoing L Calls.list_rooms)

    unfoldable pub create_room : String → W → Try Dto.Room × W
    unfolding do_
    create_room name = do_ L send L.unmarshal_room zero_room c (outgoing L (Calls.create_room name))

    unfoldable pub join_room : ℤ → W → Try (Unit {0}) × W
    unfolding do_nothing
    join_room room = do_nothing L send c (outgoing L (Calls.join_room room))

    unfoldable pub leave_room : ℤ → W → Try (Unit {0}) × W
    unfolding do_nothing
    leave_room room = do_nothing L send c (outgoing L (Calls.leave_room room))

    unfoldable pub get_messages : ℤ → ℕ → W → Try (List Dto.Message) × W
    unfolding do_
    get_messages room limit =
        do_ L send L.unmarshal_messages [] c (outgoing L (Calls.get_messages room limit))

    unfoldable pub get_user_by_username : String → W → Try Dto.User × W
    unfolding do_
    get_user_by_username name =
        do_ L send L.unmarshal_user zero_user c (outgoing L (Calls.get_user_by_username name))

    unfoldable pub list_conversations : W → Try (List Dto.Conversation) × W
    unfolding do_
    list_conversations =
        do_ L send L.unmarshal_conversations [] c (outgoing L Calls.list_conversations)

    unfoldable pub get_conversation_messages : ℤ → ℕ → W → Try (List Dto.Message) × W
    unfolding do_
    get_conversation_messages conv limit =
        do_ L send L.unmarshal_messages [] c
          (outgoing L (Calls.get_conversation_messages conv limit))

    unfoldable pub get_inbox : ℕ → W → Try (List Dto.InboxFeed) × W
    unfolding do_
    get_inbox limit = do_ L send L.unmarshal_feed [] c (outgoing L (Calls.get_inbox limit))

    unfoldable pub mark_as_read : Option ℤ → Option ℤ → Bool → W → Try (Unit {0}) × W
    unfolding do_nothing
    mark_as_read conv room all = do_nothing L send c (outgoing L (Calls.mark_as_read conv room all))
