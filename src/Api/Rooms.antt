-- ===== src/Api/Rooms.antt =====
-- `Join` and `Leave` of cmd/server/internal/api/handlers/rooms.go. The claims are those that the
-- middleware put into the context, if any, and the room is the URL's parameter as it was parsed.
pub mod Presence
mod Tests
use chattui.Common.{ℕ, ℤ, Bool, true, false, Option, none, some, List, [], ◌∷◌}
use chattui.Errs.{Error}
use chattui.World.{World}
use chattui.Room.{Store, join, leave}
use chattui.Ws.Hub.{UserRoomPresent}
use chattui.Auth.Libraries.{Claims}
use chattui.Api.Errors.{HttpError, HandlerError, http_error, plain, bad_request}

-- What a handler does: the status it writes, or its error, and what it sends to the hub.
pub data Reply : Type 0 where
  no_content : List UserRoomPresent → Reply
  refused : HandlerError → Reply

abbrev pub missing_claims : HandlerError
missing_claims = http_error (record { status = 401; code = "unauthorized"; msg = "missing claims" })

abbrev pub invalid_room_id : HandlerError
invalid_room_id = bad_request "invalid_room_id" "invalid room id"

-- `UpdateUserRoomState`, behind a call that may have failed.
abbrev pub tell_hub : ℤ → ℤ → Bool → Option Error → Reply
tell_hub room user present none =
    no_content (record { user_id = user; room_id = room; present = present } ∷ [])
tell_hub room user present (some e) = refused (plain e)

module _ {D : Type 0} (S : Store D) where
  unfoldable pub handle_join : Option Claims → Option ℤ → World D → Reply × World D
  handle_join none room w = (refused missing_claims, w)
  handle_join (some c) none w = (refused invalid_room_id, w)
  handle_join (some c) (some room) w =
      let (failure, w') = join S room c.user_id w in (tell_hub room c.user_id true failure, w')

  unfoldable pub handle_leave : Option Claims → Option ℤ → World D → Reply × World D
  handle_leave none room w = (refused missing_claims, w)
  handle_leave (some c) none w = (refused invalid_room_id, w)
  handle_leave (some c) (some room) w =
      let (failure, w') = leave S room c.user_id w in (tell_hub room c.user_id false failure, w')
