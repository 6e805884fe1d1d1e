-- ===== src/Client/Api/Tests.antt =====
-- A join of room 4 over the server of Api/Routes/Tests.antt, with a codec that keeps what it is given,
-- and numbers that are written as so many strokes.
use chattui.Common.{
  ℕ, zero, suc, ℤ, pos, negsuc, String, false, Option, none, some, [], ◌++◌, if◌then◌else◌, ◌==◌,
  string_key, ◌≡◌, refl, ap, arith,
}
use Prim.Native.String as Text
use chattui.Auth.{Input}
use chattui.Api.Endpoints.{Body, MarkAsReadReq}
use chattui.Api.Routes.{serve}
use chattui.Api.Routes.Tests.{backend, world}
use chattui.Api.Router.{Framework, header, respond, room_join}
use chattui.Client.Api.{
  done, failed, auth_request, create_room_request, mark_as_read_req, RequestBody, Library, Client,
  exchange,
}
use chattui.Client.Api.Calls.{join_room, outgoing}
use chattui.Client.Api.Served.{call_meant}
use chattui.Client.Api.Roundtrip.{IsCodec, shown, bearer, client_call_is_served}

-- A body, as it was before it was encoded.
data Wire : Type 0 where
  request : RequestBody → Wire
  answer : Body → Wire
  error : String → Wire
  empty : Wire

abbrev input_of : Wire → Option Input
input_of (request (auth_request x)) = some x
input_of w = none

abbrev name_of : Wire → Option String
name_of (request (create_room_request x)) = some x
name_of w = none

abbrev read_of : Wire → Option MarkAsReadReq
read_of (request (mark_as_read_req x)) = some x
read_of w = none

abbrev error_of : Wire → Option String
error_of (error e) = some e
error_of w = none

abbrev strokes : ℕ → String
strokes zero = Text.[]
strokes (suc n) = Text.◌∷◌ "1" (strokes n)

abbrev count : String → ℕ
count Text.[] = zero
count (Text.◌∷◌ c s) = suc (count s)

abbrev write_number : ℤ → String
write_number (pos n) = Text.◌∷◌ "+" (strokes n)
write_number (negsuc n) = Text.◌∷◌ "-" (strokes n)

abbrev read_number : String → Option ℤ
read_number Text.[] = none
read_number (Text.◌∷◌ c s) =
    some (if Text.◌∷◌ c Text.[] == "-" then negsuc (count s) else pos (count s))

count-strokes : (n : ℕ) → count (strokes n) ≡ n
count-strokes zero = refl
count-strokes (suc n) = ap suc (count-strokes n)

read-write_number : (n : ℤ) → read_number (write_number n) ≡ some n
read-write_number (pos n) = ap (λ m. some (pos m)) (count-strokes n)
read-write_number (negsuc n) = ap (λ m. some (negsuc m)) (count-strokes n)

abbrev library : Library Wire
library = record {
  marshal = λ b. done (request b);
  new_request = λ m u. none;
  unmarshal_error = error_of;
  is_empty = λ w. false;
  decimal = write_number;
  query_escape = λ s. s;
  no_time = pos 0;
  unmarshal_auth = λ w. failed "no";
  unmarshal_user = λ w. failed "no";
  unmarshal_room = λ w. failed "no";
  unmarshal_rooms = λ w. failed "no";
  unmarshal_messages = λ w. failed "no";
  unmarshal_conversations = λ w. failed "no";
  unmarshal_feed = λ w. failed "no";
}

abbrev framework : Framework Wire
framework = record {
  match_route =
      λ m u. some (record { route = room_join; param = write_number (pos 4); query = λ k. "" });
  not_found = empty;
  parse_id = read_number;
  decode_input = input_of;
  decode_name = name_of;
  decode_read = read_of;
  encode = answer;
  encode_error = λ e. error e.msg;
  no_content = empty;
}

library-IsCodec : IsCodec library framework
library-IsCodec = record {
  marshals = λ b. (request b, refl);
  reads_input = λ x j e. ground (arith, e);
  reads_name = λ x j e. ground (arith, e);
  reads_read = λ x j e. ground (arith, e);
  reads_error = λ e. refl;
  parses = read-write_number;
}

abbrev client : Client
client = record { base_url = "http://localhost"; token = "tok" }

client_call_is_served_example :
    exchange library
      (respond framework backend 10)
      client
      (outgoing library (join_room (pos 4)))
      (world, [])
    ≡ (let s =
          serve backend
            (header framework (bearer library framework client))
            10
            (call_meant library.decimal (join_room (pos 4)))
            world in
        (shown library framework s.reply, (s.world, [] ++ s.to_hub)))
client_call_is_served_example =
    client_call_is_served library framework library-IsCodec backend 10 world [] client
      (join_room (pos 4)) (record { accepted = refl; matched = refl })
