-- ===== src/Client/Api.antt =====
-- cmd/client/internal/api: the calls of the server's HTTP API. Package json and the formatting of
-- numbers and queries are parameters, and so is http.Client with what it reaches, in states `W`.
pub mod Calls
pub mod Methods
pub mod Served
pub mod Roundtrip
mod Tests
use chattui.Common.{
  ℕ, ℤ, pos, String, Bool, Option, none, some, List, [], if◌then◌else◌, ◌==◌, leb, string_key,
}
use Prim.Native.String.{◌++◌}
use chattui.Dto
use chattui.Auth.{Input}
use chattui.Api.Endpoints.{MarkAsReadReq}

-- A value, or the text of an error.
pub data Try {ℓ} (A : Type ℓ) : Type ℓ where
  done : A → Try A
  failed : String → Try A

-- AuthRequest, CreateRoomRequest and markAsReadReq.
pub data RequestBody : Type 0 where
  auth_request : Input → RequestBody
  create_room_request : String → RequestBody
  mark_as_read_req : MarkAsReadReq → RequestBody

-- The method, the path and the body of a call.
pub record Outgoing : Type 0 where
  pub method : String
  pub path : String
  pub body : Option RequestBody

-- http.Request
pub record Request (J : Type 0) : Type 0 where
  pub method : String
  pub url : String
  pub authorization : Option String
  pub body : Option J

-- What httpClient.Do and io.ReadAll come to.
pub data Exchange (J : Type 0) : Type 0 where
  do_fails read_fails : String → Exchange J
  response : ℕ → J → Exchange J

-- Of packages json, fmt and url, over bodies in `J`. `unmarshal_error` gives the field Error of what
-- it could decode.
pub record Library (J : Type 0) : Type 0 where
  pub marshal : RequestBody → Try J
  pub new_request : String → String → Option String
  pub unmarshal_error : J → Option String
  pub is_empty : J → Bool
  pub decimal : ℤ → String
  pub query_escape : String → String
  pub no_time : ℤ
  pub unmarshal_auth : J → Try Dto.Auth
  pub unmarshal_user : J → Try Dto.User
  pub unmarshal_room : J → Try Dto.Room
  pub unmarshal_rooms : J → Try (List Dto.Room)
  pub unmarshal_messages : J → Try (List Dto.Message)
  pub unmarshal_conversations : J → Try (List Dto.Conversation)
  pub unmarshal_feed : J → Try (List Dto.InboxFeed)

-- Client
pub record Client : Type 0 where
  pub base_url : String
  pub token : String

abbrev pub set_token : String → Client → Client
set_token token c = record c { token = token }

abbrev pub wrapped {ℓ} : {A : Type ℓ} → String → Try A → Try A
wrapped s (done a) = done a
wrapped s (failed e) = failed (s ++ e)

-- The path of a number, `prefix%dsuffix`.
abbrev pub numbered : String → String → String → String
numbered before number after = before ++ (number ++ after)

module _ {J : Type 0} (L : Library J) where
  abbrev pub encoded : Option RequestBody → Try (Option J)
  encoded none = done none
  encoded (some b) = elim (L.marshal b) [
    | failed e ↦ failed ("marshal request: " ++ e)
    | done j ↦ done (some j)
  ]

  -- The first half of `do`.
  unfoldable pub new_request : Client → Outgoing → Try (Request J)
  new_request c o = elim (encoded o.body) [
    | failed e ↦ failed e
    | done body ↦ elim (L.new_request o.method (c.base_url ++ o.path)) [
      | some e ↦ failed ("create request: " ++ e)
      | none ↦ done (record {
        method = o.method;
        url = c.base_url ++ o.path;
        authorization = if c.token == "" then none else some ("Bearer " ++ c.token);
        body = body;
      })
    ]
  ]

  abbrev pub error_text : ℕ → Option String → String
  error_text status none = "request failed with status " ++ L.decimal (pos status)
  error_text status (some e) =
      if e == "" then "request failed with status " ++ L.decimal (pos status) else e

  -- The second half, up to the decoding: the body of the response.
  unfoldable pub receive : Exchange J → Try J
  receive (do_fails e) = failed ("do request: " ++ e)
  receive (read_fails e) = failed ("read response: " ++ e)
  receive (response status body) =
      if leb 400 status then failed (error_text status (L.unmarshal_error body)) else done body

  abbrev pub decoded {ℓ} : {A : Type ℓ} → (J → Try A) → A → Try J → Try A
  decoded unmarshal zero (failed e) = failed e
  decoded unmarshal zero (done j) =
      if L.is_empty j then done zero else wrapped "unmarshal response: " (unmarshal j)

  module _ {W : Type 0} (send : Request J → W → Exchange J × W) where
    abbrev pub sent : Try (Request J) → W → Try J × W
    sent (failed e) w = (failed e, w)
    sent (done r) w = let (x, w') = send r w in (receive x, w')

    -- `do` up to the decoding.
    unfoldable pub exchange : Client → Outgoing → W → Try J × W
    unfolding new_request receive
    exchange c o w = sent (new_request c o) w

    -- `do` with a result to decode into, which is `zero` before.
    unfoldable pub do_ {ℓ} : {A : Type ℓ} → (J → Try A) → A → Client → Outgoing → W → Try A × W
    unfolding exchange
    do_ unmarshal zero c o w = let (r, w') = exchange c o w in (decoded unmarshal zero r, w')

    abbrev pub ignored : Try J → Try (Unit {0})
    ignored (failed e) = failed e
    ignored (done j) = done tt

    -- `do` with a nil result.
    unfoldable pub do_nothing : Client → Outgoing → W → Try (Unit {0}) × W
    unfolding exchange
    do_nothing c o w = let (r, w') = exchange c o w in (ignored r, w')
