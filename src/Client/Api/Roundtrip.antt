-- ===== src/Client/Api/Roundtrip.antt =====
-- A call of cmd/client/internal/api and the answer of cmd/server/internal/api to it.
use chattui.Common.{
  ℕ, ℤ, pos, String, true, false, Option, none, some, List, ◌++◌, if◌then◌else◌, leb, ◌==◌,
  string_key, nat_key, ◌≡◌, refl, ap, ◌∙◌, arith,
}
use Prim.Native.String.{◌++◌ as text_append}
use chattui.World.{World}
use chattui.Auth.{Input}
use chattui.Ws.Hub.{UserRoomPresent}
use chattui.Api.Errors.{HttpError, write_error}
use chattui.Api.Endpoints.{Answer, json, refused, MarkAsReadReq}
use chattui.Api.Routes
use chattui.Api.Routes.{
  Backend, Call, serve, post_login, post_register, post_room, post_join, delete_leave,
  get_room_messages, post_read,
}
use chattui.Api.Routes.Answers.{HasStatus, serve-HasStatus}
use chattui.Api.Router.{method_of, Arrived, Framework, call_of, read_body, write, header, respond}
use chattui.Client.Api.{
  Try, done, failed, auth_request, create_room_request, mark_as_read_req, RequestBody, Outgoing,
  Request, Exchange, Library, Client, encoded, new_request, receive, error_text, exchange,
}
use chattui.Client.Api.Calls.{
  ApiCall, login, register, list_rooms, create_room, join_room, leave_room, get_messages,
  get_user_by_username, list_conversations, get_conversation_messages, get_inbox, mark_as_read,
  outgoing,
}
use chattui.Client.Api.Served.{route_of, call_meant, number_of, query_of, path_to, outgoing-fits}

-- What package json does on both sides, and strconv with package fmt: what was written is read back.
pub record IsCodec {J : Type 0} (L : Library J) (F : Framework J) : Type 0 where
  pub marshals : (b : RequestBody) → (j : J) × (L.marshal b ≡ done j)
  pub reads_input :
      (x : Input) (j : J) → L.marshal (auth_request x) ≡ done j → F.decode_input j ≡ some x
  pub reads_name :
      (x : String) (j : J) → L.marshal (create_room_request x) ≡ done j → F.decode_name j ≡ some x
  pub reads_read :
      (x : MarkAsReadReq) (j : J)
      → L.marshal (mark_as_read_req x) ≡ done j
      → F.decode_read j ≡ some x
  pub reads_error : (e : HttpError) → L.unmarshal_error (F.encode_error e) ≡ some e.msg
  pub parses : (n : ℤ) → F.parse_id (L.decimal n) ≡ some n

module _ {J : Type 0} (L : Library J) (F : Framework J) where
  -- What chi and net/url do with the path of a route and a query, and that http.NewRequest takes it.
  pub record IsRouted (base : String) (a : ApiCall) : Type 0 where
    pub accepted : L.new_request (method_of (route_of a)) (text_append base (path_to L a)) ≡ none
    pub matched :
        F.match_route (method_of (route_of a)) (text_append base (path_to L a))
        ≡ some (record {
          route = route_of a;
          param = number_of L.decimal a;
          query = query_of L.decimal a;
        })

  -- What the client makes of an answer: the body, or the message of the error.
  abbrev pub shown : Answer → Try J
  shown (json status body) = done (if status == 204 then F.no_content else F.encode body)
  shown (refused e) = failed (error_text L (write_error e).status (some (write_error e).msg))

  abbrev pub bearer : Client → Option String
  bearer c = if c.token == "" then none else some (text_append "Bearer " c.token)

  module _ (codec : IsCodec L F) where
    encodes : (o : Option RequestBody) → (j : Option J) × (encoded L o ≡ done j)
    encodes none = (none, refl)
    encodes (some b) = let (j, e) = codec.marshals b in (some j, rw (encoded, e) refl)

    receive-write : (r : Answer) → HasStatus r → receive L (write F r) ≡ shown r
    unfolding receive write
    receive-write (json status body) h =
        let good : leb 400 status ≡ false = ground arith in rw good refl
    receive-write (refused e) h =
        let bad : leb 400 (write_error e).status ≡ true = ground arith in
        rw (bad, codec.reads_error (write_error e)) refl

    read_body-encoded :
        {A : Type 0} (b : RequestBody) (decode : J → Option A) (x : A)
        → ((j : J) → L.marshal b ≡ done j → decode j ≡ some x)
        → (j : Option J) → encoded L (some b) ≡ done j
        → read_body decode j ≡ some x
    read_body-encoded b decode x reads j e =
        let (k, m) = codec.marshals b in
        let same : j ≡ some k = cc (rw (encoded, m) at e) in rw same (reads k m)

    -- The body that a call encodes is read as what it was.
    call_of-meant :
        (a : ApiCall) (j : Option J)
        → encoded L (outgoing L a).body ≡ done j
        → call_of F (route_of a) (number_of L.decimal a) (query_of L.decimal a) j
          ≡ call_meant L.decimal a
    call_of-meant (login req) j e =
        ap post_login (read_body-encoded _ F.decode_input req (codec.reads_input req) j e)
    call_of-meant (register req) j e =
        ap post_register (read_body-encoded _ F.decode_input req (codec.reads_input req) j e)
    call_of-meant list_rooms j e = refl
    call_of-meant (create_room name) j e =
        ap post_room (read_body-encoded _ F.decode_name name (codec.reads_name name) j e)
    call_of-meant (join_room room) j e = ap post_join (codec.parses room)
    call_of-meant (leave_room room) j e = ap delete_leave (codec.parses room)
    call_of-meant (get_messages room limit) j e =
        ap (λ r. get_room_messages r (L.decimal (pos limit))) (codec.parses room)
    call_of-meant (get_user_by_username name) j e = refl
    call_of-meant list_conversations j e = refl
    call_of-meant (get_conversation_messages conv limit) j e =
        ap (λ r. Routes.get_conversation_messages r (L.decimal (pos limit))) (codec.parses conv)
    call_of-meant (get_inbox limit) j e = refl
    call_of-meant (mark_as_read conv room all) j e =
        ap post_read (read_body-encoded _ F.decode_read _ (codec.reads_read _) j e)

    -- The request that is sent.
    abbrev request_of : Client → ApiCall → Option J → Request J
    request_of c a j = record {
      method = (outgoing L a).method;
      url = text_append c.base_url (outgoing L a).path;
      authorization = bearer c;
      body = j;
    }

    new_request-done :
        (c : Client) (a : ApiCall) (j : Option J)
        → IsRouted c.base_url a
        → encoded L (outgoing L a).body ≡ done j
        → new_request L c (outgoing L a) ≡ done (request_of c a j)
    unfolding new_request
    new_request-done c a j routed e =
        let (m, p) = outgoing-fits L a in
        let good : L.new_request (outgoing L a).method (text_append c.base_url (outgoing L a).path)
            ≡ none =
          (λ i. L.new_request (m i) (text_append c.base_url (p i))) ∙ routed.accepted in
        rw (new_request, e, good) refl

    exchange-sent :
        {W : Type 0} (send : Request J → W → Exchange J × W) (c : Client) (o : Outgoing) (w : W)
        (r : Request J)
        → new_request L c o ≡ done r
        → exchange L send c o w ≡ (receive L (send r w).0, (send r w).1)
    unfolding exchange
    exchange-sent send c o w r h = rw (exchange, h) refl

    module _ {K D : Type 0} (B : Backend K D) (now : ℕ) (w : World D)
        (told : List UserRoomPresent) where
      -- The answer to a call, as the server writes it.
      abbrev written : String → Call → Exchange J × (World D × List UserRoomPresent)
      written h call =
          let s = serve B h now call w in (write F s.reply, (s.world, told ++ s.to_hub))

      respond-at :
          (r : Request J) (x : Arrived)
          → F.match_route r.method r.url ≡ some x
          → respond F B now r (w, told)
            ≡ written (header F r.authorization) (call_of F x.route x.param x.query r.body)
      unfolding respond
      respond-at r x h = rw (respond, h) refl

      respond-matched :
          (c : Client) (a : ApiCall) (j : Option J)
          → IsRouted c.base_url a
          → encoded L (outgoing L a).body ≡ done j
          → respond F B now (request_of c a j) (w, told)
            ≡ written (header F (bearer c)) (call_meant L.decimal a)
      respond-matched c a j routed e =
          let (m, p) = outgoing-fits L a in
          respond-at (request_of c a j) _
            ((λ i. F.match_route (m i) (text_append c.base_url (p i))) ∙ routed.matched)
          ∙ ap (written (header F (bearer c))) (call_of-meant a j e)

      -- Where what json, strconv and fmt write is read back, and the path of the call is taken to
      -- its route: a call of the client's API reaches the server as what it means, with the client's
      -- token; the client gets the body of a success, and of an error the message; and the database,
      -- the events and what the hub is told are those of the handler.
      pub client_call_is_served :
          (c : Client) (a : ApiCall)
          → IsRouted c.base_url a
          → exchange L (respond F B now) c (outgoing L a) (w, told) ≡ (
              let s = serve B (header F (bearer c)) now (call_meant L.decimal a) w in
              (shown s.reply, (s.world, told ++ s.to_hub)))
      client_call_is_served c a routed =
          let (j, e) = encodes (outgoing L a).body in
          let s = serve B (header F (bearer c)) now (call_meant L.decimal a) w in
          exchange-sent (respond F B now) c (outgoing L a) (w, told) _
            (new_request-done c a j routed e)
          ∙ ap (λ (x : Exchange J × (World D × List UserRoomPresent)). (receive L x.0, x.1))
              (respond-matched c a j routed e)
          ∙ ap (λ r. (r, (s.world, told ++ s.to_hub)))
              (receive-write s.reply
                (serve-HasStatus B (header F (bearer c)) now (call_meant L.decimal a) w))
