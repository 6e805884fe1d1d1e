-- ===== src/Api/Routes/Answers.antt =====
-- The statuses with which cmd/server/internal/api answers.
use chattui.Common.{
  ℕ, ℤ, ◌≤◌, ◌<◌, String, Bool, true, false, not, Option, none, some, ◌==◌, ◌||◌, string_key, arith,
  Bool-cases, inl, inr,
}
use chattui.Errs.{
  Error, not_found, forbidden, no_params, ambiguous_params, username_taken, invalid_creds,
  user_not_found, no_rows, other, Result, ok, err,
}
use chattui.World.{World}
use chattui.Auth.Libraries.{Claims}
use chattui.Api.Errors.{HandlerError, plain, write_error}
use chattui.Api.Rooms.{tell_hub, handle_join, handle_leave}
use chattui.Room.{join, leave}
use chattui.Api.Endpoints.{
  Answer, json, refused, answer, register_error, login_error, or_not_found, read_done,
  handle_register, handle_login, handle_get_by_username, handle_create, handle_list_rooms,
  handle_get_by_slug, handle_messages, handle_list_conversations, handle_list_messages,
  handle_list_inbox, handle_mark_as_read,
}
use chattui.Api.Routes.{
  Backend, Call, post_register, post_login, post_room, get_rooms, get_room, post_join, delete_leave,
  get_room_messages, get_user, get_conversations, get_conversation_messages, get_inbox, post_read,
  is_public, serve, serve_public, serve_protected, validate_jwt, behind, verdict, presence,
}

-- A success has a status below 400, and an error one of at least 400.
abbrev pub HasStatus : Answer → Type 0
HasStatus (json s b) = s < 400
HasStatus (refused e) = 400 ≤ (write_error e).status

plain-status : (e : Error) → 400 ≤ (write_error (plain e)).status
unfolding write_error
plain-status not_found = omega arith
plain-status forbidden = omega arith
plain-status no_params = omega arith
plain-status ambiguous_params = omega arith
plain-status username_taken = omega arith
plain-status invalid_creds = omega arith
plain-status user_not_found = omega arith
plain-status no_rows = omega arith
plain-status (other s) = omega arith

answer-HasStatus {ℓ} :
    {A : Type ℓ} (f : A → Answer) (g : Error → HandlerError) (r : Result A)
    → ((a : A) → HasStatus (f a))
    → ((e : Error) → 400 ≤ (write_error (g e)).status)
    → HasStatus (answer f g r)
answer-HasStatus f g (ok a) h k = h a
answer-HasStatus f g (err e) h k = k e

ok-status : 200 < 400
ok-status = omega arith

created-status : 201 < 400
created-status = omega arith

register_error-status : (e : Error) → 400 ≤ (write_error (register_error e)).status
unfolding write_error
register_error-status username_taken = omega arith
register_error-status e = plain-status e

login_error-status : (e : Error) → 400 ≤ (write_error (login_error e)).status
unfolding write_error
login_error-status user_not_found = omega arith
login_error-status invalid_creds = omega arith
login_error-status e = plain-status e

or_not_found-status : (msg : String) (e : Error) → 400 ≤ (write_error (or_not_found msg e)).status
unfolding write_error
or_not_found-status msg not_found = omega arith
or_not_found-status msg e = plain-status e

read_done-HasStatus : (failure : Option Error) → HasStatus (read_done failure)
unfolding write_error
read_done-HasStatus none = omega arith
read_done-HasStatus (some no_params) = omega arith
read_done-HasStatus (some ambiguous_params) = omega arith
read_done-HasStatus (some e) = plain-status e

ruleset statuses = (
  answer-HasStatus, ok-status, created-status, plain-status, register_error-status,
  login_error-status, or_not_found-status,
)

module _ {K D : Type 0} (B : Backend K D) where
  presence-HasStatus :
      (room user : ℤ) (joins : Bool) (failure : Option Error) (w : World D)
      → HasStatus (presence B (tell_hub room user joins failure, w)).reply
  presence-HasStatus room user joins none w = omega arith
  presence-HasStatus room user joins (some e) w = plain-status e

  serve_public-HasStatus :
      (call : Call) (now : ℕ) (w : World D) → HasStatus (serve_public B call now w).reply
  unfolding serve_public handle_register handle_login write_error
  serve_public-HasStatus (post_register none) now w = omega arith
  serve_public-HasStatus (post_register (some in_)) now w = search statuses
  serve_public-HasStatus (post_login none) now w = omega arith
  serve_public-HasStatus (post_login (some in_)) now w = search statuses
  serve_public-HasStatus call now w = omega arith

  serve_protected-HasStatus :
      (c : Claims) (call : Call) (w : World D) → HasStatus (serve_protected B c call w).reply
  unfolding serve_protected handle_create handle_list_rooms handle_get_by_slug handle_messages
      handle_get_by_username handle_list_conversations handle_list_messages handle_list_inbox
      handle_mark_as_read handle_join handle_leave write_error
  serve_protected-HasStatus c (post_room none) w = omega arith
  serve_protected-HasStatus c (post_room (some name)) w = elim (Bool-cases (name == "")) [
    | inl t ↦ rw t (omega arith)
    | inr f ↦ rw f (search statuses)
  ]
  serve_protected-HasStatus c get_rooms w = search statuses
  serve_protected-HasStatus c (get_room slug) w = search statuses
  serve_protected-HasStatus c (post_join none) w = omega arith
  serve_protected-HasStatus c (post_join (some room)) w =
      presence-HasStatus room c.user_id true (join B.room_store room c.user_id w).0 _
  serve_protected-HasStatus c (delete_leave none) w = omega arith
  serve_protected-HasStatus c (delete_leave (some room)) w =
      presence-HasStatus room c.user_id false (leave B.room_store room c.user_id w).0 _
  serve_protected-HasStatus c (get_room_messages none limit) w = omega arith
  serve_protected-HasStatus c (get_room_messages (some room) limit) w = search statuses
  serve_protected-HasStatus c (get_user name) w = elim (Bool-cases (name == "")) [
    | inl t ↦ rw t (omega arith)
    | inr f ↦ rw f (search statuses)
  ]
  serve_protected-HasStatus c (get_conversations limit) w = search statuses
  serve_protected-HasStatus c (get_conversation_messages none limit) w = omega arith
  serve_protected-HasStatus c (get_conversation_messages (some conv) limit) w = search statuses
  serve_protected-HasStatus c (get_inbox limit) w = search statuses
  serve_protected-HasStatus c (post_read none) w = omega arith
  serve_protected-HasStatus c (post_read (some req)) w = read_done-HasStatus _
  serve_protected-HasStatus c call w = omega arith

  verdict-HasStatus :
      (r : Result Claims) (call : Call) (w : World D)
      → HasStatus (behind B (verdict r) call w).reply
  unfolding write_error
  verdict-HasStatus (ok c) call w = serve_protected-HasStatus c call w
  verdict-HasStatus (err e) call w = omega arith

  -- Whatever is called, with whatever header: a success is answered with a status below 400, and an
  -- error with one of at least 400.
  pub serve-HasStatus :
      (h : String) (now : ℕ) (call : Call) (w : World D) → HasStatus (serve B h now call w).reply
  unfolding serve validate_jwt write_error
  serve-HasStatus h now call w = elim (Bool-cases (is_public call)) [
    | inl t ↦ rw t (serve_public-HasStatus call now w)
    | inr f ↦ rw f (elim (Bool-cases (h == "" || not (B.strings.has_prefix h "Bearer "))) [
      | inl t ↦ rw t (omega arith)
      | inr g ↦ rw g (verdict-HasStatus _ call w)
    ])
  ]
