-- ===== src/Api/Routes/Tests.antt =====
-- A join with a token that the library accepts, at a store that counts its changes.
use chattui.Common.{
  ℕ, suc, pos, true, none, some, [], if◌then◌else◌, ◌==◌, string_key, ◌≡◌, refl, ◌⊎◌,
}
use chattui.Errs.{no_rows, other, ok, err}
use chattui.World.{World}
use chattui.Auth.{parse_token}
use chattui.Auth.Libraries.{Claims}
use chattui.Api.Routes.{Backend, Call, post_join, serve, serve_protected}
use chattui.Api.Routes.Answers.{HasStatus, serve-HasStatus}
use chattui.Api.Routes.Protected.{Unauthorized, serve-guarded}

abbrev ana : Claims
ana = record {
  user_id = pos 1;
  username = "ana";
  issuer = "chattui";
  issued_at = 0;
  expires_at = some 900;
}

abbrev pub backend : Backend ℕ ℕ
backend = record {
  strings = record {
    has_prefix = λ s p. s == "Bearer tok";
    trim_prefix = λ s p. if s == "Bearer tok" then "tok" else s;
    trim_space = λ s. s;
  };
  jwt = record {
    signed_string = λ m c k. ok "tok";
    parse_with_claims =
        λ token keys names now. if token == "tok" then ok (ana, true) else err (other "token");
  };
  bcrypt = record { generate_from_password = λ p. ok p; compare_hash_and_password = λ h p. h == p };
  config = record { jwt_secret = 7; issuer = "chattui"; access_ttl = 900 };
  users = record {
    get_user_by_username = λ n d. err no_rows;
    create_user = λ p d. (err (other "full"), d);
  };
  room_store = record {
    get_room_by_slug = λ s d. err no_rows;
    create_room = λ p d. (err (other "full"), d);
    list_rooms = λ d. ok [];
    join_room = λ p d. (none, suc d);
    leave_room = λ p d. (none, suc d);
    list_messages_by_room = λ p d. ok [];
    get_rooms_for_user = λ u d. ok [];
    create_message = λ p d. (err (other "full"), d);
  };
  create_room = λ n u w. (err (other "full"), w);
  conversation_lists = record {
    list_conversations_by_user = λ u l d. ok [];
    list_messages_by_conversation = λ c l d. ok [];
  };
  inbox_store = record {
    save_inbox_room_event = λ p d. (none, d);
    upsert_inbox_conversation_cursor = λ p d. (none, d);
    update_inbox_cursor_on_room_message = λ p d. ([], none, d);
    update_inbox_cursor_on_dm_message = λ p d. ([], none, d);
    list_inbox_feed = λ p d. (ok [], d);
    reset_room_unread_count = λ p d. (none, d);
    reset_dm_unread_count = λ p d. (none, d);
    reset_all_unread_count = λ u d. (none, d);
  };
}

abbrev pub world : World ℕ
world = record { db = 0; events = [] }

abbrev join_four : Call
join_four = post_join (some (pos 4))

serve-guarded_example :
    ((c : Claims) × (backend.strings.has_prefix "Bearer tok" "Bearer " ≡ true)
      × (parse_token backend.jwt backend.config
            (backend.strings.trim_space (backend.strings.trim_prefix "Bearer tok" "Bearer "))
            10
          ≡ ok c)
      × (serve backend "Bearer tok" 10 join_four world ≡ serve_protected backend c join_four world))
    ⊎ Unauthorized backend world (serve backend "Bearer tok" 10 join_four world)
serve-guarded_example = serve-guarded backend "Bearer tok" 10 join_four world refl

serve-HasStatus_example : HasStatus (serve backend "" 10 join_four world).reply
serve-HasStatus_example = serve-HasStatus backend "" 10 join_four world
