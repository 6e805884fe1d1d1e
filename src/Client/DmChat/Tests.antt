-- ===== src/Client/DmChat/Tests.antt =====
-- The direct message screen of user 1 with user 2, and a message of user 3.
use chattui.Common.{true, pos, none, some, List, [], ◌∷◌, string_key, int_key, ◌≡◌, refl, inl}
use chattui.Client.DmChat.{Model, Codec, Msg, history_loaded, incoming, run, add_history}
use chattui.Client.DmChat.Filter.{Private, run-Private}

-- JSON that knows one payload, of user 3.
abbrev codec : Codec
codec = record {
  unmarshal_direct = λ j. some (record {
    to_user_id = pos 1;
    content = "psst";
    sender_id = pos 3;
    sender_username = "eve";
    conversation_id = pos 6;
    message_id = pos 9;
  });
  unmarshal_error = λ j. none;
}

abbrev screen : Model
screen = record {
  conversation_id = pos 5;
  peer_id = pos 2;
  peer_username = "bob";
  my_user_id = pos 1;
  my_username = "ana";
  messages = [];
  loading = true;
  err = "";
}

abbrev arrivals : List Msg
arrivals =
    history_loaded
      (record { sender_id = pos 2; sender_username = ""; body = "hi"; created_at = pos 0 } ∷ [])
    ∷ incoming (record { kind = "direct_message"; payload = []; timestamp = pos 0 })
    ∷ []

run-Private_example : Private (pos 2) (pos 1) (run codec arrivals screen)
run-Private_example =
    run-Private codec (pos 2) (pos 1) arrivals screen ((inl refl, tt), tt)
      (record { peer_id = refl; my_user_id = refl; messages = tt })

-- The message of user 3 is not shown.
shown_of_the_two :
    (run codec arrivals screen).messages
    ≡ record { sender_id = pos 2; sender = "bob"; body = "hi"; at = pos 0 } ∷ []
unfolding run add_history
shown_of_the_two = refl
