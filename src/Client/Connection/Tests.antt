-- ===== src/Client/Connection/Tests.antt =====
-- A channel of three messages, of which the second meets a failed write.
use chattui.Common.{String, pos, false, List, [], ◌∷◌, length, ◌≡◌, refl}
use chattui.Ws.Message.{Message}
use chattui.Client.Tea.{Msg}
use chattui.Client.Connection.{
  Dial, dialed, refused, rounds, first_link, Outbox, Write, written, write_fails, write_loop,
}
use chattui.Client.Connection.Backoff.{first_link-waits, waits_from}
use chattui.Client.Connection.Writing.{Written, write_loop-Written}

abbrev message : String → Message
message k = record { kind = k; payload = []; timestamp = pos 0 }

abbrev outbox : Outbox
outbox = record {
  queue = message "a" ∷ message "b" ∷ message "c" ∷ [];
  wire = [];
  lost = [];
  told = [];
}

abbrev writes : List Write
writes = written ∷ write_fails "closed" false ∷ []

write_loop-Written_example : Written outbox (write_loop writes outbox)
write_loop-Written_example = write_loop-Written writes outbox tt

-- Two dials that fail and one that succeeds.
abbrev drops : List (List Msg × Dial)
drops = ([], refused) ∷ ([], refused) ∷ ([], dialed) ∷ []

waits_in_seconds : waits_from 0 (length drops) ≡ 1 ∷ 2 ∷ 4 ∷ []
waits_in_seconds = refl

first_link-waits_example : (rounds drops first_link).waits ≡ waits_from 0 (length drops)
first_link-waits_example = first_link-waits drops
