-- ===== src/Inbox/Unread/Requests.antt =====
-- The requests to mark as read: what MarkAsRead of cmd/server/internal/inbox/service.go does to
-- the table of cursors.
use chattui.Common.{
  ℕ, ℤ, Bool, true, false, Option, none, some, List, ◌==◌, ◌&&◌, int_key, nat_key, ◌≡◌, refl,
}
use chattui.Store.Sql.{
  Cursor, Tables, sql_eq, reset_room_unread_count, reset_dm_unread_count, reset_all_unread_count,
}
use chattui.World.{World}
use chattui.Inbox.{mark_as_read}
use chattui.Inbox.Unread.{
  Act, read, perform, Ref, room, conversation, unread, opens, counts, marks, after,
}
use chattui.Inbox.Unread.Statements.{Whole, room_of, conversation_of}
use chattui.Inbox.Unread.Openings.{Refines}
use chattui.Inbox.Unread.Updates.{zeroed-Refines, read-opens, read-counts, by_ref}

-- A request that is refused, and an event that the inbox makes itself.
pub same-Refines :
    (a : Act) (cs : List Cursor)
    → ((u : ℤ) (ref : Ref) → opens u ref a ≡ false)
    → ((u : ℤ) (ref : Ref) → counts u ref a ≡ false)
    → ((u : ℤ) (ref : Ref) → marks u ref a ≡ false)
    → Whole cs
    → Refines a cs cs
same-Refines a cs o c m h = (h, λ u ref. same u ref (unread cs u ref))
  where
    same : (u : ℤ) (ref : Ref) (n : Option ℕ) → n ≡ after a u ref n
    same u ref none = rw (o u ref) refl
    same u ref (some n) = rw (m u ref, c u ref) refl

conversation-where :
    (v x u : ℤ) (ref : Ref)
    → (sql_eq (conversation_of ref) (some v) && u == x) ≡ marks u ref (read (some v) none false x)
conversation-where v x u (room r) = refl
conversation-where v x u (conversation c) = refl

room-where :
    (r x u : ℤ) (ref : Ref)
    → (sql_eq (room_of ref) (some r) && u == x) ≡ marks u ref (read none (some r) false x)
room-where r x u (room c) = refl
room-where r x u (conversation v) = refl

refused-Refines :
    (v r : Option ℤ) (all : Bool) (x : ℤ) (cs : List Cursor)
    → ((u : ℤ) (ref : Ref) → marks u ref (read v r all x) ≡ false)
    → Whole cs
    → Refines (read v r all x) cs cs
refused-Refines v r all x cs m h =
    same-Refines (read v r all x) cs (read-opens r v all x) (read-counts r v all x) m h

pub read-Refines :
    (v r : Option ℤ) (all : Bool) (x : ℤ) (w : World Tables)
    → Whole w.db.cursors
    → Refines (read v r all x) w.db.cursors (perform (read v r all x) w).db.cursors
unfolding mark_as_read reset_dm_unread_count reset_room_unread_count reset_all_unread_count
read-Refines (some v) none false x w h =
    zeroed-Refines none (some v) false x (λ u r c. sql_eq c (some v) && u == x) w.db.cursors
      (conversation-where v x) h
read-Refines none (some r) false x w h =
    zeroed-Refines (some r) none false x (λ u c v. sql_eq c (some r) && u == x) w.db.cursors
      (room-where r x) h
read-Refines none none true x w h =
    zeroed-Refines none none true x (λ u r v. u == x) w.db.cursors (λ u ref. refl) h
read-Refines none none false x w h =
    refused-Refines none none false x w.db.cursors (λ u ref. refl) h
read-Refines none (some r) true x w h =
    refused-Refines none (some r) true x w.db.cursors
      (λ u. by_ref (λ ref. marks u ref (read none (some r) true x)) (λ n. refl) (λ n. refl)) h
read-Refines (some v) none true x w h =
    refused-Refines (some v) none true x w.db.cursors
      (λ u. by_ref (λ ref. marks u ref (read (some v) none true x)) (λ n. refl) (λ n. refl)) h
read-Refines (some v) (some r) true x w h =
    refused-Refines (some v) (some r) true x w.db.cursors
      (λ u. by_ref (λ ref. marks u ref (read (some v) (some r) true x)) (λ n. refl) (λ n. refl)) h
read-Refines (some v) (some r) false x w h =
    refused-Refines (some v) (some r) false x w.db.cursors
      (λ u. by_ref (λ ref. marks u ref (read (some v) (some r) false x)) (λ n. refl) (λ n. refl)) h
