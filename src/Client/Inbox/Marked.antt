-- ===== src/Client/Inbox/Marked.antt =====
-- What marking an entry as read does on the inbox screen of cmd/client/internal/ui/inbox/model.go.
use chattui.Common.{
  ℤ, Bool-cases, Option, none, some, List, [], ◌∷◌, ◌==◌, nat_key, int_key, lookup, refl, inl, inr,
}
use chattui.Dto.{InboxFeed, InboxRoom}
use chattui.Client.Inbox.{
  BadgesMsg, same_entry, add_badge, add_badges, compute_badges, zero_unread_count,
}
use chattui.Client.Inbox.Badges.{Single, Fresh, Fresh-add_badge_for}

Fresh-add_badges :
    (items : List InboxFeed) (e : InboxFeed) (m : BadgesMsg)
    → Single e.room e.ref_conversation_id
    → Fresh e.room e.ref_conversation_id m
    → Fresh e.room e.ref_conversation_id (add_badges (zero_unread_count items e) m)
unfolding add_badges add_badge zero_unread_count same_entry
Fresh-add_badges [] e m a h = h
Fresh-add_badges (x ∷ items) e m a h = elim (Bool-cases (same_entry x e)) [
  | inl p ↦ rw (p, same_entry) (Fresh-add_badges items e m a h)
  | inr p ↦ elim (Bool-cases (x.unread_count == 0)) [
    | inl z ↦ rw (p, same_entry, z) (Fresh-add_badges items e m a h)
    | inr z ↦
        rw (p, same_entry, z)
          (Fresh-add_badges items e _ a (
            Fresh-add_badge_for x.room e.room x.ref_conversation_id e.ref_conversation_id
              x.unread_count m a p h))
  ]
]

Fresh-empty :
    (r : Option InboxRoom) (c : Option ℤ)
    → Fresh r c (record { room_badges = []; conv_badges = [] })
unfolding lookup
Fresh-empty (some r) c = refl
Fresh-empty none (some c) = refl
Fresh-empty none none = tt

-- When an entry of a room or of a conversation, not of both, has been marked as read, no badge of
-- its room or conversation is left, whatever the other entries are.
pub marked_entry_has_no_badge :
    (items : List InboxFeed) (e : InboxFeed)
    → Single e.room e.ref_conversation_id
    → Fresh e.room e.ref_conversation_id (compute_badges (zero_unread_count items e))
unfolding compute_badges
marked_entry_has_no_badge items e a =
    Fresh-add_badges items e (record { room_badges = []; conv_badges = [] }) a
      (Fresh-empty e.room e.ref_conversation_id)
