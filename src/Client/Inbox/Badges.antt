-- ===== src/Client/Inbox/Badges.antt =====
-- `computeBadges` of cmd/client/internal/ui/inbox/model.go against the sum of the unread counts.
use chattui.Common.{
  ℕ, ◌+◌, ℤ, Bool, true, false, not, Bool-cases, Option, none, some, List, [], ◌∷◌, if◌then◌else◌,
  ◌==◌, ◌&&◌, nat_key, nat_eq_iff, int_key, Map, lookup, insert, lookup-insert, has, ◌≡◌, refl, ◌∙◌,
  arith, inl, inr,
}
use chattui.Dto.{InboxFeed, InboxRoom}
use chattui.Client.Inbox.{
  BadgesMsg, same_refs, same_entry, add_badge_for, add_badge, add_badges, compute_badges, total,
  rooms_total, dms_total,
}

-- The unread messages of an entry of a room or a conversation.
abbrev pub counted : Option InboxRoom → Option ℤ → ℕ → ℕ
counted none none n = 0
counted none (some c) n = n
counted (some r) c n = n

abbrev pub unread_sum : List InboxFeed → ℕ
unread_sum [] = 0
unread_sum (e ∷ es) = counted e.room e.ref_conversation_id e.unread_count + unread_sum es

-- An entry is of a room, of a conversation, or of neither.
abbrev pub Single : Option InboxRoom → Option ℤ → Type 0
Single (some r) (some c) = ⊥
Single (some r) none = Unit {0}
Single none c = Unit {0}

abbrev pub AllSingle : List InboxFeed → Type 0
AllSingle [] = Unit {0}
AllSingle (e ∷ es) = Single e.room e.ref_conversation_id × AllSingle es

-- Both have unread messages, of the same room or conversation.
abbrev pub clash : InboxFeed → InboxFeed → Bool
clash a b = not (a.unread_count == 0) && (not (b.unread_count == 0) && same_entry a b)

abbrev pub ApartFrom : InboxFeed → List InboxFeed → Type 0
ApartFrom a [] = Unit {0}
ApartFrom a (b ∷ bs) = (clash a b ≡ false) × ApartFrom a bs

-- No two entries clash.
abbrev pub Apart : List InboxFeed → Type 0
Apart [] = Unit {0}
Apart (e ∷ es) = ApartFrom e es × Apart es

has-insert :
    (i j : ℤ) (v : ℕ) (m : Map ℤ ℕ) → has j (insert i v m) ≡ (if i == j then true else has j m)
has-insert i j v m = ground (arith, lookup-insert i j v m)

total-insert : (i : ℤ) (v : ℕ) (m : Map ℤ ℕ) → has i m ≡ false → total (insert i v m) ≡ v + total m
unfolding total insert lookup
total-insert i v [] h = refl
total-insert i v ((j, w) ∷ m) h = elim (Bool-cases (j == i)) [
  | inl p ↦ absurd (ground (arith, p))
  | inr p ↦ ground (arith, p, total-insert i v m)
]

-- The badges hold none for the room or conversation.
abbrev pub Fresh : Option InboxRoom → Option ℤ → BadgesMsg → Type 0
Fresh (some r) c m = has r.id m.room_badges ≡ false
Fresh none (some c) m = has c m.conv_badges ≡ false
Fresh none none m = Unit {0}

total_lem :
    (r : Option InboxRoom) (c : Option ℤ) (n : ℕ) (m : BadgesMsg)
    → Fresh r c m
    → rooms_total (add_badge_for r c n m) + dms_total (add_badge_for r c n m)
      ≡ counted r c n + (rooms_total m + dms_total m)
unfolding rooms_total dms_total
total_lem (some r) c n m h = omega (arith, total-insert r.id n m.room_badges h)
total_lem none (some c) n m h = omega (arith, total-insert c n m.conv_badges h)
total_lem none none n m h = omega arith

pub Fresh-add_badge_for :
    (r s : Option InboxRoom) (c d : Option ℤ) (n : ℕ) (m : BadgesMsg)
    → Single s d
    → same_refs c d r s ≡ false
    → Fresh s d m
    → Fresh s d (add_badge_for r c n m)
Fresh-add_badge_for (some r) (some s) c (some d) n m b p h = elim b [ ]
Fresh-add_badge_for (some r) (some s) (some c) none n m b p h =
    rw (has-insert r.id s.id n m.room_badges, p) h
Fresh-add_badge_for (some r) (some s) none none n m b p h =
    rw (has-insert r.id s.id n m.room_badges, p) h
Fresh-add_badge_for (some r) none c (some d) n m b p h = h
Fresh-add_badge_for (some r) none c none n m b p h = tt
Fresh-add_badge_for none (some s) (some c) d n m b p h = h
Fresh-add_badge_for none (some s) none d n m b p h = h
Fresh-add_badge_for none none (some c) (some d) n m b p h = rw (has-insert c d n m.conv_badges, p) h
Fresh-add_badge_for none none none (some d) n m b p h = h
Fresh-add_badge_for none none c none n m b p h = tt

-- The badges hold none for an entry with unread messages.
abbrev AllFresh : List InboxFeed → BadgesMsg → Type 0
AllFresh [] m = Unit {0}
AllFresh (e ∷ es) m =
    ((e.unread_count == 0) ≡ false → Fresh e.room e.ref_conversation_id m) × AllFresh es m

AllFresh-add_badge_for :
    (e : InboxFeed) (es : List InboxFeed) (m : BadgesMsg)
    → (e.unread_count == 0) ≡ false
    → AllSingle es
    → ApartFrom e es
    → AllFresh es m
    → AllFresh es (add_badge_for e.room e.ref_conversation_id e.unread_count m)
unfolding same_entry
AllFresh-add_badge_for e [] m u b p h = tt
AllFresh-add_badge_for e (x ∷ es) m u (b, bs) (p, ps) (h, hs) = (
  λ (v : (x.unread_count == 0) ≡ false).
      Fresh-add_badge_for e.room x.room e.ref_conversation_id x.ref_conversation_id e.unread_count m
        b (ground (arith, p, u, v)) (h v),
  AllFresh-add_badge_for e es m u bs ps hs,
)

counted-zero : (r : Option InboxRoom) (c : Option ℤ) → counted r c 0 ≡ 0
counted-zero none none = refl
counted-zero none (some c) = refl
counted-zero (some r) c = refl

add_badges_lem :
    (es : List InboxFeed) (m : BadgesMsg)
    → AllSingle es
    → Apart es
    → AllFresh es m
    → rooms_total (add_badges es m) + dms_total (add_badges es m)
      ≡ unread_sum es + (rooms_total m + dms_total m)
unfolding add_badges add_badge
add_badges_lem [] m a p h = omega arith
add_badges_lem (e ∷ es) m (a, as_) (p, ps) (h, hs) = elim (Bool-cases (e.unread_count == 0)) [
  | inl z ↦
      let zero_count : e.unread_count ≡ 0 = ground (arith, z, nat_eq_iff e.unread_count 0) in
      let ih = add_badges_lem es m as_ ps hs in
      rw (zero_count, counted-zero e.room e.ref_conversation_id) (omega (arith, ih))
  | inr u ↦
      let m' = add_badge_for e.room e.ref_conversation_id e.unread_count m in
      let ih = add_badges_lem es m' as_ ps (AllFresh-add_badge_for e es m u as_ p hs) in
      let step = total_lem e.room e.ref_conversation_id e.unread_count m (h u) in
      rw u (omega (arith, ih, step))
]

AllFresh-empty : (es : List InboxFeed) → AllFresh es (record { room_badges = []; conv_badges = [] })
unfolding lookup
AllFresh-empty [] = tt
AllFresh-empty (e ∷ es) =
    (λ (v : (e.unread_count == 0) ≡ false). fresh e.room e.ref_conversation_id, AllFresh-empty es)
  where
    fresh :
        (r : Option InboxRoom) (c : Option ℤ)
        → Fresh r c (record { room_badges = []; conv_badges = [] })
    fresh (some r) c = refl
    fresh none (some c) = refl
    fresh none none = tt

-- Where no entry is of a room and a conversation at once, and no two entries with unread messages
-- are of the same room or conversation, the two totals that the tabs show add up to the unread
-- messages of all entries that are of a room or a conversation.
pub badges_count_unread :
    (items : List InboxFeed)
    → AllSingle items
    → Apart items
    → rooms_total (compute_badges items) + dms_total (compute_badges items) ≡ unread_sum items
unfolding compute_badges rooms_total dms_total total
badges_count_unread items a p =
    let empty : BadgesMsg = record { room_badges = []; conv_badges = [] } in
    add_badges_lem items empty a p (AllFresh-empty items) ∙ omega arith
