-- ===== src/Queries/Feed.antt =====
-- What marking notifications as read does.
use pulse_keeper.Prelude.{
  Bool-cases, List, [], arith, count, false, inl, inr, refl, true, update_where, ℕ, ◌==◌, ◌∷◌, ◌≡◌,
}
use pulse_keeper.Async.{ret, returned, run}
use pulse_keeper.Store.{Notification, World}
use pulse_keeper.Store.Calls.{IsReliable, run-db_call}
use pulse_keeper.Queries.{
  is_of_feed, mark_all_notifications_read, mark_all_read, read_notice, unread_count,
}

none_unread :
    (user_id : ℕ) (ns : List Notification)
    → count (is_of_feed user_id true) (update_where (is_of_feed user_id true) read_notice ns) ≡ 0
none_unread user_id [] = refl
none_unread user_id (n ∷ ns) = elim (Bool-cases (is_of_feed user_id true n)) [
  | inl e ↦ rw e (ground (arith, e, none_unread user_id ns))
  | inr e ↦ rw (e, e) (none_unread user_id ns)
]

others_unread :
    (user_id other : ℕ) (ns : List Notification)
    → (other == user_id) ≡ false
    → count (is_of_feed other true) (update_where (is_of_feed user_id true) read_notice ns)
      ≡ count (is_of_feed other true) ns
others_unread user_id other [] h = refl
others_unread user_id other (n ∷ ns) h = elim (Bool-cases (is_of_feed user_id true n)) [
  | inl e ↦
      let missed : (n.user_id == other) ≡ false = ground (arith, e, h) in
      rw (e, missed, others_unread user_id other ns h) refl
  | inr e ↦ rw (e, others_unread user_id other ns h) refl
]

-- In a world whose database answers: marking all notifications of a user as read returns how many
-- were unread and leaves none of them unread, and the unread counts of others stay.
pub mark_all_read_lem :
    (user_id : ℕ) (w : World)
    → IsReliable w
    → let (r, v) = run (mark_all_notifications_read user_id) w in
      (r ≡ returned (unread_count user_id w.db))
      × (unread_count user_id v.db ≡ 0)
      × ((other : ℕ)
          → (other == user_id) ≡ false
          → unread_count other v.db ≡ unread_count other w.db)
unfolding mark_all_notifications_read mark_all_read run
mark_all_read_lem user_id w reliable =
    rw (run-db_call (mark_all_read user_id) (λ d. ret (unread_count user_id d)) w reliable) (
      refl,
      none_unread user_id w.db.notices,
      λ other h. others_unread user_id other w.db.notices h,
    )
