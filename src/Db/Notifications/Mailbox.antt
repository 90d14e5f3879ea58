-- ===== src/Db/Notifications/Mailbox.antt =====
-- A mailbox is a first-in, first-out queue: what `insert_notification` and
-- `consume_oldest_notification` do to the messages that wait, the oldest first.
use dbos_transact_rs.Prelude.{
  ℕ, ◌≤◌, String, ◌≡◌, refl, sym, ◌∙◌, ap, Bool, true, false, Option, none, some, List, [], ◌∷◌,
  ◌++◌, map, arith, eq_refl, find, find-select, count-find-some, count, select, select-insert,
  select-update_out, delete, delete-count_zero, count-select-le, All, update, is_some, insert,
}
use dbos_transact_rs.Prelude.Sort.{sort_by, sort_by-insert_last, delete-sort_by, IsOrder}
use dbos_transact_rs.Prelude.SortLaws.{count-sort_by, find-sort_by}
use dbos_transact_rs.Exec.{ok}
use dbos_transact_rs.Db.Tables.{Db, NotificationRow}
use dbos_transact_rs.Db.View.{row_of}
use dbos_transact_rs.Db.Notifications.{
  Message, has_uuid, insert_message, notification_row, map_message_error, insert_notification,
  is_waiting, older, waiting, oldest_entry, mark_consumed, message_of, consume_entry,
  consume_oldest_notification,
}

-- The mailbox: the messages that wait, in the order of their arrival.
unfoldable pub mailbox : String → String → Db → List Message
mailbox destination topic db = map message_of (waiting destination topic db)

abbrev pub first : List Message → Option Message
first [] = none
first (m ∷ ms) = some m

abbrev pub rest : List Message → List Message
rest [] = []
rest (m ∷ ms) = ms

-- The primary key of `notifications`.
abbrev pub UniqueMessages : Db → Type 0
UniqueMessages db = (uuid : String) → count (has_uuid uuid) db.notifications ≤ 1

older-IsOrder : IsOrder older
unfolding older
older-IsOrder = record {
  asym = λ a b h. ground arith;
  trans = λ a b c h k. ground arith;
  below = λ a b c h k. ground arith;
}

map-append :
    (xs ys : List NotificationRow)
    → map message_of (xs ++ ys) ≡ map message_of xs ++ map message_of ys
map-append [] ys = refl
map-append (x ∷ xs) ys = ap (λ t. message_of x ∷ t) (map-append xs ys)

waiting-insert :
    (destination topic : String) (x : NotificationRow) (db : Db)
    → is_waiting destination topic x ≡ true
    → All (λ r. older x r ≡ false) (select (is_waiting destination topic) db.notifications)
    → waiting destination topic (record db { notifications = insert x db.notifications })
      ≡ waiting destination topic db ++ x ∷ []
unfolding waiting
waiting-insert destination topic x db w newest =
    ap (sort_by older) (select-insert (is_waiting destination topic) x db.notifications ∙ rw w refl)
    ∙ sort_by-insert_last older x (select (is_waiting destination topic) db.notifications) newest

-- A message to a workflow that exists is put at the end of its mailbox, where its id is new and it
-- is not older than the messages that wait.
pub insert_notification-mailbox :
    (now : ℕ) (uuid destination topic message serialization : String) (db : Db)
    → is_some (row_of destination db) ≡ true
    → find (has_uuid uuid) db.notifications ≡ none
    → All
        (λ r. older (notification_row now uuid destination topic message serialization) r ≡ false)
        (select (is_waiting destination topic) db.notifications)
    → ((insert_notification now uuid destination topic message serialization db).0 ≡ ok tt)
      × (mailbox destination topic
            (insert_notification now uuid destination topic message serialization db).1
          ≡ mailbox destination topic db ++ (message, some serialization) ∷ [])
unfolding insert_notification insert_message notification_row map_message_error
insert_notification-mailbox now uuid destination topic message serialization db there new newest =
    rw (new, there)
      (
        refl,
        unfold mailbox in
            (ap (map message_of) (
                waiting-insert destination topic
                  (notification_row now uuid destination topic message serialization) db
                  (unfold is_waiting in rw eq_refl (rw eq_refl refl)) newest)
              ∙ map-append (waiting destination topic db) _),
      )

-- Taking the message off leaves the rest of the mailbox.
waiting-consume :
    (destination topic uuid : String) (db : Db)
    → waiting destination topic
        (record db { notifications = update (has_uuid uuid) mark_consumed db.notifications })
      ≡ delete (has_uuid uuid) (waiting destination topic db)
unfolding waiting mark_consumed is_waiting
waiting-consume destination topic uuid db =
    ap (sort_by older) (
      select-update_out (is_waiting destination topic) (has_uuid uuid) mark_consumed
        (λ r h. ground arith) db.notifications)
    ∙ delete-sort_by older older-IsOrder (has_uuid uuid)
        (select (is_waiting destination topic) db.notifications)

module _ (destination topic : String) (db : Db) (unique : UniqueMessages db) (m : NotificationRow)
    (ms : List NotificationRow) (e : waiting destination topic db ≡ m ∷ ms) where
  waits-once : count (has_uuid m.message_uuid) (m ∷ ms) ≤ 1
  unfolding waiting
  waits-once = rw (← e) (
      omega (
        arith,
        count-sort_by older (has_uuid m.message_uuid)
            (select (is_waiting destination topic) db.notifications),
        count-select-le (has_uuid m.message_uuid) (is_waiting destination topic) db.notifications,
        unique m.message_uuid,
      ))

  found-oldest : find (has_uuid m.message_uuid) db.notifications ≡ some m
  unfolding waiting
  found-oldest =
      let u : NotificationRow → Bool = has_uuid m.message_uuid in
      let q : NotificationRow → Bool = is_waiting destination topic in
      find-select u q db.notifications (unique m.message_uuid) (kept u q)
      ∙ sym (
          find-sort_by older u (select q db.notifications)
            (omega (arith, count-select-le u q db.notifications, unique m.message_uuid)))
      ∙ ap (find u) e
      ∙ first_is_m
    where
      first_is_m : find (has_uuid m.message_uuid) (m ∷ ms) ≡ some m
      first_is_m = unfold find in rw eq_refl refl

      kept :
          (u q : NotificationRow → Bool)
          → 1
            ≤ count
                (has_uuid m.message_uuid)
                (select (is_waiting destination topic) db.notifications)
      kept u q = omega (
        arith,
        count-sort_by older (has_uuid m.message_uuid)
            (select (is_waiting destination topic) db.notifications),
        ap (count (has_uuid m.message_uuid)) e,
        count-find-some (has_uuid m.message_uuid) (m ∷ ms) m first_is_m,
      )

  rest-delete : delete (has_uuid m.message_uuid) (m ∷ ms) ≡ ms
  unfolding delete
  rest-delete = rw eq_refl (delete-count_zero (has_uuid m.message_uuid) ms once)
    where
      once : count (has_uuid m.message_uuid) ms ≡ 0
      once = unfold count in ground (arith, eq_refl m.message_uuid, waits-once)

  consume-first : consume_oldest_notification destination topic db ≡ (
    ok (some (message_of m)),
    record db { notifications = update (has_uuid m.message_uuid) mark_consumed db.notifications },
  )
  unfolding consume_oldest_notification oldest_entry consume_entry find
  consume-first = rw e (rw found-oldest refl)

-- With unique message ids, consuming takes the first message of the mailbox and leaves the rest in
-- its order; from an empty mailbox it takes nothing.
pub consume_oldest_notification-mailbox :
    (destination topic : String) (db : Db)
    → UniqueMessages db
    → ((consume_oldest_notification destination topic db).0
        ≡ ok (first (mailbox destination topic db)))
      × (mailbox destination topic (consume_oldest_notification destination topic db).1
          ≡ rest (mailbox destination topic db))
unfolding mailbox
consume_oldest_notification-mailbox destination topic db unique =
    split (waiting destination topic db) refl
  where
    split :
        (xs : List NotificationRow)
        → waiting destination topic db ≡ xs
        → ((consume_oldest_notification destination topic db).0
            ≡ ok (first (map message_of (waiting destination topic db))))
          × (map message_of
                (waiting destination topic (consume_oldest_notification destination topic db).1)
              ≡ rest (map message_of (waiting destination topic db)))
    split [] e =
        unfold consume_oldest_notification oldest_entry consume_entry find in
        rw e (rw e (refl, refl))
    split (m ∷ ms) e = rw (consume-first destination topic db unique m ms e) (
        rw (e) (
          refl,
          ap (map message_of) (
              waiting-consume destination topic m.message_uuid db
              ∙ ap (delete (has_uuid m.message_uuid)) e
              ∙ rest-delete destination topic db unique m ms e),
        ))
