-- ===== src/Api/Events.antt =====
-- The handlers of storage/api/src/events.rs.
use dlc_stack.Base.{ℕ, zero, suc, String, Result, ok, err}
use dlc_stack.Storage.Sql.{DbError, Table}
use dlc_stack.Storage.Models.{NewEvent, Event, UpdateEvent, DeleteEvent, EventRequestParams}
use dlc_stack.Storage.Events as Queries
use dlc_stack.Api.Http.{
  Server, Outcome, Env, panicked, reply, with_conn, event_list, one_event, effected_num, db_error,
  not_found_text, status_ok, status_bad_request, status_not_found,
}

-- `.expect("couldn't get events from db")`
unfoldable pub get_events : Env → EventRequestParams → Server → Outcome
get_events env event_params s = with_conn env s λ conn.
    elim (Queries.get_events conn event_params s.events) [
      | ok events ↦ reply status_ok (event_list events) s
      | err e ↦ panicked s
    ]

abbrev pub created : Server → Result DbError Event × Table Event → Outcome
created s (ok event, t) = reply status_ok (one_event event) (record s { events = t })
created s (err e, t) = reply status_bad_request (db_error e) (record s { events = t })

unfoldable pub create_event : Env → NewEvent → Server → Outcome
create_event env event s =
    with_conn env s λ conn. created s (Queries.create_event conn event s.events)

-- The answer to an UPDATE or a DELETE: 404 if it met no row.
abbrev pub changed : Server → Result DbError ℕ × Table Event → Outcome
changed s (ok zero, t) = reply status_not_found not_found_text (record s { events = t })
changed s (ok (suc n), t) = reply status_ok (effected_num (suc n)) (record s { events = t })
changed s (err e, t) = reply status_bad_request (db_error e) (record s { events = t })

unfoldable pub update_event : Env → UpdateEvent → Server → Outcome
update_event env event s =
    with_conn env s λ conn. changed s (Queries.update_event conn event s.events)

unfoldable pub delete_event : Env → DeleteEvent → Server → Outcome
delete_event env event s =
    with_conn env s λ conn. changed s (Queries.delete_event conn event s.events)

-- `.expect("couldn't delete events from db")`
abbrev pub all_deleted : Server → Result DbError ℕ × Table Event → Outcome
all_deleted s (ok n, t) = reply status_ok (effected_num n) (record s { events = t })
all_deleted s (err e, t) = panicked (record s { events = t })

unfoldable pub delete_events : Env → String → Server → Outcome
delete_events env ckey s =
    with_conn env s λ conn. all_deleted s (Queries.delete_all_events conn ckey s.events)
