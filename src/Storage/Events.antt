-- ===== src/Storage/Events.antt =====
-- The queries on the `events` table in storage/common/src/lib.rs.
use dlc_stack.Base.{ℕ, String, Bool, ◌&&◌, none, some, List, ◌==◌, Result}
use dlc_stack.Storage.Sql.{DbError, Conn, Table, load, insert_into, delete, update, is_row}
use dlc_stack.Storage.Models.{NewEvent, Event, UpdateEvent, DeleteEvent, EventRequestParams}

abbrev pub Events : Type 0
Events = Table Event

abbrev pub query : EventRequestParams → Event → Bool
query p e =
    let by_key : Bool = e.key == p.key in
    elim p.event_id [ none ↦ by_key | some i ↦ by_key && (e.event_id == i) ]

unfoldable pub get_events : Conn → EventRequestParams → Events → Result DbError (List Event)
unfolding load
get_events conn event t = load conn (query event) t

abbrev pub is_event : String → String → Event → Bool
is_event k i = is_row (λ e. e.key) (λ e. e.event_id) k i

abbrev pub row_of : NewEvent → ℕ → Event
row_of new id = record { id = id; event_id = new.event_id; content = new.content; key = new.key }

unfoldable pub create_event : Conn → NewEvent → Events → Result DbError Event × Events
unfolding insert_into
create_event conn event t = insert_into conn (is_event event.key event.event_id) (row_of event) t

abbrev pub changeset : UpdateEvent → Event → Event
changeset u e = record e { event_id = u.event_id; content = u.content; key = u.key }

unfoldable pub update_event : Conn → UpdateEvent → Events → Result DbError ℕ × Events
unfolding update
update_event conn event t = update conn (is_event event.key event.event_id) (changeset event) t

unfoldable pub delete_event : Conn → DeleteEvent → Events → Result DbError ℕ × Events
unfolding delete
delete_event conn event t = delete conn (is_event event.key event.event_id) t

unfoldable pub delete_all_events : Conn → String → Events → Result DbError ℕ × Events
unfolding delete
delete_all_events conn ckey t = delete conn (λ e. e.key == ckey) t
