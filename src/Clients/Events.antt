-- ===== src/Clients/Events.antt =====
-- The methods of `StorageApiClient` on events in clients/src/lib.rs, over the decoded answers, and
-- what they do to the table on the server's own queries.
use dlc_stack.Base.{
  ℕ, String, ◌≡◌, refl, ap, ◌∙◌, arith, true, Option, none, some, List, ok, map_err, first,
  exists_in, find, first-keep, eq_refl,
}
use dlc_stack.Storage.Models.{NewEvent, Event, UpdateEvent, DeleteEvent, EventRequestParams}
use dlc_stack.Storage.Sql.{Table, load, update, set_where}
use dlc_stack.Storage.Sql.Reads.{count_of_exists, find_ext, find-set_where, apply_to}
use dlc_stack.Storage.Events
use dlc_stack.Clients.Api.{ApiError, Stateful, ◌>>=◌, lift, failing_as, effected, undecodable}

pub record EventsApi (S : Type 0) : Type 0 where
  pub get_events : EventRequestParams → Stateful S ApiError (List Event)
  pub post_event : NewEvent → Stateful S ApiError Event
  pub put_event : UpdateEvent → Stateful S ApiError ℕ
  pub delete_event : DeleteEvent → Stateful S ApiError ℕ

module _ {S : Type 0} (api : EventsApi S) where
  unfoldable pub get_event : String → String → Stateful S ApiError (Option Event)
  get_event key event_id = do
    events ← api.get_events (record { key = key; event_id = some event_id })
    lift (ok (first events))

  unfoldable pub create_event : NewEvent → Stateful S ApiError Event
  create_event event = api.post_event event

  unfoldable pub update_event : UpdateEvent → Stateful S ApiError (Unit {0})
  update_event event = do n ← api.put_event event; lift (effected "No event updated" n)

  unfoldable pub delete_event : DeleteEvent → Stateful S ApiError (Unit {0})
  delete_event event = do n ← api.delete_event event; lift (effected "No event deleted" n)

abbrev pub event_table : EventsApi Events.Events
event_table = record {
  get_events = λ p t. (map_err undecodable (Events.get_events none p t), t);
  post_event = λ e. failing_as undecodable (λ t. Events.create_event none e t);
  put_event = λ u. failing_as undecodable (λ t. Events.update_event none u t);
  delete_event = λ d. failing_as undecodable (λ t. Events.delete_event none d t);
}

query-is_event :
    (key event_id : String) (e : Event)
    → Events.query (record { key = key; event_id = some event_id }) e
      ≡ Events.is_event key event_id e
query-is_event key event_id e = ground arith

pub get_event-find :
    (key event_id : String) (t : Table Event)
    → get_event event_table key event_id t ≡ (ok (find (Events.is_event key event_id) t.rows), t)
unfolding get_event Events.get_events load
get_event-find key event_id t =
    let same =
      first-keep (Events.query (record { key = key; event_id = some event_id })) t.rows
      ∙ find_ext (Events.is_event key event_id) _ t.rows (query-is_event key event_id) in
    ap (λ o. (ok o, t)) same

-- An update of a row that is there, after which the row is found with the new content.
abbrev pub updated : UpdateEvent → Table Event → Table Event
updated u t = record t {
  rows = set_where (Events.is_event u.key u.event_id) (Events.changeset u) t.rows;
}

pub update_event-present :
    (u : UpdateEvent) (t : Table Event)
    → exists_in (Events.is_event u.key u.event_id) t.rows ≡ true
    → update_event event_table u t ≡ (ok tt, updated u t)
unfolding update_event Events.update_event update
update_event-present u t present =
    let (n, counted) = count_of_exists (Events.is_event u.key u.event_id) t.rows present in
    rw counted refl

pub find-updated :
    (u : UpdateEvent) (t : Table Event) (e : Event)
    → find (Events.is_event u.key u.event_id) t.rows ≡ some e
    → find (Events.is_event u.key u.event_id) (updated u t).rows ≡ some (Events.changeset u e)
find-updated u t e found =
    find-set_where (Events.is_event u.key u.event_id) (Events.changeset u) t.rows
      (λ e _. rw (eq_refl u.event_id, eq_refl u.key) refl)
    ∙ ap (apply_to (Events.is_event u.key u.event_id) (Events.changeset u)) found
