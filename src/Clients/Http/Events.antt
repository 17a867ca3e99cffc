-- ===== src/Clients/Http/Events.antt =====
-- The requests of `StorageApiClient` on events in clients/src/lib.rs.
pub mod Refined
use dlc_stack.Base.{ℕ, String, Option, none, some, List, [], ◌∷◌, ◌++◌}
use dlc_stack.Storage.Models.{NewEvent, Event, UpdateEvent, DeleteEvent, EventRequestParams}
use dlc_stack.Api.Json.{Json, string, object, end, field}
use dlc_stack.Api.Http.{
  Env, get, post, put, delete, events, event, visible, Body, empty, event_list, one_event,
}
use dlc_stack.Api.Auth.{Crypto}
use dlc_stack.Clients.Api.{ApiError, Stateful, ◌>>=◌, lift}
use dlc_stack.Clients.Events.{EventsApi}
use dlc_stack.Clients.Http.{
  Signer, Site, send, fetch_nonce, build_signed_message, decoded, as_effected_num, optional,
}

abbrev pub as_event_list : Body → Option (List Event)
as_event_list (event_list es) = some es
as_event_list empty = none
as_event_list _ = none

abbrev pub as_event : Body → Option Event
as_event (one_event e) = some e
as_event empty = none
as_event _ = none

-- `json!` of the request structs.
abbrev pub new_event_json : NewEvent → Json
new_event_json e = object (
    field "event_id" (string e.event_id)
      (field "content" (string e.content) (field "key" (string e.key) end)))

abbrev pub update_event_json : UpdateEvent → Json
update_event_json e = object (
    field "event_id" (string e.event_id)
      (field "content" (string e.content) (field "key" (string e.key) end)))

abbrev pub delete_event_json : DeleteEvent → Json
delete_event_json e = object (field "key" (string e.key) (field "event_id" (string e.event_id) end))

abbrev pub signed_event_params : EventRequestParams → String → List (String × String)
signed_event_params p signature =
    (("key", p.key) ∷ optional "event_id" p.event_id) ++ ("signature", signature) ∷ []

module _ (lib : Crypto) (signer : Signer) (env : ℕ → Env) where
  unfoldable pub get_events : EventRequestParams → Stateful Site ApiError (List Event)
  get_events event_req = do
    n ← fetch_nonce lib signer env
    res ← send lib signer env (record {
      method = get;
      route = events;
      authorization = some (visible n);
      query = signed_event_params event_req (signer.sign n);
      payload = none;
    })
    lift (decoded "get events failed" res.status (as_event_list res.body))

  unfoldable pub create_event : NewEvent → Stateful Site ApiError Event
  create_event new = do
    signed ← build_signed_message lib signer env (new_event_json new)
    res ← send lib signer env (record {
      method = post;
      route = events;
      authorization = some (visible signed.0);
      query = [];
      payload = some signed.1;
    })
    lift (decoded "Create event failed" res.status (as_event res.body))

  unfoldable pub put_event : UpdateEvent → Stateful Site ApiError ℕ
  put_event update = do
    signed ← build_signed_message lib signer env (update_event_json update)
    res ← send lib signer env (record {
      method = put;
      route = events;
      authorization = some (visible signed.0);
      query = [];
      payload = some signed.1;
    })
    lift (decoded "Updating event failed" res.status (as_effected_num res.body))

  unfoldable pub remove_event : DeleteEvent → Stateful Site ApiError ℕ
  remove_event gone = do
    signed ← build_signed_message lib signer env (delete_event_json gone)
    res ← send lib signer env (record {
      method = delete;
      route = event;
      authorization = some (visible signed.0);
      query = [];
      payload = some signed.1;
    })
    lift (decoded "Deleting event failed" res.status (as_effected_num res.body))

  abbrev pub events_over_http : EventsApi Site
  events_over_http = record {
    get_events = get_events;
    post_event = create_event;
    put_event = put_event;
    delete_event = remove_event;
  }
