-- ===== src/Clients/Http/Events/Refined.antt =====
-- The client's calls on events over HTTP against the server's own queries on its table of events.
use dlc_stack.Base.{
  ℕ, zero, suc, String, ◌≡◌, refl, sym, ap, ◌∙◌, true, Option, none, some, Result, ok, err, map_err,
}
use dlc_stack.Storage.Sql.{load, DbError, Table}
use dlc_stack.Storage.Events as Queries
use dlc_stack.Storage.Models.{NewEvent, Event, UpdateEvent, DeleteEvent, EventRequestParams}
use dlc_stack.Api.Json.{new_event_of, update_event_of, delete_event_of, insert, lookup}
use dlc_stack.Api.Http.{Request, get, post, put, delete, Env, Server, visible, events, event}
use dlc_stack.Api.Router.{dispatch, extract, event_query, svc_call, evict}
use dlc_stack.Api.Events as Handlers
use dlc_stack.Api.Auth.{Crypto, query_params, verify_query_params, call_get}
use dlc_stack.Api.Auth.Reads.{call-eq-call_get}
use dlc_stack.Clients.Api.{continue, lift, effected, undecodable}
use dlc_stack.Clients.Events as Calls
use dlc_stack.Clients.Events.{EventsApi, event_table}
use dlc_stack.Clients.Http.{Signer, Site, send, build_signed_message, with_nonce, as_effected_num}
use dlc_stack.Clients.Http.Events.{
  get_events, create_event, put_event, remove_event, as_event_list, as_event, new_event_json,
  update_event_json, delete_event_json, signed_event_params, events_over_http,
}
use dlc_stack.Clients.Http.Served.{
  answer, IsHonest, fetch_nonce-issued, served, noncing, signed-runs, issued,
}
use dlc_stack.Clients.Refines.{Refines, value_of, value_of-map_err}

-- The table of events behind a site.
abbrev pub events_at : Site → Table Event
events_at site = site.server.events

-- What the server decodes of a request with its nonce is what the client encoded.
new_decoded :
    (n : String) (new : NewEvent) → new_event_of (with_nonce n (new_event_json new)) ≡ some new
unfolding new_event_of insert lookup
new_decoded n new = refl

update_decoded :
    (n : String) (u : UpdateEvent) → update_event_of (with_nonce n (update_event_json u)) ≡ some u
unfolding update_event_of insert lookup
update_decoded n u = refl

delete_decoded :
    (n : String) (d : DeleteEvent) → delete_event_of (with_nonce n (delete_event_json d)) ≡ some d
unfolding delete_event_of insert lookup
delete_decoded n d = refl

query_params-signed :
    (signature key : String) (event_id : Option String)
    → let q = signed_event_params (record { key = key; event_id = event_id }) signature in
      (query_params q ≡ some (record { key = key; signature = signature }))
      × (event_query q ≡ some (record { key = key; event_id = event_id }))
query_params-signed signature key none = (refl, refl)
query_params-signed signature key (some i) = (refl, refl)

module _ (lib : Crypto) (signer : Signer) (env : ℕ → Env) (honest : IsHonest lib signer env) where
  abbrev at_rest : Site → Server
  at_rest s = served lib signer env honest s

  abbrev twice : Site → ℕ
  twice s = suc (suc s.sent)

  create-served :
      (new : NewEvent) (s : Site)
      → create_event lib signer env new s
        ≡ answer "Create event failed" as_event
            (Handlers.created (at_rest s) (Queries.create_event none new s.server.events))
            (twice s)
  unfolding create_event build_signed_message dispatch Handlers.create_event
  create-served new s =
      rw
        (
          fetch_nonce-issued lib signer env honest s,
          signed-runs lib signer env honest s post events _ refl refl,
          honest.available,
          honest.answers,
          new_decoded (env s.sent).random_nonce new,
        )
        refl

  put-served :
      (u : UpdateEvent) (s : Site)
      → put_event lib signer env u s
        ≡ answer "Updating event failed" as_effected_num
            (Handlers.changed (at_rest s) (Queries.update_event none u s.server.events))
            (twice s)
  unfolding put_event build_signed_message dispatch Handlers.update_event
  put-served u s =
      rw
        (
          fetch_nonce-issued lib signer env honest s,
          signed-runs lib signer env honest s put events _ refl refl,
          honest.available,
          honest.answers,
          update_decoded (env s.sent).random_nonce u,
        )
        refl

  remove-served :
      (d : DeleteEvent) (s : Site)
      → remove_event lib signer env d s
        ≡ answer "Deleting event failed" as_effected_num
            (Handlers.changed (at_rest s) (Queries.delete_event none d s.server.events))
            (twice s)
  unfolding remove_event build_signed_message dispatch Handlers.delete_event
  remove-served d s =
      rw
        (
          fetch_nonce-issued lib signer env honest s,
          signed-runs lib signer env honest s delete event _ refl refl,
          honest.available,
          honest.answers,
          delete_decoded (env s.sent).random_nonce d,
        )
        refl

  -- The row that an insertion made, or the error, on both sides.
  created-Refines :
      (s : Site) (q : Result DbError Event × Table Event) (n : ℕ)
      → (value_of (answer "Create event failed" as_event (Handlers.created (at_rest s) q) n).0
          ≡ value_of q.0)
        × (events_at (answer "Create event failed" as_event (Handlers.created (at_rest s) q) n).1
            ≡ q.1)
  created-Refines s (ok c, t) n = (refl, refl)
  created-Refines s (err e, t) n = (refl, refl)

  -- No row that was met is an error of the client, on both sides.
  changed-Refines :
      (message nothing : String) (s : Site) (q : Result DbError ℕ × Table Event) (n : ℕ)
      → let (r, s') = answer message as_effected_num (Handlers.changed (at_rest s) q) n in
        (value_of (continue r (λ k. lift (effected nothing k)) s').0
          ≡ value_of (continue (map_err undecodable q.0) (λ k. lift (effected nothing k)) q.1).0)
        × (events_at (continue r (λ k. lift (effected nothing k)) s').1
            ≡ (continue (map_err undecodable q.0) (λ k. lift (effected nothing k)) q.1).1)
  changed-Refines message nothing s (ok zero, t) n = (refl, refl)
  changed-Refines message nothing s (ok (suc k), t) n = (refl, refl)
  changed-Refines message nothing s (err e, t) n = (refl, refl)

  create-Refines :
      (new : NewEvent)
      → Refines events_at
          (Calls.create_event (events_over_http lib signer env) new)
          (Calls.create_event event_table new)
  unfolding Calls.create_event
  create-Refines new = record {
    same_value = λ s.
        rw (create-served new s) ((created-Refines s _ _).0 ∙ sym (value_of-map_err undecodable _));
    same_state = λ s. rw (create-served new s) (created-Refines s _ _).1;
  }

  update-Refines :
      (u : UpdateEvent)
      → Refines events_at
          (Calls.update_event (events_over_http lib signer env) u)
          (Calls.update_event event_table u)
  unfolding Calls.update_event
  update-Refines u = record {
    same_value = λ s.
        rw (put-served u s)
          (changed-Refines "Updating event failed" "No event updated" s
            (Queries.update_event none u s.server.events) (twice s)).0;
    same_state = λ s.
        rw (put-served u s)
          (changed-Refines "Updating event failed" "No event updated" s
            (Queries.update_event none u s.server.events) (twice s)).1;
  }

  delete-Refines :
      (d : DeleteEvent)
      → Refines events_at
          (Calls.delete_event (events_over_http lib signer env) d)
          (Calls.delete_event event_table d)
  unfolding Calls.delete_event
  delete-Refines d = record {
    same_value = λ s.
        rw (remove-served d s)
          (changed-Refines "Deleting event failed" "No event deleted" s
            (Queries.delete_event none d s.server.events) (twice s)).0;
    same_state = λ s.
        rw (remove-served d s)
          (changed-Refines "Deleting event failed" "No event deleted" s
            (Queries.delete_event none d s.server.events) (twice s)).1;
  }

  get-served :
      (p : EventRequestParams) (s : Site)
      → p.key ≡ signer.public_key
      → get_events lib signer env p s
        ≡ answer "get events failed" as_event_list
            (Handlers.get_events (env (suc s.sent)) p (at_rest s))
            (twice s)
  unfolding get_events send call_get svc_call dispatch
  get-served p s own =
      let n = (env s.sent).random_nonce in
      let req : Request = record {
        method = get;
        route = events;
        authorization = some (visible n);
        query = signed_event_params p (signer.sign n);
        payload = none;
      } in
      let q = query_params-signed (signer.sign n) p.key p.event_id in
      let verified : verify_query_params lib (signer.sign n) p.key n ≡ true =
        rw own (honest.verifies n) in
      let checked =
        call-eq-call_get lib (env (suc s.sent)) n req (noncing lib signer env honest s) refl tt
          refl in
      rw
        (
          fetch_nonce-issued lib signer env honest s,
          checked,
          q.0,
          verified,
          issued n (evict s.server.nonces),
        )
        (ap
          (λ o.
            answer "get events failed" as_event_list
              (extract o (Handlers.get_events (env (suc s.sent))) (at_rest s)) (twice s))
          q.1)

  get_events-Refines :
      (p : EventRequestParams)
      → p.key ≡ signer.public_key
      → Refines events_at (get_events lib signer env p) (event_table.get_events p)
  unfolding Handlers.get_events Queries.get_events load
  get_events-Refines p own = record {
    same_value = λ s. rw (get-served p s own, honest.available, honest.answers) refl;
    same_state = λ s. rw (get-served p s own, honest.available, honest.answers) refl;
  }

-- When the client's signatures verify under its key, and the pool has a connection that answers in
-- every request, what the client does with events over HTTP refines the server's queries on its
-- table of events, the listings those under the client's key.
pub events_over_http-Refines :
    (lib : Crypto) (signer : Signer) (env : ℕ → Env)
    → IsHonest lib signer env
    → ((p : EventRequestParams)
        → p.key ≡ signer.public_key
        → Refines events_at (get_events lib signer env p) (event_table.get_events p))
      × ((e : NewEvent)
          → Refines events_at
              (Calls.create_event (events_over_http lib signer env) e)
              (Calls.create_event event_table e))
      × ((u : UpdateEvent)
          → Refines events_at
              (Calls.update_event (events_over_http lib signer env) u)
              (Calls.update_event event_table u))
      × ((d : DeleteEvent)
          → Refines events_at
              (Calls.delete_event (events_over_http lib signer env) d)
              (Calls.delete_event event_table d))
events_over_http-Refines lib signer env honest = (
  get_events-Refines lib signer env honest,
  create-Refines lib signer env honest,
  update-Refines lib signer env honest,
  delete-Refines lib signer env honest,
)
