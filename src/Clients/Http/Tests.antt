-- ===== src/Clients/Http/Tests.antt =====
-- A server that answers, and a client whose signatures are the messages.
use dlc_stack.Base.{ℕ, ◌≡◌, refl, true, eq_refl, none, some, [], ◌∷◌}
use dlc_stack.Api.Http.{Env}
use dlc_stack.Api.Auth.{verify_query_params}
use dlc_stack.Api.Tests.{toy}
use dlc_stack.Clients.Api.{tables}
use dlc_stack.Clients.Http.{Signer, Site, over_http}
use dlc_stack.Clients.Http.Served.{IsHonest}
use dlc_stack.Clients.Http.Refined.{contracts_at, over_http-RefinesApi}
use dlc_stack.Storage.Models.{EventRequestParams, NewEvent, UpdateEvent, DeleteEvent}
use dlc_stack.Clients.Events as Calls
use dlc_stack.Clients.Events.{event_table}
use dlc_stack.Clients.Http.Events.{get_events, events_over_http}
use dlc_stack.Clients.Http.Events.Refined.{events_at, events_over_http-Refines}
use dlc_stack.Clients.Refines.{Refines, RefinesApi, value_of}
use dlc_stack.Clients.Provider.{get_contract, update_contract}
use dlc_stack.Clients.Provider.Remote.{over_http-stored}
use dlc_stack.Clients.Tests.{dep, dep-IsLawful, offer, stored, seven}
use dlc_stack.Clients.Codec.{serialize_contract, get_prefix}

abbrev signer : Signer
signer = record { public_key = "02aa"; sign = λ m. m; body_text = λ b. "" }

abbrev env : ℕ → Env
env n = record { available = true; conn = none; random_nonce = "r" }

honest : IsHonest toy signer env
unfolding verify_query_params
honest = record { verifies = λ m. eq_refl m; available = λ n. refl; answers = λ n. refl }

abbrev site : Site
site = record {
  server = record {
    contracts = stored;
    events = record { rows = []; next_id = 1 };
    nonces = "q" ∷ [];
  };
  sent = 0;
}

over_http-RefinesApi_example : RefinesApi contracts_at "02aa" (over_http toy signer env) tables
over_http-RefinesApi_example = over_http-RefinesApi toy signer env honest

over_http-stored_example :
    let api = over_http toy signer env in
    let (r, site') = update_contract dep api "02aa" offer site in
    (value_of r ≡ some tt)
    × (value_of (get_contract dep api "02aa" (7 ∷ []) site').0 ≡ some (some offer))
unfolding serialize_contract get_prefix
over_http-stored_example =
    over_http-stored toy signer env dep offer (1 ∷ 5 ∷ 250 ∷ []) site honest dep-IsLawful refl
      (rw seven refl)

events_over_http-Refines_example :
    ((p : EventRequestParams)
      → p.key ≡ "02aa"
      → Refines events_at (get_events toy signer env p) (event_table.get_events p))
    × ((e : NewEvent)
        → Refines events_at
            (Calls.create_event (events_over_http toy signer env) e)
            (Calls.create_event event_table e))
    × ((u : UpdateEvent)
        → Refines events_at
            (Calls.update_event (events_over_http toy signer env) u)
            (Calls.update_event event_table u))
    × ((d : DeleteEvent)
        → Refines events_at
            (Calls.delete_event (events_over_http toy signer env) d)
            (Calls.delete_event event_table d))
events_over_http-Refines_example = events_over_http-Refines toy signer env honest
