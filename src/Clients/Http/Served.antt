-- ===== src/Clients/Http/Served.antt =====
-- What the server does with the requests of a client whose signatures verify, while its database
-- answers.
use dlc_stack.Base.{
  Option, Result, ℕ, suc, String, ◌≡◌, refl, ap, arith, true, false, none, some, List, [], ◌∷◌,
  ◌++◌, ◌==◌, ok, exists_in, keep, not, eq_refl, inl, inr, Bool-cases,
}
use dlc_stack.Api.Json.{
  Json, Fields, end, field, object, string, insert, lookup, index, as_str, authenticated_message_of,
}
use dlc_stack.Api.Http.{Method, Route, Server, Env, visible, Body, Outcome}
use dlc_stack.Api.Router.{evict, issue_nonce, dispatch, svc_call}
use dlc_stack.Api.Auth.{Crypto, call, verify_body, verify_query_params, unprotected, is_get}
use dlc_stack.Api.Auth.Soundness.{authentic-runs}
use dlc_stack.Clients.Api.{ApiError, continue, lift}
use dlc_stack.Clients.Http.{decoded, Signer, Site, send, received, fetch_nonce, signed_message}

-- The client's signatures verify under its key, and in every request the pool has a connection that
-- answers.
pub record IsHonest (lib : Crypto) (signer : Signer) (env : ℕ → Env) : Type 0 where
  pub verifies : (m : String) → verify_query_params lib (signer.sign m) signer.public_key m ≡ true
  pub available : (n : ℕ) → (env n).available ≡ true
  pub answers : (n : ℕ) → (env n).conn ≡ none

-- What the client makes of the handler's outcome.
abbrev pub answer :
    {A : Type 0} → String → (Body → Option A) → Outcome → ℕ → Result ApiError A × Site
answer message f o n =
    continue (received o n).0 (λ res. lift (decoded message res.status (f res.body)))
      (received o n).1

lookup-insert : (k : String) (v : Json) (fs : Fields) → lookup k (insert k v fs) ≡ some v
unfolding lookup insert
lookup-insert k v end = rw (eq_refl k) refl
lookup-insert k v (field j w fs) = elim (Bool-cases (j == k)) [
  | inl b ↦ rw (b, eq_refl k) refl
  | inr b ↦ rw (b, b) (lookup-insert k v fs)
]

bound_nonce :
    (n : String) (fs : Fields)
    → as_str (index (object (insert "nonce" (string n) fs)) "nonce") ≡ some n
unfolding index
bound_nonce n fs = rw (lookup-insert "nonce" (string n) fs, as_str) refl

pub issued : (n : String) (ns : List String) → exists_in (λ m. m == n) (ns ++ n ∷ []) ≡ true
issued n [] = rw (eq_refl n) refl
issued n (m ∷ ns) = ground (arith, issued n ns)

module _ (lib : Crypto) (signer : Signer) (env : ℕ → Env) (honest : IsHonest lib signer env) where
  -- The server after it has issued the next nonce.
  abbrev pub noncing : Site → Server
  noncing s = record s.server { nonces = evict s.server.nonces ++ (env s.sent).random_nonce ∷ [] }

  pub fetch_nonce-issued :
      (s : Site)
      → fetch_nonce lib signer env s
        ≡ (ok (env s.sent).random_nonce, record { server = noncing s; sent = suc s.sent })
  unfolding fetch_nonce send call svc_call dispatch issue_nonce
  fetch_nonce-issued s = refl

  -- The server with the nonce taken off again.
  abbrev pub served : Site → Server
  served s = record (noncing s) {
    nonces = keep (λ m. not (m == (env s.sent).random_nonce)) (noncing s).nonces;
  }

  -- A signed message is passed on to the handler of its route.
  pub signed-runs :
      (s : Site) (method : Method) (route : Route) (fs : Fields)
      → unprotected route ≡ false
      → is_get method ≡ false
      → let n = (env s.sent).random_nonce in
        let message = object (insert "nonce" (string n) fs) in
        send lib signer env
          (record {
            method = method;
            route = route;
            authorization = some (visible n);
            query = [];
            payload = some (signed_message lib signer env message);
          })
          (record { server = noncing s; sent = suc s.sent })
        ≡ received
            (dispatch (env (suc s.sent)) method route [] (some message) (served s))
            (suc (suc s.sent))
  unfolding send svc_call verify_body verify_query_params index authenticated_message_of lookup
  signed-runs s method route fs guarded no_get =
      let n = (env s.sent).random_nonce in
      let message = object (insert "nonce" (string n) fs) in
      ap (λ o. received o (suc (suc s.sent)))
        (authentic-runs lib (env (suc s.sent)) n _ (noncing s)
          (record {
            message = message;
            public_key = signer.public_key;
            signature = signer.sign (lib.json_to_string message);
          })
          (record { guarded = guarded; carries = refl; not_query = rw no_get refl }) refl
          (record {
            verified = honest.verifies (lib.json_to_string message);
            live = issued n (evict s.server.nonces);
            bound = bound_nonce n fs;
          }))
