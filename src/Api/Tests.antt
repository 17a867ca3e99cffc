-- ===== src/Api/Tests.antt =====
-- The server at concrete requests, with a toy signature scheme: a text is signed by itself.
use mathlib.Core.Bool.{false≢true}
use mathlib.Core.Option.{some-injective}
use dlc_stack.Base.{
  ap, ◌∙◌, String, ◌≡◌, refl, none, some, List, [], ◌∷◌, arith, ◌==◌, keep, eq_iff, ◌≢◌, ◌⊎◌,
}
use dlc_stack.Storage.Models.{Contract}
use dlc_stack.Storage.Sql.{unique_violation}
use dlc_stack.Storage.Contracts as ContractQueries
use dlc_stack.Api.Contracts
use dlc_stack.Api.Json.{
  Json, AuthenticatedMessage, string, object, end, field, index, as_str, new_contract_of,
  update_contract_of, delete_contract_of, authenticated_message_of,
}
use dlc_stack.Api.Http.{
  Request, Response, Server, answered, state_of, visible, status_forbidden, status_ok,
  contract_list, one_contract, contracts, request_nonce, get, post, nonce, db_error,
}
use dlc_stack.Api.Router.{evict, issue_nonce, svc_call, dispatch}
use dlc_stack.Api.Router.Effects.{SameTables}
use dlc_stack.Api.Auth.{
  Crypto, AuthenticatedQueryParams, call, call_get, call_body, call_signed, call_authorized,
  verify_body, verify_query_params, query_params, parsed_body,
}
use dlc_stack.Api.Auth.Replay.{IsRefused, replay-IsRefused}
use dlc_stack.Api.Auth.Soundness.{IsSignedRequest, IsAuthentic, accepted-IsAuthentic}
use dlc_stack.Api.Auth.Reads.{RowsOf, IsAllowed, listing-is_own}
use dlc_stack.Api.Auth.Refusals.{
  bulk_delete, listing, up, unauthentic-SameTables, unverified-deletes, refused_get-has_rows,
}
use dlc_stack.Api.Consistent.{IsConsistent}
use dlc_stack.Api.Consistent.Serve.{serve, serve-IsConsistent}

abbrev pub toy : Crypto
toy = record {
  Signature = String;
  PublicKey = String;
  Digest = String;
  signature_from_str = λ s. some s;
  public_key_from_str = λ s. some s;
  sha256 = λ s. s;
  verify_ecdsa = λ d s k. s == d;
  json_to_string = λ v. elim (as_str (index v "nonce")) [ none ↦ "null" | some s ↦ s ];
}

-- What a run of the server unfolds.
server : Unit {0}
unfolding call call_authorized call_get call_body call_signed verify_body verify_query_params
    svc_call dispatch issue_nonce evict index new_contract_of update_contract_of delete_contract_of
    authenticated_message_of Contracts.get_contracts Contracts.create_contract
    Contracts.update_contract Contracts.delete_contract Contracts.delete_contracts
    ContractQueries.get_contracts ContractQueries.create_contract ContractQueries.update_contract
    ContractQueries.delete_contract ContractQueries.delete_all_contracts serve
server = tt

abbrev row : Contract
row = record { id = 1; uuid = "0xab"; state = "offered"; content = "AQ=="; key = "02aa" }

abbrev pub start : Server
start = record {
  contracts = record { rows = row ∷ []; next_id = 2 };
  events = record { rows = []; next_id = 1 };
  nonces = "n1" ∷ "n2" ∷ [];
}

abbrev text : String → String → Json
text k v = object (field k (string v) end)

abbrev pub message : String → Json
message n = object (
    field "uuid" (string "0xcd") (
      field "state" (string "offered") (
        field "content" (string "Ag==")
          (field "key" (string "02aa") (field "nonce" (string n) end)))))

abbrev signed : String → String → Json
signed n sig = object (
    field "message" (message n)
      (field "public_key" (string "02aa") (field "signature" (string sig) end)))

abbrev pub posting : String → String → Request
posting n sig = record {
  method = post;
  route = contracts;
  authorization = some (visible n);
  query = [];
  payload = some (signed n sig);
}

abbrev created : Contract
created = record { id = 2; uuid = "0xcd"; state = "offered"; content = "Ag=="; key = "02aa" }

abbrev after : Server
after = record {
  contracts = record { rows = row ∷ created ∷ []; next_id = 3 };
  events = record { rows = []; next_id = 1 };
  nonces = "n2" ∷ [];
}

abbrev answer : Response
answer = record { status = status_ok; body = one_contract created }

create_runs : call toy (up "n3") (posting "n1" "n1") start ≡ answered answer after
unfolding server
create_runs = refl

-- The second time the pair of key and uuid is refused by the table, and the sequence has moved.
create_twice :
    (call toy (up "n3") (posting "n2" "n2") after)
    ≡ answered
        (record { status = 400; body = db_error unique_violation })
        (record after {
          contracts = record { rows = row ∷ created ∷ []; next_id = 4 };
          nonces = [];
        })
unfolding server
create_twice = refl

nonce_runs :
    call toy
      (up "n3")
      (record {
        method = get;
        route = request_nonce;
        authorization = none;
        query = [];
        payload = none;
      })
      start
    ≡ answered
        (record { status = status_ok; body = nonce "n3" })
        (record start { nonces = "n1" ∷ "n2" ∷ "n3" ∷ [] })
unfolding server
nonce_runs = refl

start-IsConsistent : IsConsistent start
start-IsConsistent = record {
  contracts_unique = (tt, tt);
  events_unique = tt;
  nonces_bounded = omega arith;
}

serve-IsConsistent_example :
    IsConsistent
      (serve toy ((up "n3", posting "n1" "n1") ∷ (up "n4", posting "n9" "n1") ∷ []) start)
serve-IsConsistent_example =
    serve-IsConsistent toy ((up "n3", posting "n1" "n1") ∷ (up "n4", posting "n9" "n1") ∷ []) start
      start-IsConsistent

pub n3_ne_n1 : ◌≢◌ {A = String} "n3" "n1"
n3_ne_n1 = ground (arith, eq_iff "n3" "n1")

replay-IsRefused_example :
    IsRefused
      (call toy (up "n5") (posting "n1" "n1") (serve toy ((up "n3", posting "n2" "n2") ∷ []) after))
replay-IsRefused_example =
    replay-IsRefused toy "n1" (up "n3") (posting "n1" "n1") start answer after
      ((up "n3", posting "n2" "n2") ∷ []) (up "n5") (posting "n1" "n1") n3_ne_n1 refl create_runs
      (n3_ne_n1, tt) refl refl

pub signed_request : IsSignedRequest "n1" (posting "n1" "n1")
signed_request = record { guarded = refl; carries = refl; not_query = refl }

abbrev pub body : AuthenticatedMessage
body = record { message = message "n1"; public_key = "02aa"; signature = "n1" }

pub body_parses : parsed_body (some (signed "n1" "n1")) ≡ some body
unfolding server
body_parses = refl

pub body-IsAuthentic : IsAuthentic toy "n1" start body
unfolding server
body-IsAuthentic = record { verified = refl; live = refl; bound = refl }

not-IsRefused : ¬ IsRefused (call toy (up "n3") (posting "n1" "n1") start)
unfolding server
not-IsRefused h = absurd (omega arith)

accepted-IsAuthentic_example :
    (m : AuthenticatedMessage) × (parsed_body (some (signed "n1" "n1")) ≡ some m)
    × IsAuthentic toy "n1" start m
accepted-IsAuthentic_example =
    accepted-IsAuthentic toy (up "n3") "n1" (posting "n1" "n1") start signed_request not-IsRefused

abbrev params : String → List (String × String)
params sig = ("key", "02aa") ∷ ("signature", sig) ∷ []

abbrev listed : Response
listed = record { status = status_ok; body = contract_list (row ∷ []) }

list_runs :
    call toy (up "n3") (listing "n1" (params "n1") none) start
    ≡ answered listed (record start { nonces = "n2" ∷ [] })
unfolding server
list_runs = refl

listing-is_own_example :
    (q : AuthenticatedQueryParams) × (query_params (params "n1") ≡ some q)
    × RowsOf q.key (contract_list (row ∷ []))
    × ((◌≡◌ status_ok status_forbidden) ⊎ IsAllowed toy "n1" q start)
listing-is_own_example =
    listing-is_own toy (up "n3") "n1" (listing "n1" (params "n1") none) start listed
      (record start { nonces = "n2" ∷ [] }) refl tt refl list_runs

wrong_request : IsSignedRequest "n1" (posting "n1" "n9")
wrong_request = record { guarded = refl; carries = refl; not_query = refl }

wrong_body :
    (m : AuthenticatedMessage)
    → parsed_body (some (signed "n1" "n9")) ≡ some m
    → ¬ IsAuthentic toy "n1" start m
unfolding server
wrong_body m e a = false≢true (ap (verify_body toy) (some-injective _ _ e) ∙ a.verified)

unauthentic-SameTables_example :
    SameTables start (state_of (call toy (up "n3") (posting "n1" "n9") start))
unauthentic-SameTables_example =
    unauthentic-SameTables toy (up "n3") "n1" (posting "n1" "n9") start wrong_request (λ h. h)
      wrong_body

unverified-deletes_example :
    (r : Response) × (t : Server) × (call toy (up "n3") (bulk_delete "bogus" "02aa" []) start
      ≡ answered r t)
    × (r.status ≡ status_forbidden)
    × (keep (λ c. c.key == "02aa") t.contracts.rows ≡ [])
unverified-deletes_example = unverified-deletes toy "n3" "bogus" "02aa" [] start

refused_get-has_rows_example :
    call toy (up "n3") (listing "n1" (params "forged") none) start
    ≡ answered
        (record { status = status_forbidden; body = contract_list (row ∷ []) })
        (record start { nonces = "n2" ∷ [] })
unfolding server
refused_get-has_rows_example =
    refused_get-has_rows toy "n3" "n1" (params "forged") none start
      (record { key = "02aa"; signature = "forged" })
      (record { key = "02aa"; uuid = none; state = none }) refl refl refl
