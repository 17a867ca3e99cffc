-- ===== src/Clients/Http.antt =====
-- The requests of `StorageApiClient` in clients/src/lib.rs: a nonce is asked for, the message or the
-- nonce is signed, and the answer is decoded. The other end is the storage API server, which each
-- request finds in the surroundings of that moment.
pub mod Served
pub mod Refined
pub mod Events
pub mod Tests
use dlc_stack.Base.{ℕ, suc, String, Option, none, some, List, [], ◌∷◌, ◌++◌, Result, ok, err}
use dlc_stack.Storage.Models.{
  NewContract, Contract, UpdateContract, DeleteContract, ContractRequestParams,
}
use dlc_stack.Api.Json.{Json, null, string, object, Fields, end, field, insert}
use dlc_stack.Api.Http.{
  Request, Response, Server, Outcome, answered, panicked, Env, get, post, put, delete, contracts,
  contract, request_nonce, visible, Body, empty, nonce, contract_list, one_contract, effected_num,
}
use dlc_stack.Api.Auth.{Crypto, call}
use dlc_stack.Clients.Api.{ApiError, Stateful, ◌>>=◌, lift, StorageApi}

-- The key of the client with its signatures as texts, and the text of an answer that is no nonce.
pub record Signer : Type 0 where
  pub public_key : String
  pub sign : String → String
  pub body_text : Body → String

-- The server, and the number of requests that it has had from this client.
pub record Site : Type 0 where
  pub server : Server
  pub sent : ℕ

abbrev pub received : Outcome → ℕ → Result ApiError Response × Site
received (answered res s) n = (ok res, record { server = s; sent = n })
received (panicked s) n =
    (err (record { message = "connection closed"; status = 400 }), record { server = s; sent = n })

-- What is expected of the body of an answer, with the status of the error otherwise.
abbrev pub decoded : {A : Type 0} → String → ℕ → Option A → Result ApiError A
decoded message status none = err (record { message = message; status = status })
decoded message status (some a) = ok a

abbrev pub as_contract_list : Body → Option (List Contract)
as_contract_list (contract_list cs) = some cs
as_contract_list empty = none
as_contract_list _ = none

abbrev pub as_contract : Body → Option Contract
as_contract (one_contract c) = some c
as_contract empty = none
as_contract _ = none

abbrev pub as_effected_num : Body → Option ℕ
as_effected_num (effected_num n) = some n
as_effected_num empty = none
as_effected_num _ = none

abbrev pub nullable : Option String → Json
nullable none = null
nullable (some s) = string s

-- `json!` of the request structs.
abbrev pub new_contract_json : NewContract → Json
new_contract_json c = object (
    field "uuid" (string c.uuid) (
      field "state" (string c.state)
        (field "content" (string c.content) (field "key" (string c.key) end))))

abbrev pub update_contract_json : UpdateContract → Json
update_contract_json c = object (
    field "uuid" (string c.uuid) (
      field "state" (nullable c.state)
        (field "content" (nullable c.content) (field "key" (string c.key) end))))

abbrev pub delete_contract_json : DeleteContract → Json
delete_contract_json c = object (field "key" (string c.key) (field "uuid" (string c.uuid) end))

-- `message["nonce"] = nonce`, on an object.
abbrev pub with_nonce : String → Json → Json
with_nonce n (object fs) = object (insert "nonce" (string n) fs)
with_nonce n v = v

-- A field that is `None` is not sent.
abbrev pub optional : String → Option String → List (String × String)
optional k none = []
optional k (some v) = (k, v) ∷ []

abbrev pub signed_params : ContractRequestParams → String → List (String × String)
signed_params p signature =
    (("key", p.key) ∷ optional "uuid" p.uuid)
    ++ (optional "state" p.state ++ ("signature", signature) ∷ [])

module _ (lib : Crypto) (signer : Signer) (env : ℕ → Env) where
  unfoldable pub send : Request → Stateful Site ApiError Response
  send req s = received (call lib (env s.sent) req s.server) (suc s.sent)

  -- The text of the answer, whatever its status.
  abbrev pub text : Body → String
  text (nonce n) = n
  text empty = signer.body_text empty
  text b = signer.body_text b

  unfoldable pub fetch_nonce : Stateful Site ApiError String
  fetch_nonce = do
    res ← send (record {
      method = get;
      route = request_nonce;
      authorization = none;
      query = [];
      payload = none;
    })
    lift (ok (text res.body))

  -- `SignedMessage`.
  abbrev pub signed_message : Json → Json
  signed_message message = object (
      field "message" message (
        field "public_key" (string signer.public_key)
          (field "signature" (string (signer.sign (lib.json_to_string message))) end)))

  unfoldable pub build_signed_message : Json → Stateful Site ApiError (String × Json)
  build_signed_message message = do
    n ← fetch_nonce
    lift (ok (n, signed_message (with_nonce n message)))

  unfoldable pub get_contracts : ContractRequestParams → Stateful Site ApiError (List Contract)
  get_contracts contract_req = do
    n ← fetch_nonce
    res ← send (record {
      method = get;
      route = contracts;
      authorization = some (visible n);
      query = signed_params contract_req (signer.sign n);
      payload = none;
    })
    lift (decoded "get contracts failed" res.status (as_contract_list res.body))

  unfoldable pub create_contract : NewContract → Stateful Site ApiError Contract
  create_contract new = do
    signed ← build_signed_message (new_contract_json new)
    res ← send (record {
      method = post;
      route = contracts;
      authorization = some (visible signed.0);
      query = [];
      payload = some signed.1;
    })
    lift (decoded "Create contract failed" res.status (as_contract res.body))

  unfoldable pub put_contract : UpdateContract → Stateful Site ApiError ℕ
  put_contract update = do
    signed ← build_signed_message (update_contract_json update)
    res ← send (record {
      method = put;
      route = contracts;
      authorization = some (visible signed.0);
      query = [];
      payload = some signed.1;
    })
    lift (decoded "Updating contract failed" res.status (as_effected_num res.body))

  unfoldable pub remove_contract : DeleteContract → Stateful Site ApiError ℕ
  remove_contract gone = do
    signed ← build_signed_message (delete_contract_json gone)
    res ← send (record {
      method = delete;
      route = contract;
      authorization = some (visible signed.0);
      query = [];
      payload = some signed.1;
    })
    lift (decoded "Deleting contract failed" res.status (as_effected_num res.body))

  abbrev pub over_http : StorageApi Site
  over_http = record {
    get_contracts = get_contracts;
    post_contract = create_contract;
    put_contract = put_contract;
    delete_contract = remove_contract;
  }
