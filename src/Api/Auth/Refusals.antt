-- ===== src/Api/Auth/Refusals.antt =====
-- What a refused request leaves behind. The check runs the handler in any case, with the body taken
-- away, and sets the status afterwards.
use dlc_stack.Base.{
  String, ◌≡◌, refl, Bool, true, not, Option, none, some, List, [], ◌∷◌, inl, inr, arith, keep,
  count, Bool-cases, eq_iff, ◌==◌,
}
use dlc_stack.Storage.Models.{ContractRequestParams}
use dlc_stack.Storage.Contracts as ContractQueries
use dlc_stack.Api.Contracts
use dlc_stack.Api.Json.{Json, AuthenticatedMessage, index, as_str}
use dlc_stack.Api.Http.{
  Request, Response, Server, answered, Env, state_of, effected_num, visible, status_forbidden,
  contract_list, contracts, contracts_of, get, delete,
}
use dlc_stack.Api.Router.{svc_call, dispatch, contract_query, retain}
use dlc_stack.Api.Router.Effects.{SameTables, IsBulkDelete, dispatch-SameTables}
use dlc_stack.Api.Auth.{
  Crypto, call_authorized, call_get, AuthenticatedQueryParams, query_refused, body_refused, call,
  call_get, call_body, call_signed, query_params, parsed_body,
}
use dlc_stack.Api.Auth.States.{set_forbidden_state}
use dlc_stack.Api.Auth.Soundness.{IsSignedRequest, IsAuthentic, call-eq-call_body}

module _ (lib : Crypto) (env : Env) (header : String) (req : Request) (s : Server)
    (single : ¬ IsBulkDelete req.route) where
  forbidden-SameTables : SameTables s (state_of (svc_call env (record req { payload = none }) s))
  unfolding svc_call
  forbidden-SameTables =
      dispatch-SameTables env req.method req.route req.query
        (record s { nonces = retain req.authorization s.nonces }) single

  signed-SameTables :
      (m : AuthenticatedMessage) (o : Option String)
      → as_str (index m.message "nonce") ≡ o
      → ¬ IsAuthentic lib header s m
      → SameTables s (state_of (call_signed lib env header m o req s))
  unfolding call_signed
  signed-SameTables m none e h = rw set_forbidden_state forbidden-SameTables
  signed-SameTables m (some k) e h = elim (Bool-cases (body_refused lib m header k s)) [
    | inl b ↦ rw (b, state_of) (rw set_forbidden_state forbidden-SameTables)
    | inr b ↦ absurd (
        h (record {
          verified = ground arith;
          live = ground arith;
          bound = ground (arith, eq_iff header k);
        }))
  ]

  body-SameTables :
      (o : Option AuthenticatedMessage)
      → ((m : AuthenticatedMessage) → o ≡ some m → ¬ IsAuthentic lib header s m)
      → SameTables s (state_of (call_body lib env header o req s))
  unfolding call_body
  body-SameTables none h = rw set_forbidden_state forbidden-SameTables
  body-SameTables (some m) h = signed-SameTables m _ refl (h m refl)

-- A request whose body the check has to verify, and that has no authentic message in its body,
-- changes neither table, unless it deletes all the rows of the key in its path.
pub unauthentic-SameTables :
    (lib : Crypto) (env : Env) (header : String) (req : Request) (s : Server)
    → IsSignedRequest header req
    → ¬ IsBulkDelete req.route
    → ((m : AuthenticatedMessage) → parsed_body req.payload ≡ some m → ¬ IsAuthentic lib header s m)
    → SameTables s (state_of (call lib env req s))
unauthentic-SameTables lib env header req s q single h =
    rw (call-eq-call_body lib env header req s q)
      (body-SameTables lib env header req s single (parsed_body req.payload) h)

keep-keep-not : {A : Type 0} (p : A → Bool) (xs : List A) → keep p (keep (λ x. not (p x)) xs) ≡ []
keep-keep-not p [] = refl
keep-keep-not p (x ∷ xs) = ground (arith, keep-keep-not p xs)

-- DELETE /contracts/{ckey} with a nonce header and no body.
abbrev pub bulk_delete : String → String → List (String × String) → Request
bulk_delete header ckey query = record {
  method = delete;
  route = contracts_of ckey;
  authorization = some (visible header);
  query = query;
  payload = none;
}

-- The database answers.
abbrev pub up : String → Env
up n = record { available = true; conn = none; random_nonce = n }

-- DELETE /contracts/{ckey} with any readable nonce header and without a body is answered with 403,
-- and yet no contract of `ckey` is left: whatever the nonce, and whatever signatures verify.
pub unverified-deletes :
    (lib : Crypto) (n header ckey : String) (query : List (String × String)) (s : Server)
    → (r : Response) × (t : Server) × (call lib (up n) (bulk_delete header ckey query) s
        ≡ answered r t)
      × (r.status ≡ status_forbidden)
      × (keep (λ c. c.key == ckey) t.contracts.rows ≡ [])
unfolding call call_authorized call_body svc_call dispatch Contracts.delete_contracts
    ContractQueries.delete_all_contracts
unverified-deletes lib n header ckey query s = (
  record {
    status = status_forbidden;
    body = effected_num (count (λ c. c.key == ckey) s.contracts.rows);
  },
  record s {
    contracts = record s.contracts { rows = keep (λ c. not (c.key == ckey)) s.contracts.rows };
    nonces = retain (some (visible header)) s.nonces;
  },
  refl,
  refl,
  keep-keep-not (λ c. c.key == ckey) s.contracts.rows,
)

-- GET /contracts with a nonce header.
abbrev pub listing : String → List (String × String) → Option Json → Request
listing header query payload = record {
  method = get;
  route = contracts;
  authorization = some (visible header);
  query = query;
  payload = payload;
}

-- A GET of contracts that is refused, by its signature or its nonce, is answered with 403, and the
-- body of that answer has all the rows that were asked for.
pub refused_get-has_rows :
    (lib : Crypto) (n header : String) (query : List (String × String)) (payload : Option Json)
    (s : Server) (q : AuthenticatedQueryParams) (asked : ContractRequestParams)
    → query_params query ≡ some q
    → contract_query query ≡ some asked
    → query_refused lib q header s ≡ true
    → call lib (up n) (listing header query payload) s
      ≡ answered
          (record {
            status = status_forbidden;
            body = contract_list (keep (ContractQueries.query asked) s.contracts.rows);
          })
          (record s { nonces = retain (some (visible header)) s.nonces })
unfolding call call_authorized call_get svc_call dispatch Contracts.get_contracts
    ContractQueries.get_contracts
refused_get-has_rows lib n header query payload s q asked e e' refused = rw e (rw refused (rw e'))
