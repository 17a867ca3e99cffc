-- ===== src/Wallet/Server.antt =====
-- The requests to the router wallet: `process_request` of wallet/src/main.rs.
pub mod Answers
pub mod Accepted
mod Tests
use Prim.Native.String.{◌++◌ as append}
use dlc_stack.Base.{
  ℕ, ◌^◌, ltb, if◌then◌else◌, String, Option, none, some, List, [], ◌∷◌, Result, ok, err, map_err,
  ◌>>=◌ as and_then,
}
use dlc_stack.Manager.Types.{ContractId, Error, Contract, AcceptDlc}
use dlc_stack.Manager.Peers.{Peers}
use dlc_stack.Clients.Api.{Stateful, ◌>>=◌, lift, failing_as}
use dlc_stack.Api.Json.{
  Json, null, boolean, number, string, Items, nil, cons, Fields, end, field, array, object, index,
  as_str,
}
use dlc_stack.Wallet.World.{World, Net}
use dlc_stack.Wallet.Attestors.{get_chain_from_attestors}
use dlc_stack.Wallet.Notices.{periodic_check}
use dlc_stack.Wallet.Offers.{OfferRequest, create_new_offer, accept_offer}
use dlc_stack.Wallet.Offers as Offers
use dlc_stack.Wallet.Info.{info_json, nine_empty, collect}

pub data Method : Type 0 where
  get options post put other_method : Method

-- A path, with the text behind `/get_chain/`.
pub data Target : Type 0 where
  health info periodic offer offer_accept other_path : Target
  chain_of : String → Target

pub record Request : Type 0 where
  pub method : Method
  pub path : Target
  pub body : Result String String

pub record Response : Type 0 where
  pub status : ℕ
  pub body : String

-- The text form of JSON and its parser, the reader of an accept message, the id of a contract, and
-- the text of a decoding error.
pub record Lib : Type 0 where
  pub offers : Offers.Lib
  pub to_text : Json → String
  pub parse : String → Result String Json
  pub accept_of : String → Result String AcceptDlc
  pub get_id : Contract → ContractId
  pub field_error : String

abbrev pub status_ok : ℕ
status_ok = 200

abbrev pub status_bad_request : ℕ
status_bad_request = 400

abbrev pub status_not_found : ℕ
status_not_found = 404

-- A field of a type of `w` bits.
abbrev pub unsigned : ℕ → Json → Option ℕ
unsigned w (number n) = if ltb n (2 ^ w) then some n else none
unsigned w null = none
unsigned w _ = none

abbrev pub need : {A : Type 0} → String → Option A → Result String A
need e none = err e
need e (some a) = ok a

module _ (dep : Lib) where
  abbrev pub build_success_response : String → Response
  build_success_response message = record { status = status_ok; body = message }

  abbrev pub error_json : String → Json
  error_json message = object (
      field "status" (number status_bad_request) (
        field "errors"
          (array (cons (object (field "message" (string message) (field "code" null end))) nil))
          end))

  abbrev pub build_error_response : String → Response
  build_error_response message = record {
    status = status_bad_request;
    body = dep.to_text (error_json message);
  }

  -- The derived `Deserialize` of `OfferRequest`, in camel case.
  unfoldable pub offer_request_of : Json → Result String OfferRequest
  offer_request_of v = and_then (need dep.field_error (as_str (index v "uuid"))) λ uuid.
      and_then (need dep.field_error (unsigned 64 (index v "acceptCollateral")))
        λ accept_collateral.
          and_then (need dep.field_error (unsigned 64 (index v "offerCollateral")))
            λ offer_collateral.
              and_then (need dep.field_error (unsigned 64 (index v "totalOutcomes")))
                λ total_outcomes.
                  and_then (need dep.field_error (unsigned 32 (index v "refundDelay")))
                    λ refund_delay.
                      and_then (need dep.field_error (as_str (index v "btcFeeRecipient")))
                        λ btc_fee_recipient.
                          and_then
                            (need dep.field_error (unsigned 64 (index v "btcFeeBasisPoints")))
                            λ btc_fee_basis_points. ok (record {
                              uuid = uuid;
                              accept_collateral = accept_collateral;
                              offer_collateral = offer_collateral;
                              total_outcomes = total_outcomes;
                              refund_delay = refund_delay;
                              btc_fee_recipient = btc_fee_recipient;
                              btc_fee_basis_points = btc_fee_basis_points;
                            })

  -- `serde_json::from_reader` of the body.
  unfoldable pub parsed_offer : Result String String → Result String OfferRequest
  parsed_offer body = and_then (map_err (append "Error aggregating body: ") body) λ whole_body.
      map_err (append "Error parsing http input to create Offer endpoint: ")
        (and_then (dep.parse whole_body) offer_request_of)

  unfoldable pub parsed_accept : Result String String → Result String AcceptDlc
  parsed_accept body = and_then body λ whole_body. and_then (dep.parse whole_body) λ request.
      and_then (need dep.field_error (as_str (index request "acceptMessage"))) dep.accept_of

  -- Both branches of `match result.await`.
  abbrev pub respond : Result String String × World → Response × World
  respond (ok message, w) = (build_success_response message, w)
  respond (err e, w) = (build_error_response e, w)

  abbrev pub oracles_of : Option (List String) → Result String (List String)
  oracles_of none = err "Wallet Error: No attestors from Manager"
  oracles_of (some oracles) = ok oracles

  abbrev pub wallet_error : String → String
  wallet_error e = append "Wallet Error: " e

  abbrev pub listed : String → Option (List (List String)) → Response
  listed address none = record { status = 500; body = "" }
  listed address (some collected) = record {
    status = status_ok;
    body = dep.to_text (info_json address collected);
  }

  module _ (env : Peers) (net : Net) (get_contracts : Stateful World Error (List Contract))
      (address active_network : String) where
    abbrev pub info_of : Result Error (List Contract) × World → Response × World
    info_of (ok contracts, w) = (listed address (collect dep.get_id contracts nine_empty), w)
    info_of (err e, w) = (build_error_response (net.show_error e), w)

    unfoldable pub get_wallet_info : World → Response × World
    get_wallet_info w = info_of (get_contracts w)

    unfoldable pub post_offer : Result String String → Stateful World String String
    post_offer body = do
      attestors ← lift (oracles_of env.oracles)
      req ← lift (map_err wallet_error (parsed_offer body))
      failing_as wallet_error (create_new_offer env dep.offers attestors active_network req)

    unfoldable pub put_accept : Result String String → Stateful World String String
    put_accept body = do
      accept_dlc ← lift (parsed_accept body)
      accept_offer env dep.offers accept_dlc

    unfoldable pub get_chain : String → Stateful World String String
    get_chain event_id = do
      attestors ← lift (oracles_of env.oracles)
      get_chain_from_attestors net attestors event_id

    abbrev pub complete : Result String String × World → Response × World
    complete (ok message, w) = (build_success_response "Periodic check complete", w)
    complete (err e, w) = (build_error_response e, w)

    abbrev pub healthy : Json
    healthy = object (
        field "data"
          (array (
            cons (object (field "status" (string "healthy") (field "message" (string "") end)))
              nil))
          end)

    unfoldable pub process : Method → Target → Result String String → World → Response × World
    process get health body w = (build_success_response (dep.to_text healthy), w)
    process get info body w = get_wallet_info w
    process get (chain_of event_id) body w = respond (get_chain event_id w)
    process get periodic body w = complete (periodic_check env net w)
    process options offer body w = (build_success_response "", w)
    process post offer body w = respond (post_offer body w)
    process options offer_accept body w = (build_success_response "", w)
    process put offer_accept body w = respond (put_accept body w)
    process m p body w = (record { status = status_not_found; body = "Not Found" }, w)

    unfoldable pub process_request : Request → World → Response × World
    process_request req w = process req.method req.path req.body w
