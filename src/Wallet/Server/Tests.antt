-- ===== src/Wallet/Server/Tests.antt =====
-- A router wallet with one attestor.
use dlc_stack.Base.{
  ◌||◌, Result, arith, suc, leb, if◌then◌else◌, ℕ, String, ◌≡◌, refl, inl, ◌↔◌, All, none, some,
  List, [], ◌∷◌, ok, err,
}
use dlc_stack.Manager.Types.{Contract, confirmed, signed, Error}
use dlc_stack.Manager.Monad.{◌>>=◌, ask, attempt, lift}
use dlc_stack.Manager.Peers.{Peers}
use dlc_stack.Manager.Checks as Checks
use dlc_stack.Manager.Checks.{
  check_signed_contracts, check_signed, check_signed_contract, check_confirmed_contracts,
  check_confirmed, check_confirmed_contract, get_closable_contract_info, find_closable,
  attestations_from, check_closable, close_contract, check_preclosed_contracts, check_preclosed,
  check_preclosed_contract,
}
use dlc_stack.Manager.Tests.{peers, signed_contract, accept_message}
use dlc_stack.Api.Json.{object, field, string, end, index, lookup}
use dlc_stack.Clients.Api.{Stateful}
use dlc_stack.Attestor.Client.{get_json, text_of}
use dlc_stack.Attestor.Client as Client
use dlc_stack.Wallet.World.{World, Net, Request, set_status_funded}
use dlc_stack.Wallet.Attestors.{get_chain_from_attestors, chains, agreed, all_same}
use dlc_stack.Wallet.Attestors.Agreed.{get_chain_from_attestors-agrees}
use dlc_stack.Wallet.Notices.{periodic_check, checked, collect}
use dlc_stack.Wallet.Notices.Sent.{notices, IsReachable}
use dlc_stack.Wallet.Notices.Told.{Occurs, periodic_check-tells, periodic_check-silent}
use dlc_stack.Wallet.Server as Server
use dlc_stack.Wallet.Server.{
  process, put_accept, parsed_accept, Lib, put, offer_accept, process_request,
}
use dlc_stack.Wallet.Server.Accepted.{IsAccepted, process_request-IsAccepted}
use dlc_stack.Wallet.Offers.{accept_offer, static_counterparty_node_id}
use dlc_stack.Wallet.Offers as Offers
use dlc_stack.Wallet.Offers.{create_new_offer, contract_input}
use dlc_stack.Wallet.Offers.Terms.{IsSent, create_new_offer-IsSent}
use dlc_stack.Wallet.Payout.{
  get_numerical_contract_info, get_numerical_contract_descriptor,
  get_polynomial_payout_curve_pieces, total_collateral, max_value,
}
use dlc_stack.Manager.Messages.{
  on_dlc_message, on_accept_message, on_accept_verified, get_contract_in_state, send_offer,
  oracle_set, known_oracles, all_announcements, announcements,
  calculate_denominator_from_basis_points,
}
use dlc_stack.Wallet.Info as Info
use dlc_stack.Wallet.Info.Buckets.{ids_of, is_in, collect-buckets}
use dlc_stack.Wallet.Retry.{retry, retry-succeeds, retry-ends}

abbrev net : Net
net = record {
  client = λ key. record { host = "http://attestor/"; public_key = key };
  http = λ w. record {
    get_text = λ path. ok "oracle";
    fetch = λ path. ok (object (field "chain" (string "ethereum") end));
    parse_key = λ s. some s;
    read = λ b. none;
    show_error = λ e. "error";
    show_hex_error = λ e. "error";
  };
  attestors = λ w. ok ("http://attestor" ∷ []);
  post = λ w r. ok 200;
  quote = λ s. s;
  show_error = λ e. "error";
}

-- The attestor does not know the event.
abbrev silent : Net
silent = record net {
  http = λ w. record {
    get_text = λ path. ok "oracle";
    fetch = λ path. err "timeout";
    parse_key = λ s. some s;
    read = λ b. none;
    show_error = λ e. "error";
    show_hex_error = λ e. "error";
  };
}

abbrev env : Peers
env = record peers { get_contract = λ w id. ok (some (confirmed signed_contract)) }

abbrev start : World
start = record { trace = []; requests = [] }

net-IsReachable : IsReachable net ("oracle" ∷ []) (λ uuid. "ethereum")
unfolding get_chain_from_attestors agreed all_same Client.get_chain get_json text_of index lookup
net-IsReachable = record { agree = λ uuid w. refl; status = λ w r. 200; answers = λ w r. refl }

reported : (Checks.periodic_check env []).0 ≡ ok ((2 ∷ [], "event") ∷ (2 ∷ [], "event") ∷ [])
unfolding Checks.periodic_check check_signed_contracts check_signed check_signed_contract
    check_confirmed_contracts check_confirmed check_confirmed_contract get_closable_contract_info
    find_closable attestations_from check_closable close_contract check_preclosed_contracts
    check_preclosed check_preclosed_contract ◌>>=◌ ask attempt lift
reported = refl

abbrev funded : Request
funded = set_status_funded (record { uuid = "event"; btc_tx_id = "fund"; chain = "ethereum" })

periodic_check-tells_example :
    ((periodic_check env net start).0 ≡ ok "Success running periodic check")
    × Occurs funded (notices (periodic_check env net start).1)
periodic_check-tells_example =
    periodic_check-tells env net ("oracle" ∷ []) (λ uuid. "ethereum") start
      ((2 ∷ [], "event") ∷ (2 ∷ [], "event") ∷ []) (2 ∷ []) "event" (confirmed signed_contract)
      funded refl net-IsReachable reported (inl refl) (λ t. refl) refl

two_funded : (checked env start).0.confirmed ≡ ("event", "fund") ∷ ("event", "fund") ∷ []
unfolding checked collect Checks.periodic_check check_signed_contracts check_signed
    check_signed_contract check_confirmed_contracts check_confirmed check_confirmed_contract
    get_closable_contract_info find_closable attestations_from check_closable close_contract
    check_preclosed_contracts check_preclosed check_preclosed_contract ◌>>=◌ ask attempt lift
two_funded = refl

unknown :
    (w : World)
    → (get_chain_from_attestors silent ("oracle" ∷ []) "event" w).0
      ≡ err "Failed to get chain from attestors"
unfolding get_chain_from_attestors agreed all_same Client.get_chain get_json
unknown w = refl

periodic_check-silent_example :
    ((periodic_check env silent start).0 ≡ err "Failed to get chain from attestors")
    × (notices (periodic_check env silent start).1 ≡ [])
periodic_check-silent_example =
    periodic_check-silent env silent ("oracle" ∷ []) start ("event", "fund")
      (("event", "fund") ∷ []) "Failed to get chain from attestors" refl two_funded
      (unknown (checked env start).1)

get_chain_from_attestors-agrees_example :
    ((get_chain_from_attestors net ("oracle" ∷ []) "event" start).0 ≡ ok "ethereum") ↔ (
      (d : String) × ("ethereum" ≡ d)
      × All (λ c. c ≡ some d) (chains net ("oracle" ∷ []) "event" start))
get_chain_from_attestors-agrees_example =
    get_chain_from_attestors-agrees net "oracle" [] "event" start "ethereum"

abbrev library : Lib
library = record {
  offers = record {
    payout = record {
      new_piece = λ ps. ok (record { payout_points = ps });
      new_function = λ ps. ok (record { payout_function_pieces = ps });
    };
    network_of = λ s. ok Offers.regtest;
    address_of = λ s. ok s;
    offer_text = λ o. ok "offer";
    sign_text = λ s. ok "signed";
    show_error = λ e. "error";
  };
  to_text = λ v. "json";
  parse = λ s. ok (object (field "acceptMessage" (string s) end));
  accept_of = λ s. ok accept_message;
  get_id = λ c. 7 ∷ [];
  field_error = "missing field";
}

abbrev no_store : Stateful World Error (List Contract)
no_store w = (ok [], w)

-- The managers of before, whose contracts are with the static counter party.
abbrev willing : Peers
willing = record peers { get_counter_party_id = λ c. static_counterparty_node_id }

abbrev asked : Offers.OfferRequest
asked = record {
  uuid = "event";
  accept_collateral = 1000;
  offer_collateral = 0;
  total_outcomes = 100;
  refund_delay = 3600;
  btc_fee_recipient = "fees";
  btc_fee_basis_points = 0;
}

offer_made :
    (create_new_offer willing library.offers ("oracle" ∷ []) "regtest" asked start).0 ≡ ok "offer"
unfolding create_new_offer get_numerical_contract_info get_numerical_contract_descriptor
    get_polynomial_payout_curve_pieces total_collateral max_value send_offer oracle_set
    known_oracles all_announcements announcements calculate_denominator_from_basis_points ◌>>=◌ ask
    lift contract_input
offer_made = refl

create_new_offer-IsSent_example :
    IsSent willing
      ("oracle" ∷ [])
      asked
      start
      (create_new_offer willing library.offers ("oracle" ∷ []) "regtest" asked start).1
create_new_offer-IsSent_example =
    create_new_offer-IsSent willing library.offers ("oracle" ∷ []) "regtest" asked start "offer"
      offer_made

abbrev two : List Contract
two = confirmed signed_contract ∷ signed signed_contract ∷ []

collect-buckets_example :
    (lists : List (List String)) × (Info.collect (λ c. 7 ∷ []) two Info.nine_empty ≡ some lists)
    × (Info.labelled Info.state_names lists
        ≡ field "Offered" (ids_of (λ c. 7 ∷ []) (is_in "offered") two) (
            field "Accepted" (ids_of (λ c. 7 ∷ []) (is_in "accepted") two) (
              field "Confirmed" (ids_of (λ c. 7 ∷ []) (is_in "confirmed") two) (
                field "Signed" (ids_of (λ c. 7 ∷ []) (is_in "signed") two) (
                  field "Closed" (ids_of (λ c. 7 ∷ []) (is_in "closed") two) (
                    field "Refunded" (ids_of (λ c. 7 ∷ []) (is_in "refunded") two) (
                      field "Failed"
                        (ids_of
                          (λ c. 7 ∷ [])
                          (λ c. is_in "failed_accept" c || is_in "failed_sign" c)
                          two)
                        (field "Rejected" (ids_of (λ c. 7 ∷ []) (is_in "rejected") two) (
                          field "PreClosed"
                            (ids_of (λ c. 7 ∷ []) (is_in "pre_closed") two)
                            end)))))))))
collect-buckets_example = collect-buckets (λ c. 7 ∷ []) two

-- An attempt that succeeds when it has been made three times.
abbrev third : Stateful ℕ String ℕ
third n = if leb 2 n then (ok n, n) else (err "not yet", suc n)

retry-succeeds_example : retry third 3 0 0 0 ≡ some (ok 2, 2)
retry-succeeds_example =
    retry-succeeds third 2 0 0 2 (("not yet", refl), (("not yet", refl), tt)) refl (inl refl)

abbrev accepting : Server.Request
accepting = record { method = put; path = offer_accept; body = ok "accept" }

retry-ends_example : (r : Result String ℕ × ℕ) × (retry third 6 6 0 0 ≡ some r)
retry-ends_example = retry-ends third 6 0 (omega arith)

accepts_offer :
    (process_request library willing net no_store "address" "regtest" accepting start).0.status
    ≡ 200
unfolding process_request process put_accept parsed_accept accept_offer on_dlc_message
    on_accept_message on_accept_verified get_contract_in_state ◌>>=◌ ask lift index lookup
accepts_offer = refl

process_request-IsAccepted_example :
    IsAccepted library willing
      (ok "accept")
      start
      (process_request library willing net no_store "address" "regtest" accepting start).0.body
      (process_request library willing net no_store "address" "regtest" accepting start).1
process_request-IsAccepted_example =
    process_request-IsAccepted library willing net no_store "address" "regtest" (ok "accept") start
      accepts_offer
