-- ===== src/Browser.antt =====
-- wasm-wallet/src/lib.rs: the wallet in a browser, which accepts offers, over the same manager.
pub mod Ids
pub mod Shown
pub mod Coins
mod Tests
use Prim.Native.String.{◌++◌ as append}
use dlc_stack.Base.{
  ℕ, String, Bool, true, false, ◌&&◌, nat_eq, if◌then◌else◌, Option, none, some, List, [], ◌∷◌, map,
  Result, ok, err, map_err, find,
}
use dlc_stack.Manager.Types.{
  ContractId, Error, Contract, offered, accepted, signed, confirmed, refunded, pre_closed, closed,
  failed_accept, failed_sign, rejected, AcceptedContract, SignedContract, OfferDlc, AcceptDlc,
  SignDlc, DlcMessage, offer, sign,
}
use dlc_stack.Manager.Monad.{
  Trace, Action, get_contract, get_signed_contracts, update_contract, ask,
}
use dlc_stack.Manager.Peers.{Peers}
use dlc_stack.Manager.Messages.{on_dlc_message, accept_contract_offer}
use dlc_stack.Manager.Checks as Checks
use dlc_stack.Clients.Api.{Stateful, ◌>>=◌, lift, failing_as}
use dlc_stack.Clients.Ids.{hex_bytes}
use dlc_stack.Browser.Ids.{read_id}

pub record JsContract : Type 0 where
  pub id : String
  pub state : String
  pub acceptor_collateral : String
  pub tx_id : String

-- The texts of messages, their parsers, and the texts of numbers and errors.
pub record Lib : Type 0 where
  pub get_id : Contract → ContractId
  pub offer_of : String → Result String OfferDlc
  pub sign_of : String → Result String SignDlc
  pub accept_text : AcceptDlc → Result String String
  pub show_number : ℕ → String
  pub show_error : Error → String

abbrev pub static_counterparty_node_id : String
static_counterparty_node_id = "02fc8e97419286cf05e5d133f41ff6d51f691dda039e9dc007245a421e2c7ec61c"

abbrev pub state_name : Contract → String
state_name (offered c) = "Offered"
state_name (accepted c) = "Accepted"
state_name (signed c) = "Signed"
state_name (confirmed c) = "Confirmed"
state_name (pre_closed c) = "Pre-Closed"
state_name (closed c) = "Closed"
state_name (refunded c) = "Refunded"
state_name (failed_accept c) = "Accept Failed"
state_name (failed_sign c) = "Sign Failed"
state_name (rejected c) = "Rejected"

-- The accepted contract that a contract holds; that of one that is closed is not kept.
abbrev pub accepted_of : Contract → Option AcceptedContract
accepted_of (accepted c) = some c
accepted_of (signed c) = some c.accepted_contract
accepted_of (confirmed c) = some c.accepted_contract
accepted_of (refunded c) = some c.accepted_contract
accepted_of (failed_sign c) = some c.accepted_contract
accepted_of (pre_closed c) = some c.signed_contract.accepted_contract
accepted_of (offered c) = none
accepted_of _ = none

abbrev pub same_id : ContractId → ContractId → Bool
same_id [] [] = true
same_id [] (y ∷ ys) = false
same_id (x ∷ xs) [] = false
same_id (x ∷ xs) (y ∷ ys) = let rest = same_id xs ys in nat_eq x y && rest

abbrev pub wallet_error : String → String
wallet_error e = append "Wallet Error: " e

module _ (dep : Lib) where
  abbrev pub collateral_of : Option AcceptedContract → String
  collateral_of none = ""
  collateral_of (some c) = dep.show_number c.accept_collateral

  abbrev pub fund_of : Option AcceptedContract → String
  fund_of none = ""
  fund_of (some c) = c.dlc_transactions.fund.txid

  -- The field `tx_id`, which of a closed contract is written from the collateral.
  abbrev pub tx_id_of : Contract → String
  tx_id_of (pre_closed c) = dep.show_number c.signed_contract.accepted_contract.accept_collateral
  tx_id_of (accepted c) = fund_of (accepted_of (accepted c))
  tx_id_of c = fund_of (accepted_of c)

  unfoldable pub from_contract : Contract → JsContract
  from_contract contract = record {
    id = hex_bytes (dep.get_id contract);
    state = state_name contract;
    acceptor_collateral = collateral_of (accepted_of contract);
    tx_id = tx_id_of contract;
  }

  abbrev pub as_offered : Option Contract → Option Contract
  as_offered (some (offered c)) = some (rejected c)
  as_offered (some (accepted c)) = none
  as_offered (some _) = none
  as_offered none = none

  abbrev pub found_txid : Option SignedContract → Result String String
  found_txid none = err "DLC Manager: - Sign Offer Error: Contract not found"
  found_txid (some c) = ok c.accepted_contract.dlc_transactions.fund.txid

  module _ (env : Peers) where
    unfoldable pub get_contracts : Action (List Contract) → Stateful Trace String (List JsContract)
    get_contracts store = do
      contracts ← failing_as dep.show_error store
      lift (ok (map from_contract contracts))

    abbrev pub shown : Option Contract → Option JsContract
    shown none = none
    shown (some c) = some (from_contract c)

    unfoldable pub get_contract_by : String → Stateful Trace String (Option JsContract)
    get_contract_by contract_str = do
      contract_id ← lift (map_err wallet_error (read_id contract_str))
      contract ←
          failing_as dep.show_error
            (ask (get_contract contract_id) (λ w. env.get_contract w contract_id))
      lift (ok (shown contract))

    unfoldable pub periodic_check : Stateful Trace String (Unit {0})
    periodic_check = do
      affected ← failing_as dep.show_error (Checks.periodic_check env)
      lift (ok tt)

    abbrev pub accepting : String → Stateful Trace String String
    accepting offer_json = do
      dlc_offer_message ← lift (dep.offer_of offer_json)
      none_back ←
          failing_as dep.show_error
            (on_dlc_message env (offer dlc_offer_message) static_counterparty_node_id)
      accept_msg ←
          failing_as dep.show_error
            (accept_contract_offer env dlc_offer_message.temporary_contract_id)
      lift (dep.accept_text accept_msg.2)

    unfoldable pub accept_offer : String → Stateful Trace String String
    accept_offer offer_json =
        failing_as (λ e. append "Error accepting offer: " (wallet_error e)) (accepting offer_json)

    abbrev pub signing : String → Stateful Trace String String
    signing message = do
      dlc_sign_message ← lift (dep.sign_of message)
      none_back ←
          failing_as dep.show_error
            (on_dlc_message env (sign dlc_sign_message) static_counterparty_node_id)
      contracts ← failing_as dep.show_error (ask get_signed_contracts env.get_signed_contracts)
      lift (
          found_txid (
            find
              (λ c. same_id (env.get_contract_id c.accepted_contract) dlc_sign_message.contract_id)
              contracts))

    unfoldable pub countersign_and_broadcast : String → Stateful Trace String String
    countersign_and_broadcast message =
        failing_as (λ e. append "Error signing and broadcasting: " (wallet_error e))
          (signing message)

    abbrev pub store_rejected : Option Contract → Stateful Trace String (Unit {0})
    store_rejected none = lift (ok tt)
    store_rejected (some c) =
        failing_as dep.show_error (ask (update_contract c) (λ w. env.update_contract w c))

    abbrev pub rejecting : String → Stateful Trace String (Unit {0})
    rejecting contract_str = do
      contract_id ← lift (read_id contract_str)
      contract ←
          failing_as dep.show_error
            (ask (get_contract contract_id) (λ w. env.get_contract w contract_id))
      store_rejected (as_offered contract)

    unfoldable pub reject_offer : String → Stateful Trace String (Unit {0})
    reject_offer contract_str =
        failing_as (λ e. append "Error signing and broadcasting: " (wallet_error e))
          (rejecting contract_str)
