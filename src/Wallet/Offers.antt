-- ===== src/Wallet/Offers.antt =====
-- `create_new_offer` and `accept_offer` of wallet/src/main.rs, over the manager.
pub mod Terms
use Prim.Native.String.{◌++◌ as append}
use dlc_stack.Base.{
  ℕ, zero, suc, ◌%◌, ◌^◌, ◌*◌, leb, ltb, length, if◌then◌else◌, String, Option, none, some, List,
  [], ◌∷◌, Result, ok, err, map_err, ◌>>=◌ as and_then,
}
use dlc_stack.Manager.Types.{
  Error, AcceptDlc, SignDlc, OfferDlc, DlcMessage, accept, sign, offer, other_message,
  NumericalDescriptor,
}
use dlc_stack.Manager.Monad.{Action}
use dlc_stack.Manager.Peers.{Peers, ContractInput, ContractInputInfo}
use dlc_stack.Manager.Messages.{send_offer, on_dlc_message}
use dlc_stack.Clients.Api.{Stateful, ◌>>=◌, lift, failing_as}
use dlc_stack.Wallet.Payout as Payout
use dlc_stack.Wallet.Payout.{get_numerical_contract_info}
use dlc_stack.Wallet.World.{World, managed}

pub data Network : Type 0 where
  bitcoin testnet signet regtest : Network

pub record OfferRequest : Type 0 where
  pub uuid : String
  pub accept_collateral : ℕ
  pub offer_collateral : ℕ
  pub total_outcomes : ℕ
  pub refund_delay : ℕ
  pub btc_fee_recipient : String
  pub btc_fee_basis_points : ℕ

-- What comes from bitcoin, dlc_manager and serde_json: the parsers of a network and of an address
-- with their errors, the descriptors' constructors, the texts of messages and of errors.
pub record Lib : Type 0 where
  pub payout : Payout.Lib
  pub network_of : String → Result String Network
  pub address_of : String → Result String String
  pub offer_text : OfferDlc → Result String String
  pub sign_text : SignDlc → Result String String
  pub show_error : Error → String

abbrev pub static_counterparty_node_id : String
static_counterparty_node_id = "02fc8e97419286cf05e5d133f41ff6d51f691dda039e9dc007245a421e2c7ec61c"

abbrev pub one_day_in_seconds : ℕ
one_day_in_seconds = 86400

abbrev pub ten_days : ℕ
ten_days = one_day_in_seconds * 10

unfoldable pub adjusted_refund_delay : ℕ → ℕ
adjusted_refund_delay zero = ten_days
adjusted_refund_delay (suc n) = if leb ten_days (suc n) then ten_days else suc n

abbrev pub fee_rate : Network → ℕ
fee_rate regtest = 1
fee_rate bitcoin = 400
fee_rate testnet = 400
fee_rate signet = 400

abbrev pub fee_address_string : ℕ → String → String
fee_address_string zero btc_fee_recipient = "bcrt1qvgkz8m4m73kly4xhm28pcnv46n6u045lfq9ta3"
fee_address_string (suc n) btc_fee_recipient = btc_fee_recipient

unfoldable pub contract_input :
    Network → List String → OfferRequest → NumericalDescriptor → ContractInput
contract_input network attestors req descriptor = record {
  offer_collateral = req.offer_collateral;
  accept_collateral = req.accept_collateral;
  fee_rate = fee_rate network;
  contract_infos =
      (record {
        oracles = record {
          public_keys = attestors;
          event_id = req.uuid;
          threshold = length attestors % 2 ^ 16;
        };
        contract_descriptor = descriptor;
      })
      ∷ [];
}

module _ (env : Peers) (dep : Lib) where
  unfoldable pub create_new_offer :
      List String → String → OfferRequest → Stateful World String String
  create_new_offer attestors active_network req = do
    network ←
        lift
          (map_err (append "Unknown Network in offer creation: ") (dep.network_of active_network))
    info ← lift (
        map_err dep.show_error (
          get_numerical_contract_info dep.payout req.accept_collateral req.offer_collateral
            req.total_outcomes (length attestors)))
    fee_address ← lift (
        map_err (append "Error parsing fee address: ")
          (dep.address_of (fee_address_string req.btc_fee_basis_points req.btc_fee_recipient)))
    made ← failing_as dep.show_error (
        managed (
          send_offer env (contract_input network attestors req info.1) static_counterparty_node_id
            (adjusted_refund_delay req.refund_delay) req.btc_fee_basis_points fee_address))
    lift (dep.offer_text made)

  abbrev pub sign_message : Option DlcMessage → Result String String
  sign_message (some (sign s)) = dep.sign_text s
  sign_message (some (offer o)) = err "Error: invalid Sign message for accept_offer function"
  sign_message (some (accept a)) = err "Error: invalid Sign message for accept_offer function"
  sign_message (some other_message) = err "Error: invalid Sign message for accept_offer function"
  sign_message none = err "Error: invalid Sign message for accept_offer function"

  unfoldable pub accept_offer : AcceptDlc → Stateful World String String
  accept_offer accept_dlc = do
    dlc ←
        failing_as dep.show_error
          (managed (on_dlc_message env (accept accept_dlc) static_counterparty_node_id))
    lift (sign_message dlc)
