-- ===== src/Manager/Peers.antt =====
-- What the manager is built from: the traits `AsyncStorage`, `AsyncBlockchain` and `AsyncOracle` of
-- dlc-link-manager/src/lib.rs, the wallet, the clock, and the functions of the crate dlc_manager.
-- An answer may depend on everything that was called before.
use dlc_stack.Base.{ℕ, String, Option, List, Result}
use dlc_stack.Manager.Types.{
  ContractId, Error, Transaction, OracleAnnouncement, OracleAttestation, ContractInfo,
  OfferedContract, AcceptedContract, SignedContract, PreClosedContract, Contract, OfferDlc,
  AcceptDlc, SignDlc, NumericalDescriptor,
}
use dlc_stack.Manager.Monad.{Trace}

pub record OracleInput : Type 0 where
  pub public_keys : List String
  pub event_id : String
  pub threshold : ℕ

pub record ContractInputInfo : Type 0 where
  pub oracles : OracleInput
  pub contract_descriptor : NumericalDescriptor

pub record ContractInput : Type 0 where
  pub offer_collateral : ℕ
  pub accept_collateral : ℕ
  pub fee_rate : ℕ
  pub contract_infos : List ContractInputInfo

-- The operations on `f64` that the fee computation uses.
pub record Float : Type 1 where
  pub F64 : Type 0
  pub from_u64 : ℕ → F64
  pub to_u64 : F64 → ℕ
  pub div : F64 → F64 → F64
  pub mul : F64 → F64 → F64

pub record Peers : Type 1 where
  pub float : Float
  -- the public keys under which an oracle is known
  pub oracles : Option (List String)
  -- storage
  pub get_contract : Trace → ContractId → Result Error (Option Contract)
  pub get_signed_contracts : Trace → Result Error (List SignedContract)
  pub get_confirmed_contracts : Trace → Result Error (List SignedContract)
  pub get_preclosed_contracts : Trace → Result Error (List PreClosedContract)
  pub create_contract : Trace → OfferedContract → Result Error (Unit {0})
  pub update_contract : Trace → Contract → Result Error (Unit {0})
  -- blockchain and time
  pub get_transaction_confirmations : Trace → String → Result Error ℕ
  pub send_transaction : Trace → Transaction → Result Error (Unit {0})
  pub get_network : Trace → Result Error String
  pub get_unixtime : Trace → Result Error ℕ
  -- oracles, by public key and event id
  pub get_announcement : Trace → String → String → Result Error OracleAnnouncement
  pub get_attestation : Trace → String → String → Result Error OracleAttestation
  -- wallet; the address of a script on a network
  pub p2wsh : String → String → String
  pub import_address : Trace → String → Result Error (Unit {0})
  -- dlc_manager; the text of an error
  pub error_to_string : Error → String
  pub get_counter_party_id : Contract → String
  pub get_contract_id : AcceptedContract → ContractId
  pub compute_pnl : AcceptedContract → Transaction → String
  pub validate_input : ContractInput → Result Error (Unit {0})
  pub validate_offer : OfferDlc → Result Error (Unit {0})
  pub validate_contract : OfferedContract → Result Error (Unit {0})
  pub try_from_offer_dlc : OfferDlc → String → Result Error OfferedContract
  pub offer_contract :
      Trace
      → ContractInput
      → List (List OracleAnnouncement)
      → ℕ
      → String
      → ℕ
      → String
      → Result Error (OfferedContract × OfferDlc)
  pub accept_contract : Trace → OfferedContract → Result Error (AcceptedContract × AcceptDlc)
  pub verify_accepted_and_sign_contract :
      Trace → OfferedContract → AcceptDlc → Result Error (SignedContract × SignDlc)
  pub verify_signed_contract :
      Trace → AcceptedContract → SignDlc → Result Error (SignedContract × Transaction)
  pub get_signed_cet :
      SignedContract
      → ContractInfo
      → String
      → List (ℕ × OracleAttestation)
      → Result Error Transaction
  pub get_signed_refund : SignedContract → Result Error Transaction
