-- ===== src/Manager/Types.antt =====
-- The contract states that the manager distinguishes, with the fields that it reads or sets. The
-- types are those of the crates dlc_manager, dlc_messages and bitcoin; a transaction is what is
-- read of it, its id and its lock time.
use dlc_stack.Base.{ℕ, String, Option, List}

-- 32 bytes.
abbrev pub ContractId : Type 0
ContractId = List ℕ

pub data Error : Type 0 where
  invalid_parameters invalid_state oracle_error storage_error wallet_error blockchain_error
        io_error :
      String → Error

pub record Transaction : Type 0 where
  pub txid : String
  pub lock_time : ℕ

pub record OracleAnnouncement : Type 0 where
  pub oracle_public_key : String
  pub event_id : String

pub record OracleAttestation : Type 0 where
  pub oracle_public_key : String
  pub signatures : List String
  pub outcomes : List String

pub record ContractInfo : Type 0 where
  pub oracle_announcements : List OracleAnnouncement
  pub threshold : ℕ

pub record OfferedContract : Type 0 where
  pub id : ContractId
  pub counter_party : String
  pub contract_info : List ContractInfo

pub record DlcTransactions : Type 0 where
  pub fund : Transaction
  pub refund : Transaction
  pub funding_script_pubkey : String

pub record AcceptedContract : Type 0 where
  pub offered_contract : OfferedContract
  pub adaptor_infos : List String
  pub dlc_transactions : DlcTransactions
  pub accept_collateral : ℕ

pub record SignedContract : Type 0 where
  pub accepted_contract : AcceptedContract
  pub channel_id : Option ContractId

pub record OfferDlc : Type 0 where
  pub temporary_contract_id : ContractId

pub record AcceptDlc : Type 0 where
  pub temporary_contract_id : ContractId

pub record SignDlc : Type 0 where
  pub contract_id : ContractId

pub record PreClosedContract : Type 0 where
  pub signed_contract : SignedContract
  pub attestations : Option (List OracleAttestation)
  pub signed_cet : Transaction

-- `pnl` is what `compute_pnl` gave.
pub record ClosedContract : Type 0 where
  pub attestations : Option (List OracleAttestation)
  pub signed_cet : Option Transaction
  pub contract_id : ContractId
  pub temporary_contract_id : ContractId
  pub counter_party_id : String
  pub pnl : String

pub record FailedAcceptContract : Type 0 where
  pub offered_contract : OfferedContract
  pub accept_message : AcceptDlc
  pub error_message : String

pub record FailedSignContract : Type 0 where
  pub accepted_contract : AcceptedContract
  pub sign_message : SignDlc
  pub error_message : String

pub data Contract : Type 0 where
  offered : OfferedContract → Contract
  accepted : AcceptedContract → Contract
  signed confirmed refunded : SignedContract → Contract
  pre_closed : PreClosedContract → Contract
  closed : ClosedContract → Contract
  failed_accept : FailedAcceptContract → Contract
  failed_sign : FailedSignContract → Contract
  rejected : OfferedContract → Contract

pub data DlcMessage : Type 0 where
  offer : OfferDlc → DlcMessage
  accept : AcceptDlc → DlcMessage
  sign : SignDlc → DlcMessage
  other_message : DlcMessage

-- The descriptors of an event with digits and of the payout over its outcomes.
pub record PayoutPoint : Type 0 where
  pub event_outcome : ℕ
  pub outcome_payout : ℕ
  pub extra_precision : ℕ

pub record PolynomialPayoutCurvePiece : Type 0 where
  pub payout_points : List PayoutPoint

pub record PayoutFunction : Type 0 where
  pub payout_function_pieces : List PolynomialPayoutCurvePiece

pub record DigitDecompositionEventDescriptor : Type 0 where
  pub base : ℕ
  pub unit : String
  pub precision : ℕ
  pub nb_digits : ℕ

pub record NumericalDescriptor : Type 0 where
  pub payout_function : PayoutFunction
  -- the only rounding interval, its beginning and its modulus
  pub begin_interval : ℕ
  pub rounding_mod : ℕ
  pub oracle_base : ℕ
  pub oracle_nb_digits : List ℕ
