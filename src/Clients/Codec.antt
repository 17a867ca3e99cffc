-- ===== src/Clients/Codec.antt =====
-- The bytes in which a contract is stored: `serialize_contract` and `deserialize_contract` of
-- clients/src/utils.rs, one byte for the state and then the state's own form.
pub mod Roundtrip
use dlc_stack.Base.{
  ℕ, String, ◌≡◌, refl, arith, Bool, true, false, Option, none, some, List, [], ◌∷◌, nat_eq,
  if◌then◌else◌, Result, ok, err, ◌>>=◌, map_err,
}
use dlc_stack.Manager.Types.{
  Error, storage_error, io_error, OfferedContract, AcceptedContract, SignedContract,
  PreClosedContract, ClosedContract, FailedAcceptContract, FailedSignContract, Contract, offered,
  accepted, signed, confirmed, refunded, pre_closed, closed, failed_accept, failed_sign, rejected,
}

abbrev pub Bytes : Type 0
Bytes = List ℕ

-- `Serializable` of dlc_manager. Reading may leave bytes behind.
pub record Serializable (A : Type 0) : Type 0 where
  pub serialize : A → Result String Bytes
  pub deserialize : Bytes → Result String A

pub record Serializers : Type 0 where
  pub offered : Serializable OfferedContract
  pub accepted : Serializable AcceptedContract
  pub signed : Serializable SignedContract
  pub pre_closed : Serializable PreClosedContract
  pub closed : Serializable ClosedContract
  pub failed_accept : Serializable FailedAcceptContract
  pub failed_sign : Serializable FailedSignContract

pub data ContractPrefix : Type 0 where
  offered_prefix accepted_prefix signed_prefix confirmed_prefix pre_closed_prefix closed_prefix
        failed_accept_prefix failed_sign_prefix refunded_prefix rejected_prefix :
      ContractPrefix

-- `From<ContractPrefix> for u8`.
abbrev pub u8_from : ContractPrefix → ℕ
u8_from offered_prefix = 1
u8_from accepted_prefix = 2
u8_from signed_prefix = 3
u8_from confirmed_prefix = 4
u8_from pre_closed_prefix = 5
u8_from closed_prefix = 6
u8_from failed_accept_prefix = 7
u8_from failed_sign_prefix = 8
u8_from refunded_prefix = 9
u8_from rejected_prefix = 10

abbrev pub prefixes : List ContractPrefix
prefixes =
    offered_prefix ∷ accepted_prefix ∷ signed_prefix ∷ confirmed_prefix ∷ pre_closed_prefix
    ∷ closed_prefix ∷ failed_accept_prefix ∷ failed_sign_prefix ∷ refunded_prefix ∷ rejected_prefix
    ∷ []

-- The arms of the generated match, in order.
abbrev pub first_match : ℕ → List ContractPrefix → Result Error ContractPrefix
first_match v [] = err (storage_error "Unknown prefix")
first_match v (p ∷ ps) = if nat_eq v (u8_from p) then ok p else first_match v ps

unfoldable pub try_from : ℕ → Result Error ContractPrefix
try_from v = first_match v prefixes

abbrev pub prefix_of : Contract → ContractPrefix
prefix_of (offered c) = offered_prefix
prefix_of (accepted c) = accepted_prefix
prefix_of (signed c) = signed_prefix
prefix_of (confirmed c) = confirmed_prefix
prefix_of (pre_closed c) = pre_closed_prefix
prefix_of (closed c) = closed_prefix
prefix_of (failed_accept c) = failed_accept_prefix
prefix_of (failed_sign c) = failed_sign_prefix
prefix_of (refunded c) = refunded_prefix
prefix_of (rejected c) = rejected_prefix

unfoldable pub get_prefix : Contract → ℕ
get_prefix c = u8_from (prefix_of c)

unfoldable pub get_contract_state_str : Contract → String
get_contract_state_str (offered c) = "offered"
get_contract_state_str (accepted c) = "accepted"
get_contract_state_str (signed c) = "signed"
get_contract_state_str (confirmed c) = "confirmed"
get_contract_state_str (pre_closed c) = "pre_closed"
get_contract_state_str (closed c) = "closed"
get_contract_state_str (refunded c) = "refunded"
get_contract_state_str (failed_accept c) = "failed_accept"
get_contract_state_str (failed_sign c) = "failed_sign"
get_contract_state_str (rejected c) = "rejected"

-- `to_storage_error` of a text.
abbrev pub to_storage_error {ℓ} : {A : Type ℓ} → Result String A → Result Error A
to_storage_error r = map_err storage_error r

module _ (ser : Serializers) where
  abbrev pub payload : Contract → Result String Bytes
  payload (offered c) = ser.offered.serialize c
  payload (accepted c) = ser.accepted.serialize c
  payload (signed c) = ser.signed.serialize c
  payload (confirmed c) = ser.signed.serialize c
  payload (refunded c) = ser.signed.serialize c
  payload (failed_accept c) = ser.failed_accept.serialize c
  payload (failed_sign c) = ser.failed_sign.serialize c
  payload (pre_closed c) = ser.pre_closed.serialize c
  payload (closed c) = ser.closed.serialize c
  payload (rejected c) = ser.offered.serialize c

  unfoldable pub serialize_contract : Contract → Result String Bytes
  serialize_contract contract = do
    serialized ← payload contract
    ok (get_prefix contract ∷ serialized)

  abbrev pub read : {A : Type 0} → Serializable A → (A → Contract) → Bytes → Result Error Contract
  read s make cursor = do c ← to_storage_error (s.deserialize cursor); ok (make c)

  abbrev pub read_as : ContractPrefix → Bytes → Result Error Contract
  read_as offered_prefix = read ser.offered offered
  read_as accepted_prefix = read ser.accepted accepted
  read_as signed_prefix = read ser.signed signed
  read_as confirmed_prefix = read ser.signed confirmed
  read_as pre_closed_prefix = read ser.pre_closed pre_closed
  read_as closed_prefix = read ser.closed closed
  read_as failed_accept_prefix = read ser.failed_accept failed_accept
  read_as failed_sign_prefix = read ser.failed_sign failed_sign
  read_as refunded_prefix = read ser.signed refunded
  read_as rejected_prefix = read ser.offered rejected

  unfoldable pub deserialize_contract : Bytes → Result Error Contract
  deserialize_contract [] = err (io_error "failed to fill whole buffer")
  deserialize_contract (prefix ∷ cursor) = do
    contract_prefix ← try_from prefix
    read_as contract_prefix cursor
