-- ===== src/Attestor/Attest.antt =====
-- `attest` and `build_attestation` of attestor/src/lib.rs and the event store of
-- attestor/src/oracle/handler.rs.
use dlc_stack.Base.{ℕ, zero, suc, String, Option, none, some, List, [], ◌∷◌, Result, ok, err, map}
use dlc_stack.Storage.Models
use dlc_stack.Clients.Codec.{Bytes}
use dlc_stack.Clients.Api.{ApiError, Stateful, ◌>>=◌, lift, failing_as}
use dlc_stack.Clients.Events.{EventsApi, get_event, create_event, update_event}
use dlc_stack.Attestor.Digits.{padded_binary}

pub data EventDescriptor : Type 0 where
  digit_decomposition_event : ℕ → EventDescriptor
  enum_event : EventDescriptor

pub record OracleEvent : Type 0 where
  pub oracle_nonces : List String
  pub event_maturity_epoch : ℕ
  pub event_descriptor : EventDescriptor
  pub event_id : String

pub record OracleAnnouncement : Type 0 where
  pub oracle_event : OracleEvent
  pub oracle_public_key : String
  pub announcement_signature : String

pub record OracleAttestation : Type 0 where
  pub oracle_public_key : String
  pub signatures : List String
  pub outcomes : List String

-- `DbValue`, whose fields have names in the comments of the source.
pub record DbValue : Type 0 where
  pub outstanding_sk_nonces : Option (List String)
  pub announcement : Bytes
  pub attestation : Option Bytes
  pub outcome : Option ℕ
  pub uuid : String
  pub chain : Option String

pub data OracleError : Type 0 where
  storage_api_error : ApiError → OracleError
  base64_decode_error : String → OracleError

-- The oracle's key, and what comes from other crates: signing a digit with a nonce, the binary forms
-- of announcement and attestation, JSON, base64, and the texts of errors.
pub record Lib : Type 0 where
  pub public_key : String
  pub oracle_public_key : String
  pub schnorrsig_sign_with_nonce : String → String → String
  pub read_announcement : Bytes → Result String OracleAnnouncement
  pub encode_attestation : OracleAttestation → Bytes
  pub to_json : DbValue → Result String Bytes
  pub from_json : Bytes → Result String DbValue
  pub encode : Bytes → String
  pub decode : String → Result String Bytes
  pub show_error : OracleError → String

abbrev pub digit_text : ℕ → String
digit_text zero = "0"
digit_text (suc n) = "1"

abbrev pub decoded : Result String Bytes → Result OracleError (Option Bytes)
decoded (ok b) = ok (some b)
decoded (err x) = err (base64_decode_error x)

module _ (dep : Lib) where
  -- One signature for each digit that has a nonce.
  unfoldable pub signatures_of : List String → List String → List String
  signatures_of [] nonces = []
  signatures_of (x ∷ outcomes) [] = []
  signatures_of (x ∷ outcomes) (nonce ∷ nonces) =
      dep.schnorrsig_sign_with_nonce x nonce ∷ signatures_of outcomes nonces

  unfoldable pub build_attestation : List String → List String → OracleAttestation
  build_attestation outstanding_sk_nonces outcomes = record {
    oracle_public_key = dep.oracle_public_key;
    signatures = signatures_of outcomes outstanding_sk_nonces;
    outcomes = outcomes;
  }

  unfoldable pub outcomes_of : ℕ → ℕ → List String
  outcomes_of width outcome = map digit_text (padded_binary width outcome)

  -- The event with its attestation; the nonces stay where they are.
  unfoldable pub attested : DbValue → List String → ℕ → ℕ → DbValue
  attested event nonces width outcome = record event {
    attestation =
        some (dep.encode_attestation (build_attestation nonces (outcomes_of width outcome)));
    outcome = some outcome;
  }

  module _ {S : Type 0} (api : EventsApi S) where
    abbrev pub insert_found :
        String → Bytes → Option Models.Event → Stateful S OracleError (Option Bytes)
    insert_found event_id new_event (some found) = do
      updated ← failing_as storage_api_error (
          update_event api
            (record { event_id = event_id; content = dep.encode new_event; key = dep.public_key }))
      lift (ok (some new_event))
    insert_found event_id new_event none = do
      created ← failing_as storage_api_error (
          create_event api
            (record { event_id = event_id; content = dep.encode new_event; key = dep.public_key }))
      lift (ok (some new_event))

    unfoldable pub insert : String → Bytes → Stateful S OracleError (Option Bytes)
    insert event_id new_event = do
      event ← failing_as storage_api_error (get_event api dep.public_key event_id)
      insert_found event_id new_event event

    abbrev pub decode_found : Option Models.Event → Result OracleError (Option Bytes)
    decode_found none = ok none
    decode_found (some e) = decoded (dep.decode e.content)

    unfoldable pub get : String → Stateful S OracleError (Option Bytes)
    get event_id = do
      event ← failing_as storage_api_error (get_event api dep.public_key event_id)
      lift (decode_found event)

    abbrev pub nonces_of : Option (List String) → Result String (List String)
    nonces_of none = err "Error: event is None"
    nonces_of (some value) = ok value

    abbrev pub nb_digits : EventDescriptor → Result String ℕ
    nb_digits (digit_decomposition_event n) = ok n
    nb_digits enum_event = err "Got an unexpected EventDescriptor type!"

    abbrev pub event_vec : Option Bytes → Result String Bytes
    event_vec none = err "[WASM-ATTESTOR] Event missing in StorageAPI"
    event_vec (some val) = ok val

    -- A failed write is logged, and no error.
    unfoldable pub stored_event : String → Bytes → Stateful S String (Unit {0})
    stored_event uuid new_event s = (ok tt, (insert uuid new_event s).1)

    unfoldable pub attest : String → ℕ → Stateful S String (Unit {0})
    attest uuid outcome = do
      res ← failing_as dep.show_error (get uuid)
      val ← lift (event_vec res)
      event ← lift (dep.from_json val)
      nonces ← lift (nonces_of event.outstanding_sk_nonces)
      announcement ← lift (dep.read_announcement event.announcement)
      num_digits_to_sign ← lift (nb_digits announcement.oracle_event.event_descriptor)
      new_event ← lift (dep.to_json (attested event nonces num_digits_to_sign outcome))
      stored_event uuid new_event
