-- ===== src/Attestor/Events.antt =====
-- The other operations of attestor/src/lib.rs: an event is created with its announcement, and events
-- are shown. A panic is an error with the text of the panic.
pub mod Shown
pub mod Fetched
mod Tests
use dlc_stack.Base.{
  ℕ, zero, suc, ◌^◌, ltb, if◌then◌else◌, String, Option, none, some, List, [], ◌∷◌, Result, ok, err,
  map, map_err, ◌>>=◌ as and_then,
}
use dlc_stack.Storage.Models
use dlc_stack.Clients.Codec.{Bytes}
use dlc_stack.Clients.Api.{Stateful, ◌>>=◌, lift, failing_as}
use dlc_stack.Clients.Events.{EventsApi}
use dlc_stack.Api.Json.{Json, null, number, string, object, end, field}
use dlc_stack.Attestor.Attest.{
  Lib, DbValue, OracleError, EventDescriptor, digit_decomposition_event, enum_event, OracleEvent,
  OracleAnnouncement, OracleAttestation, storage_api_error, base64_decode_error, insert, get,
}

-- A moment, in seconds before or after 1970.
pub data Timestamp : Type 0 where
  before since : ℕ → Timestamp

-- The parser of a maturation time, the nonces that are drawn, and the announcement's signature and
-- binary form; for what is shown, hexadecimal text and the texts of announcements, attestations and
-- numbers.
pub record Announcer : Type 0 where
  pub unix_timestamp : String → Option Timestamp
  pub sk_nonce : ℕ → String
  pub nonce_point : String → String
  pub sign_schnorr : OracleEvent → String
  pub encode_announcement : OracleAnnouncement → Bytes
  pub encode_hex : Bytes → String
  pub announcement_json : OracleAnnouncement → Result String String
  pub read_attestation : Bytes → Result String OracleAttestation
  pub show_attestation : OracleAttestation → String
  pub show_number : ℕ → String

-- The numbers of `0..n`, the last one first.
abbrev pub below : ℕ → List ℕ
below zero = []
below (suc n) = n ∷ below n

abbrev pub nb_nonces : EventDescriptor → Result String ℕ
nb_nonces (digit_decomposition_event n) = ok n
nb_nonces enum_event = err "explicit panic"

-- `unix_timestamp().try_into()` into a `u32`.
abbrev pub maturity_epoch : Timestamp → Result String ℕ
maturity_epoch (before n) =
    err "[WASM-ATTESTOR] Failed to convert maturation to event_maturity_epoch"
maturity_epoch (since n) =
    if ltb n (2 ^ 32)
    then ok n
    else err "[WASM-ATTESTOR] Failed to convert maturation to event_maturity_epoch"

abbrev pub parsed_time : Option Timestamp → Result String Timestamp
parsed_time none = err "Unable to parse maturation time"
parsed_time (some t) = ok t

abbrev pub inserted : Result OracleError (Option Bytes) → Result String (Unit {0})
inserted (ok (some val)) = ok tt
inserted (ok none) = err "Failed to create event"
inserted (err e) = err "Failed to create event"

pub record ApiOracleEvent : Type 0 where
  pub event_id : String
  pub uuid : String
  pub rust_announcement_json : String
  pub rust_announcement : String
  pub rust_attestation_json : Option String
  pub rust_attestation : Option String
  pub maturation : String
  pub outcome : Option ℕ
  pub chain : Option String

abbrev pub some_text : Option String → Json
some_text none = null
some_text (some s) = string s

abbrev pub number_or_null : Option ℕ → Json
number_or_null none = null
number_or_null (some n) = number n

-- The derived `Serialize`.
abbrev pub event_json : ApiOracleEvent → Json
event_json e = object (
    field "event_id" (string e.event_id) (
      field "uuid" (string e.uuid) (
        field "rust_announcement_json" (string e.rust_announcement_json) (
          field "rust_announcement" (string e.rust_announcement) (
            field "rust_attestation_json" (some_text e.rust_attestation_json) (
              field "rust_attestation" (some_text e.rust_attestation) (
                field "maturation" (string e.maturation) (
                  field "outcome" (number_or_null e.outcome)
                    (field "chain" (some_text e.chain) end)))))))))

module _ (dep : Lib) (ann : Announcer) where
  unfoldable pub generate_nonces_for_event :
      EventDescriptor → Result String (List String × List String)
  generate_nonces_for_event event_descriptor = and_then (nb_nonces event_descriptor) λ n.
      let priv_nonces = map ann.sk_nonce (below n) in
      ok (map ann.nonce_point priv_nonces, priv_nonces)

  abbrev pub signed_event : OracleEvent → OracleAnnouncement
  signed_event oracle_event = record {
    oracle_event = oracle_event;
    oracle_public_key = dep.oracle_public_key;
    announcement_signature = ann.sign_schnorr oracle_event;
  }

  unfoldable pub build_announcement :
      Timestamp → String → Result String (OracleAnnouncement × List String)
  build_announcement maturation event_id =
      and_then (generate_nonces_for_event (digit_decomposition_event 14)) λ nonces.
        and_then (maturity_epoch maturation) λ epoch. ok (
          signed_event (record {
            oracle_nonces = nonces.0;
            event_maturity_epoch = epoch;
            event_descriptor = digit_decomposition_event 14;
            event_id = event_id;
          }),
          nonces.1,
        )

  abbrev pub created_value : String → String → OracleAnnouncement → List String → DbValue
  created_value uuid chain announcement nonces = record {
    outstanding_sk_nonces = some nonces;
    announcement = ann.encode_announcement announcement;
    attestation = none;
    outcome = none;
    uuid = uuid;
    chain = some chain;
  }

  abbrev pub attestation_json : Option Bytes → Option String
  attestation_json none = none
  attestation_json (some att_vec) = elim (ann.read_attestation att_vec) [
    | ok att ↦ some (ann.show_attestation att)
    | err e ↦ some "[WASM-ATTESTOR] Error decoding attestation"
  ]

  abbrev pub hex_of : Option Bytes → Option String
  hex_of none = none
  hex_of (some b) = some (ann.encode_hex b)

  unfoldable pub parse_database_entry : Bytes → Result String ApiOracleEvent
  parse_database_entry entry =
      and_then
        (map_err (λ e. "[WASM-ATTESTOR] Error parsing event from string") (dep.from_json entry))
        λ event.
          and_then
            (map_err (λ e. "[WASM-ATTESTOR] Error reading OracleAnnouncement")
              (dep.read_announcement event.announcement))
            λ announcement.
              and_then
                (map_err (λ e. "[WASM-ATTESTOR] Error serializing announcement to JSON")
                  (ann.announcement_json announcement))
                λ json. ok (record {
                  event_id = announcement.oracle_event.event_id;
                  uuid = event.uuid;
                  rust_announcement_json = json;
                  rust_announcement = ann.encode_hex event.announcement;
                  rust_attestation_json = attestation_json event.attestation;
                  rust_attestation = hex_of event.attestation;
                  maturation = ann.show_number announcement.oracle_event.event_maturity_epoch;
                  outcome = event.outcome;
                  chain = event.chain;
                })

  -- `collect` into a `Result`.
  unfoldable pub parse_all : List (String × Bytes) → Result String (List ApiOracleEvent)
  parse_all [] = ok []
  parse_all (entry ∷ rest) =
      let more = parse_all rest in
      and_then (parse_database_entry entry.1) λ e. and_then more λ es. ok (e ∷ es)

  unfoldable pub decode_events : List Models.Event → Result OracleError (List (String × Bytes))
  decode_events [] = ok []
  decode_events (event ∷ rest) =
      let more = decode_events rest in
      and_then (map_err base64_decode_error (dep.decode event.content))
        λ content. and_then more λ found. ok ((event.event_id, content) ∷ found)

  module _ {S : Type 0} (api : EventsApi S) where
    unfoldable pub create_event : String → String → String → Stateful S String (Unit {0})
    create_event uuid maturation chain = do
      time ← lift (parsed_time (ann.unix_timestamp maturation))
      built ← lift (build_announcement time uuid)
      new_event ← lift (
          map_err (λ e. "Error serializing new_event to JSON")
            (dep.to_json (created_value uuid chain built.0 built.1)))
      (λ s. let (r, s') = insert dep api uuid new_event s in (inserted r, s'))

    unfoldable pub get_all : Stateful S OracleError (List (String × Bytes))
    get_all = do
      events ←
          failing_as storage_api_error
            (api.get_events (record { key = dep.public_key; event_id = none }))
      lift (decode_events events)

    unfoldable pub get_events : Stateful S String (List ApiOracleEvent)
    get_events = do
      events ← failing_as (λ e. "[WASM-ATTESTOR] Error getting all events") get_all
      lift (parse_all events)

    abbrev pub event_shown : Option Bytes → Result String Json
    event_shown none = ok null
    event_shown (some event) =
        and_then
          (map_err (λ e. "[WASM-ATTESTOR] Error parsing database entry")
            (parse_database_entry event))
          λ parsed. ok (event_json parsed)

    unfoldable pub get_event : String → Stateful S String Json
    get_event uuid = do
      result ← failing_as (λ e. "[WASM-ATTESTOR] Error getting event") (get dep api uuid)
      lift (event_shown result)
