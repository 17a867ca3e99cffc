-- ===== src/Attestor/Events/Fetched.antt =====
-- What the manager's client reads of the events that an attestor serves.
use Prim.Native.String.{◌++◌ as append}
use dlc_stack.Base.{
  ℕ, ◌<◌, ◌^◌, ltb, String, ◌≡◌, refl, ap, ◌∙◌, arith, true, none, some, map, ok, err, All,
}
use dlc_stack.Storage.Models
use dlc_stack.Storage.Sql.{Table}
use dlc_stack.Manager.Types.{oracle_error}
use dlc_stack.Clients.Codec.{Bytes}
use dlc_stack.Clients.Ids.{hex_bytes}
use dlc_stack.Clients.Events.{event_table}
use dlc_stack.Api.Json.{index, lookup}
use dlc_stack.Attestor.Hex.{decode_hex-hex_bytes}
use dlc_stack.Attestor.Attest.{
  Lib, DbValue, OracleAnnouncement, OracleAttestation, digit_decomposition_event,
}
use dlc_stack.Attestor.Stored.{IsStored}
use dlc_stack.Attestor.Events.{
  Announcer, since, below, signed_event, created_value, build_announcement,
  generate_nonces_for_event, event_json, create_event, get_event,
}
use dlc_stack.Attestor.Events.Shown.{insert-IsStored, shown, get_event-shown}
use dlc_stack.Attestor.Client.{
  AttestorClient, Answer, returned, announcement_path, attestation_path, get_json, get_chain,
  get_announcement, get_attestation, text_of, read_announcement,
}
use dlc_stack.Attestor.Client as Client

-- The announcement is read as it was written, by attestor and client, and has a JSON text; `hex`
-- writes two lower-case digits for each byte.
pub record IsReadable (dep : Lib) (ann : Announcer) (lib : Client.Lib OracleAnnouncement)
    (a : OracleAnnouncement) : Type 0 where
  pub writes_hex : (b : Bytes) → ann.encode_hex b ≡ hex_bytes b
  pub reads : dep.read_announcement (ann.encode_announcement a) ≡ ok a
  pub client_reads : lib.read (ann.encode_announcement a) ≡ some a
  pub are_bytes : All (λ b. b < 256) (ann.encode_announcement a)
  pub text : String
  pub writes_json : ann.announcement_json a ≡ ok text

-- The same of an attestation, that the client reads.
pub record IsReadableAttestation (dep : Lib) (ann : Announcer) (lib : Client.Lib OracleAttestation)
    (a : OracleAttestation) : Type 0 where
  pub writes_hex : (b : Bytes) → ann.encode_hex b ≡ hex_bytes b
  pub client_reads : lib.read (dep.encode_attestation a) ≡ some a
  pub are_bytes : All (λ b. b < 256) (dep.encode_attestation a)

-- The value has a JSON form, which is read back, and base64 is.
pub record IsStorable (dep : Lib) (v : DbValue) (written : Bytes) : Type 0 where
  pub writes : dep.to_json v ≡ ok written
  pub reads : dep.from_json written ≡ ok v
  pub decodes : (b : Bytes) → dep.decode (dep.encode b) ≡ ok b

-- The announcement of an event, with the nonces that are drawn.
abbrev pub announced : Lib → Announcer → String → ℕ → OracleAnnouncement
announced dep ann uuid epoch = signed_event dep ann (record {
  oracle_nonces = map ann.nonce_point (map ann.sk_nonce (below 14));
  event_maturity_epoch = epoch;
  event_descriptor = digit_decomposition_event 14;
  event_id = uuid;
})

abbrev pub opened : Lib → Announcer → String → String → ℕ → DbValue
opened dep ann uuid chain epoch =
    created_value dep ann uuid chain (announced dep ann uuid epoch) (map ann.sk_nonce (below 14))

build_announcement-announced :
    (dep : Lib) (ann : Announcer) (uuid : String) (epoch : ℕ)
    → epoch < 2 ^ 32
    → build_announcement dep ann (since epoch) uuid
      ≡ ok (announced dep ann uuid epoch, map ann.sk_nonce (below 14))
unfolding build_announcement generate_nonces_for_event
build_announcement-announced dep ann uuid epoch fits =
    let small : ltb epoch (2 ^ 32) ≡ true = ground (arith, fits) in rw small refl

created-IsStored :
    (dep : Lib) (ann : Announcer) (uuid maturation chain : String) (epoch : ℕ) (written : Bytes)
    (t : Table Models.Event)
    → ann.unix_timestamp maturation ≡ some (since epoch)
    → epoch < 2 ^ 32
    → IsStorable dep (opened dep ann uuid chain epoch) written
    → ((create_event dep ann event_table uuid maturation chain t).0 ≡ ok tt)
      × IsStored dep uuid
          (opened dep ann uuid chain epoch)
          (create_event dep ann event_table uuid maturation chain t).1
unfolding create_event
created-IsStored dep ann uuid maturation chain epoch written t parsed fits form =
    let (inserted, stored) =
      insert-IsStored dep form.decodes uuid t (opened dep ann uuid chain epoch) written
        form.reads in
    rw (parsed, build_announcement-announced dep ann uuid epoch fits, form.writes, inserted)
      (refl, stored)

-- What the client makes of the fields of a shown event.
module _ (dep : Lib) (ann : Announcer) (v : DbValue) (a : OracleAnnouncement) (json : String)
    (c : AttestorClient) (uuid : String) where
  announcement_read :
      (lib : Client.Lib OracleAnnouncement)
      → IsReadable dep ann lib a
      → lib.fetch (announcement_path c.host uuid) ≡ ok (event_json (shown dep ann v a json))
      → v.announcement ≡ ann.encode_announcement a
      → get_announcement lib c uuid ≡ returned (ok a)
  unfolding get_announcement get_json text_of index lookup read_announcement
  announcement_read lib r served same =
      rw
        (
          served,
          same,
          r.writes_hex (ann.encode_announcement a),
          decode_hex-hex_bytes (ann.encode_announcement a) r.are_bytes,
          r.client_reads,
        )
        refl

  chain_read :
      (lib : Client.Lib OracleAnnouncement) (chain : String)
      → lib.fetch (announcement_path c.host uuid) ≡ ok (event_json (shown dep ann v a json))
      → v.chain ≡ some chain
      → get_chain lib c uuid ≡ ok chain
  unfolding get_chain get_json text_of index lookup
  chain_read lib chain served same = rw (served, same) refl

  unattested_read :
      (lib : Client.Lib OracleAttestation)
      → lib.fetch (attestation_path c.host uuid) ≡ ok (event_json (shown dep ann v a json))
      → v.attestation ≡ none
      → get_attestation lib c uuid
        ≡ returned (err (oracle_error (append "missing attestation for event " uuid)))
  unfolding get_attestation get_json text_of index lookup
  unattested_read lib served same = rw (served, same) refl

-- An event that an attestor creates, on the queries of the server, and then serves is read by the
-- manager's client: as the announcement that was signed, with the event's id and fourteen nonces,
-- and with the chain, and without an attestation. The maturation time is between 1970 and 2106, the
-- event can be stored and read back, its announcement is read as it was written.
pub create_event-get_announcement :
    (dep : Lib) (ann : Announcer) (announcements : Client.Lib OracleAnnouncement)
    (attestations : Client.Lib OracleAttestation) (c : AttestorClient)
    (uuid maturation chain : String) (epoch : ℕ) (written : Bytes) (t : Table Models.Event)
    → ann.unix_timestamp maturation ≡ some (since epoch)
    → epoch < 2 ^ 32
    → IsStorable dep (opened dep ann uuid chain epoch) written
    → IsReadable dep ann announcements (announced dep ann uuid epoch)
    → announcements.fetch (announcement_path c.host uuid)
      ≡ (get_event dep ann event_table uuid
          (create_event dep ann event_table uuid maturation chain t).1).0
    → attestations.fetch (attestation_path c.host uuid)
      ≡ (get_event dep ann event_table uuid
          (create_event dep ann event_table uuid maturation chain t).1).0
    → ((create_event dep ann event_table uuid maturation chain t).0 ≡ ok tt)
      × (get_announcement announcements c uuid ≡ returned (ok (announced dep ann uuid epoch)))
      × (get_chain announcements c uuid ≡ ok chain)
      × (get_attestation attestations c uuid
          ≡ returned (err (oracle_error (append "missing attestation for event " uuid))))
create_event-get_announcement dep ann announcements attestations c uuid maturation chain epoch
      written t parsed fits form readable fetched fetched' =
    let (created, stored) =
      created-IsStored dep ann uuid maturation chain epoch written t parsed fits form in
    let v = opened dep ann uuid chain epoch in
    let a = announced dep ann uuid epoch in
    let shows =
      ap (λ p. p.0)
        (get_event-shown dep ann uuid v a readable.text _ stored readable.reads
          readable.writes_json) in
    (
      created,
      announcement_read dep ann v a readable.text c uuid announcements readable (fetched ∙ shows)
          refl,
      chain_read dep ann v a readable.text c uuid announcements chain (fetched ∙ shows) refl,
      unattested_read dep ann v a readable.text c uuid attestations (fetched' ∙ shows) refl,
    )
