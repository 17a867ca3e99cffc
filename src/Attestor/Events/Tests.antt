-- ===== src/Attestor/Events/Tests.antt =====
-- One event that is created, attested and read again.
use Prim.Native.String.{◌++◌ as append}
use dlc_stack.Base.{◌≡◌, refl, ap, arith, some, [], ◌∷◌, ok, err}
use dlc_stack.Storage.Models
use dlc_stack.Storage.Sql.{Table}
use dlc_stack.Manager.Types.{oracle_error}
use dlc_stack.Clients.Unary.{decode-encode}
use dlc_stack.Clients.Ids.{hex_bytes}
use dlc_stack.Clients.Events.{event_table}
use dlc_stack.Attestor.Attest.{
  Lib, OracleAnnouncement, OracleAttestation, build_attestation, outcomes_of, attest,
}
use dlc_stack.Attestor.Hex.{bytes, decode_hex, decode_hex-hex_bytes}
use dlc_stack.Attestor.Events.{Announcer, since, create_event, get_event}
use dlc_stack.Attestor.Events.Fetched.{announced, opened, create_event-get_announcement}
use dlc_stack.Attestor.Client.{
  AttestorClient, returned, panicked, get_announcement, get_chain, get_attestation, ends_with_slash,
  new,
}
use dlc_stack.Attestor.Client as Client
use dlc_stack.Attestor.Tests as Signing

abbrev ann : Announcer
ann = record {
  unix_timestamp = λ s. some (since 1700000000);
  sk_nonce = λ n. "k";
  nonce_point = λ k. "K";
  sign_schnorr = λ e. "sig";
  encode_announcement = λ a. 171 ∷ 1 ∷ [];
  encode_hex = hex_bytes;
  announcement_json = λ a. ok "{}";
  read_attestation = λ b. err "unused";
  show_attestation = λ a. "";
  show_number = λ n. "1700000000";
}

-- The announcement and the value do not depend on the readers.
abbrev unread : Lib
unread = Signing.dep

abbrev first_announcement : OracleAnnouncement
first_announcement = announced unread ann "e" 1700000000

abbrev dep : Lib
dep = record unread {
  read_announcement = λ b. ok first_announcement;
  to_json = λ v. ok [];
  from_json = λ b. ok (opened unread ann "e" "ethereum" 1700000000);
}

abbrev client : AttestorClient
client = record { host = "http://attestor/"; public_key = "oracle" }

abbrev no_events : Table Models.Event
no_events = record { rows = []; next_id = 1 }

abbrev over : {A : Type 0} → A → Lib → Table Models.Event → Client.Lib A
over a d t = record {
  get_text = λ path. ok "oracle";
  fetch = λ path. (get_event d ann event_table "e" t).0;
  parse_key = λ s. some s;
  read = λ b. some a;
  show_error = λ e. "error";
  show_hex_error = λ e. "error";
}

abbrev made : Table Models.Event
made = (create_event dep ann event_table "e" "2023-11-14T22:13:20Z" "ethereum" no_events).1

abbrev announcements : Client.Lib OracleAnnouncement
announcements = over first_announcement dep made

abbrev one_attestation : OracleAttestation
one_attestation = build_attestation Signing.dep ("k" ∷ []) (outcomes_of Signing.dep 1 1)

create_event-get_announcement_example :
    ((create_event dep ann event_table "e" "2023-11-14T22:13:20Z" "ethereum" no_events).0 ≡ ok tt)
    × (get_announcement announcements client "e" ≡ returned (ok first_announcement))
    × (get_chain announcements client "e" ≡ ok "ethereum")
    × (get_attestation (over one_attestation dep made) client "e"
        ≡ returned (err (oracle_error (append "missing attestation for event " "e"))))
create_event-get_announcement_example =
    create_event-get_announcement dep ann announcements (over one_attestation dep made) client "e"
      "2023-11-14T22:13:20Z" "ethereum" 1700000000 [] no_events refl (omega arith)
      (record { writes = refl; reads = refl; decodes = λ b. ap ok (decode-encode b) })
      (record {
        writes_hex = λ b. refl;
        reads = refl;
        client_reads = refl;
        are_bytes = (omega arith, (omega arith, tt));
        text = "{}";
        writes_json = refl;
      })
      refl refl

abbrev attested_table : Table Models.Event
attested_table = (attest Signing.dep event_table "e" 1 Signing.opened).1

decode_hex-hex_bytes_example : decode_hex (hex_bytes (171 ∷ 1 ∷ [])) ≡ bytes (171 ∷ 1 ∷ [])
decode_hex-hex_bytes_example = decode_hex-hex_bytes (171 ∷ 1 ∷ []) (omega arith, (omega arith, tt))
