-- ===== src/Attestor/Events/Shown.antt =====
-- What an attestor shows of the events that it has stored.
use dlc_stack.Base.{
  String, ◌≡◌, refl, arith, Bool, false, none, some, List, [], ◌∷◌, ok, exists_in, find, inl, inr,
  Bool-cases, eq_refl,
}
use dlc_stack.Storage.Models
use dlc_stack.Storage.Sql.{Table, insert_into, put_row}
use dlc_stack.Storage.Sql.Reads.{find_of_exists, find-append}
use dlc_stack.Storage.Events as Queries
use dlc_stack.Clients.Codec.{Bytes}
use dlc_stack.Clients.Events.{
  event_table, get_event-find, update_event-present, find-updated, create_event,
}
use dlc_stack.Attestor.Attest.{Lib, DbValue, OracleAnnouncement, insert, get}
use dlc_stack.Attestor.Stored.{IsStored}
use dlc_stack.Attestor.Events.{
  Announcer, ApiOracleEvent, event_json, parse_database_entry, attestation_json, hex_of, get_event,
}

find-absent :
    {A : Type 0} (p : A → Bool) (rows : List A) → exists_in p rows ≡ false → find p rows ≡ none
find-absent p [] e = refl
find-absent p (r ∷ rows) e = elim (Bool-cases (p r)) [
  | inl b ↦ absurd (ground (arith, rw b at e))
  | inr b ↦ rw b (find-absent p rows (rw b at e))
]

create_event-absent :
    (new : Models.NewEvent) (t : Table Models.Event)
    → exists_in (Queries.is_event new.key new.event_id) t.rows ≡ false
    → create_event event_table new t
      ≡ (ok (Queries.row_of new t.next_id), put_row t (Queries.row_of new t.next_id))
unfolding create_event Queries.create_event insert_into
create_event-absent new t e = rw e refl

module _ (dep : Lib) (decodes : (b : Bytes) → dep.decode (dep.encode b) ≡ ok b) (uuid : String)
    (t : Table Models.Event) where
  abbrev Inserted : DbValue → Bytes → Type 0
  Inserted v bytes =
      ((insert dep event_table uuid bytes t).0 ≡ ok (some bytes))
      × IsStored dep uuid v (insert dep event_table uuid bytes t).1

  -- An event is stored whether or not it was there.
  pub insert-IsStored :
      (v : DbValue) (bytes : Bytes) → dep.from_json bytes ≡ ok v → Inserted v bytes
  unfolding insert
  insert-IsStored v bytes e =
      let present = exists_in (Queries.is_event dep.public_key uuid) t.rows in
      let u : Models.UpdateEvent = record {
        event_id = uuid;
        content = dep.encode bytes;
        key = dep.public_key;
      } in
      let new : Models.NewEvent = record {
        event_id = uuid;
        content = dep.encode bytes;
        key = dep.public_key;
      } in
      elim (Bool-cases present) [
        | inl b ↦
            let (r, found, _) = find_of_exists (Queries.is_event dep.public_key uuid) t.rows b in
            rw (get_event-find dep.public_key uuid t, found, update_event-present u t b)
              (
                refl,
                record {
                  row = Queries.changeset u r;
                  bytes = bytes;
                  found = find-updated u t r found;
                  content = decodes bytes;
                  parsed = e;
                },
              )
        | inr b ↦
            let absent = find-absent (Queries.is_event dep.public_key uuid) t.rows b in
            rw (get_event-find dep.public_key uuid t, absent, create_event-absent new t b)
              (
                refl,
                record {
                  row = Queries.row_of new t.next_id;
                  bytes = bytes;
                  found =
                      find-append (Queries.is_event dep.public_key uuid) t.rows
                        (Queries.row_of new t.next_id) b
                        (rw (eq_refl uuid, eq_refl dep.public_key) refl);
                  content = decodes bytes;
                  parsed = e;
                },
              )
      ]

-- What is shown of a value.
abbrev pub shown : (dep : Lib) → Announcer → DbValue → OracleAnnouncement → String → ApiOracleEvent
shown dep ann v a json = record {
  event_id = a.oracle_event.event_id;
  uuid = v.uuid;
  rust_announcement_json = json;
  rust_announcement = ann.encode_hex v.announcement;
  rust_attestation_json = attestation_json dep ann v.attestation;
  rust_attestation = hex_of dep ann v.attestation;
  maturation = ann.show_number a.oracle_event.event_maturity_epoch;
  outcome = v.outcome;
  chain = v.chain;
}

pub get_event-shown :
    (dep : Lib) (ann : Announcer) (uuid : String) (v : DbValue) (a : OracleAnnouncement)
    (json : String) (t : Table Models.Event)
    → IsStored dep uuid v t
    → dep.read_announcement v.announcement ≡ ok a
    → ann.announcement_json a ≡ ok json
    → get_event dep ann event_table uuid t ≡ (ok (event_json (shown dep ann v a json)), t)
unfolding get_event get parse_database_entry
get_event-shown dep ann uuid v a json t s announced written =
    rw (get_event-find dep.public_key uuid t, s.found, s.content, s.parsed, announced, written) refl
