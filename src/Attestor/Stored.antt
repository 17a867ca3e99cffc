-- ===== src/Attestor/Stored.antt =====
-- What an attestation leaves in the event store, when the server runs its own queries.
use dlc_stack.Base.{
  ℕ, suc, ◌≤◌, ◌<◌, String, ◌≡◌, refl, sym, ap, ◌∙◌, arith, true, some, List, [], ◌∷◌, ok,
  exists_in, find, length, map,
}
use dlc_stack.Storage.Models
use dlc_stack.Storage.Sql.{Table}
use dlc_stack.Storage.Sql.Reads.{exists_of_find}
use dlc_stack.Storage.Events
use dlc_stack.Clients.Codec.{Bytes}
use dlc_stack.Clients.Events.{event_table, get_event-find, update_event-present, find-updated}
use dlc_stack.Attestor.Digits.{
  padded_binary, pow2, number_from, number_from-padded_binary, length-padded_binary_fits,
  length-padded_binary_exceeds,
}
use dlc_stack.Attestor.Attest.{
  Lib, DbValue, OracleAnnouncement, decoded, digit_decomposition_event, digit_text, signatures_of,
  build_attestation, outcomes_of, attested, insert, get, stored_event, attest,
}

-- JSON and base64 are read back as they were written.
pub record IsLawful (dep : Lib) : Type 0 where
  pub reads_back :
      (v : DbValue) (bytes : Bytes) → dep.to_json v ≡ ok bytes → dep.from_json bytes ≡ ok v
  pub decodes : (b : Bytes) → dep.decode (dep.encode b) ≡ ok b

-- The row of the event holds this value.
pub record IsStored (dep : Lib) (uuid : String) (v : DbValue) (t : Table Models.Event)
    : Type 0 where
  pub row : Models.Event
  pub bytes : Bytes
  pub found : find (Events.is_event dep.public_key uuid) t.rows ≡ some row
  pub content : dep.decode row.content ≡ ok bytes
  pub parsed : dep.from_json bytes ≡ ok v

-- The value is that of an event for digits, with its nonces.
pub record IsOpen (dep : Lib) (v : DbValue) (nonces : List String) (width : ℕ) : Type 0 where
  pub announcement : OracleAnnouncement
  pub has_nonces : v.outstanding_sk_nonces ≡ some nonces
  pub announced : dep.read_announcement v.announcement ≡ ok announcement
  pub digits : announcement.oracle_event.event_descriptor ≡ digit_decomposition_event width

module _ (dep : Lib) (law : IsLawful dep) (uuid : String) (t : Table Models.Event) where
  present :
      (v : DbValue)
      → IsStored dep uuid v t
      → exists_in (Events.is_event dep.public_key uuid) t.rows ≡ true
  present v s = exists_of_find (Events.is_event dep.public_key uuid) t.rows s.row s.found

  insert-IsStored :
      (v new : DbValue) (bytes : Bytes)
      → IsStored dep uuid v t
      → dep.from_json bytes ≡ ok new
      → IsStored dep uuid new (insert dep event_table uuid bytes t).1
  unfolding insert
  insert-IsStored v new bytes s e =
      let u : Models.UpdateEvent = record {
        event_id = uuid;
        content = dep.encode bytes;
        key = dep.public_key;
      } in
      rw (get_event-find dep.public_key uuid t, s.found, update_event-present u t (present v s))
        (record {
          row = Events.changeset u s.row;
          bytes = bytes;
          found = find-updated u t s.row s.found;
          content = law.decodes bytes;
          parsed = e;
        })

  get_of_IsStored :
      (v : DbValue) (s : IsStored dep uuid v t)
      → get dep event_table uuid t ≡ (ok (some s.bytes), t)
  unfolding get
  get_of_IsStored v s =
      rw (get_event-find dep.public_key uuid t, s.found) (ap (λ r. (decoded r, t)) s.content)

  pub attest-IsStored :
      (v : DbValue) (nonces : List String) (width outcome : ℕ) (bytes : Bytes)
      → IsStored dep uuid v t
      → IsOpen dep v nonces width
      → dep.to_json (attested dep v nonces width outcome) ≡ ok bytes
      → ((attest dep event_table uuid outcome t).0 ≡ ok tt)
        × IsStored dep uuid
            (attested dep v nonces width outcome)
            (attest dep event_table uuid outcome t).1
  unfolding attest stored_event
  attest-IsStored v nonces width outcome bytes s o written =
      let open_value : DbValue = record v { outstanding_sk_nonces = some nonces } in
      let same_value : attested dep v nonces width outcome
          ≡ attested dep open_value nonces width outcome =
        ap (λ n. attested dep (record v { outstanding_sk_nonces = n }) nonces width outcome)
          o.has_nonces in
      let written_open : dep.to_json (attested dep open_value nonces width outcome) ≡ ok bytes =
        sym (ap dep.to_json same_value) ∙ written in
      rw (get_of_IsStored v s, s.parsed, o.has_nonces, o.announced, o.digits, written_open)
        (
          refl,
          insert-IsStored v (attested dep open_value nonces width outcome) bytes s
              (law.reads_back _ bytes written_open),
        )

length-map_text : (f : ℕ → String) (ds : List ℕ) → length (map f ds) ≡ length ds
length-map_text f [] = refl
length-map_text f (d ∷ ds) = ap suc (length-map_text f ds)

-- There is one signature for each digit that has a nonce.
length_signatures-le :
    (dep : Lib) (xs ns : List String) → length (signatures_of dep xs ns) ≤ length ns
unfolding signatures_of
length_signatures-le dep [] ns = omega arith
length_signatures-le dep (x ∷ xs) [] = omega arith
length_signatures-le dep (x ∷ xs) (n ∷ ns) = omega (arith, length_signatures-le dep xs ns)

length_signatures-all :
    (dep : Lib) (xs ns : List String)
    → length xs ≤ length ns
    → length (signatures_of dep xs ns) ≡ length xs
unfolding signatures_of
length_signatures-all dep [] ns h = refl
length_signatures-all dep (x ∷ xs) [] h = absurd (omega (arith, h))
length_signatures-all dep (x ∷ xs) (n ∷ ns) h =
    omega (arith, h, length_signatures-all dep xs ns (omega (arith, h)))

-- The attestation of an outcome that fits the digits of its event, each with a nonce, has one
-- signature for every digit, and the digits write the outcome; of an outcome that does not fit there
-- are more digits than signatures.
pub build_attestation-IsComplete :
    (dep : Lib) (nonces : List String) (w fitting exceeding : ℕ)
    → length nonces ≡ suc w
    → fitting < pow2 (suc w)
    → pow2 (suc w) ≤ exceeding
    → let signed = build_attestation dep nonces (outcomes_of dep (suc w) fitting) in
      let cut = build_attestation dep nonces (outcomes_of dep (suc w) exceeding) in
      (length signed.outcomes ≡ suc w)
      × (length signed.signatures ≡ suc w)
      × (signed.outcomes ≡ map digit_text (padded_binary (suc w) fitting))
      × (number_from 0 (padded_binary (suc w) fitting) ≡ fitting)
      × (length cut.signatures < length cut.outcomes)
unfolding build_attestation outcomes_of
build_attestation-IsComplete dep nonces w fitting exceeding enough fits exceeds =
    let texts = map digit_text (padded_binary (suc w) fitting) in
    let long = map digit_text (padded_binary (suc w) exceeding) in
    let all_digits : length texts ≡ suc w =
      length-map_text digit_text (padded_binary (suc w) fitting)
      ∙ length-padded_binary_fits w fitting fits in
    (
      all_digits,
      length_signatures-all dep texts nonces (omega (arith, all_digits, enough)) ∙ all_digits,
      refl,
      number_from-padded_binary (suc w) fitting,
      omega (
        arith,
        enough,
        length_signatures-le dep long nonces,
        length-map_text digit_text (padded_binary (suc w) exceeding),
        length-padded_binary_exceeds (suc w) exceeding exceeds,
      ),
    )

module _ (dep : Lib) (v : DbValue) (nonces : List String) (width outcome : ℕ) where
  IsOpen-attested :
      IsOpen dep v nonces width → IsOpen dep (attested dep v nonces width outcome) nonces width
  unfolding attested
  IsOpen-attested o = record {
    announcement = o.announcement;
    has_nonces = o.has_nonces;
    announced = o.announced;
    digits = o.digits;
  }

-- When the store runs the queries of the server, and JSON and base64 are read back as they were
-- written, an event that has been attested is attested again, with any outcome and the same
-- nonces: after the first call the store holds the attestation of x, after the second that of y.
pub attest-attest :
    (dep : Lib) (uuid : String) (v : DbValue) (nonces : List String) (width x y : ℕ)
    (bytes bytes' : Bytes) (t : Table Models.Event)
    → let first_value = attested dep v nonces width x in
      let second_value = attested dep first_value nonces width y in
      let t' = (attest dep event_table uuid x t).1 in
      IsLawful dep
      → IsStored dep uuid v t
      → IsOpen dep v nonces width
      → dep.to_json first_value ≡ ok bytes
      → dep.to_json second_value ≡ ok bytes'
      → ((attest dep event_table uuid x t).0 ≡ ok tt)
        × IsStored dep uuid first_value t'
        × ((attest dep event_table uuid y t').0 ≡ ok tt)
        × IsStored dep uuid second_value (attest dep event_table uuid y t').1
attest-attest dep uuid v nonces width x y bytes bytes' t law s o written written' =
    let (answered, stored) = attest-IsStored dep law uuid t v nonces width x bytes s o written in
    let (answered_again, stored_again) =
      attest-IsStored dep law uuid _ (attested dep v nonces width x) nonces width y bytes' stored
        (IsOpen-attested dep v nonces width x o) written' in
    (answered, stored, answered_again, stored_again)
