-- ===== src/Clients/Provider/Stored.antt =====
-- A contract that the provider has stored is the one that it reads back, when the server runs its
-- own queries.
use dlc_stack.Base.{
  String, ◌≡◌, refl, ap, ◌∙◌, arith, true, ◌||◌, some, ok, exists_in, find, eq_refl, inl, inr,
  Bool-cases,
}
use dlc_stack.Manager.Types.{Contract}
use dlc_stack.Storage.Models
use dlc_stack.Storage.Sql.{Table, set_where}
use dlc_stack.Storage.Sql.Reads.{find_of_exists, find-set_where, find-append, apply_to}
use dlc_stack.Storage.Contracts
use dlc_stack.Clients.Ids.{get_contract_id_string}
use dlc_stack.Clients.Codec.{Bytes, serialize_contract, get_contract_state_str}
use dlc_stack.Clients.Codec.Roundtrip.{AllReadBack, deserialize_of_serialized}
use dlc_stack.Clients.Api.{tables}
use dlc_stack.Clients.Provider.{
  Lib, decode_content, get_contract, update_or_create, update_only, update_contract,
  replaces_temporary, contract_update, new_contract, delete_contract,
}
use dlc_stack.Clients.Provider.Rows.{
  named, get_contract-find, update_contract-present, update_contract-absent, create_contract-absent,
}

-- base64 and the forms of the states are read back as they were written.
pub record IsLawful (dep : Lib) : Type 0 where
  pub reads_back : AllReadBack dep.serializers
  pub decodes : (b : Bytes) → dep.decode (dep.encode b) ≡ ok b

module _ (dep : Lib) (key : String) (c : Contract) (bytes : Bytes) where
  abbrev uuid : String
  uuid = get_contract_id_string (dep.get_id c)

  -- The first row under the key and id of the contract holds its bytes.
  abbrev Holds : Table Models.Contract → Type 0
  Holds t =
      (r : Models.Contract) × (find (named key uuid) t.rows ≡ some r)
      × (r.content ≡ dep.encode bytes)

  get_contract_of_Holds :
      (t : Table Models.Contract)
      → IsLawful dep
      → serialize_contract dep.serializers c ≡ ok bytes
      → Holds t
      → get_contract dep tables key (dep.get_id c) t ≡ (ok (some c), t)
  unfolding get_contract decode_content
  get_contract_of_Holds t law e (r, found, content) =
      rw
        (
          get_contract-find key uuid t,
          found,
          content,
          law.decodes bytes,
          deserialize_of_serialized dep.serializers c bytes law.reads_back e,
        )
        refl

  changed-IsNamed :
      (r : Models.Contract)
      → named key uuid r ≡ true
      → named key uuid (Contracts.changeset (contract_update dep tables key c bytes) r) ≡ true
  changed-IsNamed r e = rw (eq_refl uuid, eq_refl key) refl

  -- What is written and returned when the row is there, and when it is not.
  module _ (t : Table Models.Contract) where
    Holds-updated :
        exists_in (named key uuid) t.rows ≡ true
        → Holds (record t {
          rows =
              set_where
                (named key uuid)
                (Contracts.changeset (contract_update dep tables key c bytes))
                t.rows;
        })
    Holds-updated e =
        let (r, found, _) = find_of_exists (named key uuid) t.rows e in
        let u = contract_update dep tables key c bytes in
        (
          Contracts.changeset u r,
          find-set_where (named key uuid) (Contracts.changeset u) t.rows changed-IsNamed
              ∙ ap (apply_to (named key uuid) (Contracts.changeset u)) found,
          refl,
        )

    update_only-Holds :
        exists_in (named key uuid) t.rows ≡ true
        → ((update_only dep tables key c bytes t).0 ≡ ok tt)
          × Holds (update_only dep tables key c bytes t).1
    unfolding update_only
    update_only-Holds e =
        rw (update_contract-present (contract_update dep tables key c bytes) t e)
          (refl, Holds-updated e)

    update_or_create-Holds :
        ((update_or_create dep tables key c bytes t).0 ≡ ok tt)
        × Holds (update_or_create dep tables key c bytes t).1
    unfolding update_or_create
    update_or_create-Holds =
        let u = contract_update dep tables key c bytes in
        let new = new_contract dep tables key (dep.get_id c) (get_contract_state_str c) bytes in
        elim (Bool-cases (exists_in (named key uuid) t.rows)) [
          | inl e ↦ rw (update_contract-present u t e) (refl, Holds-updated e)
          | inr e ↦
              rw (update_contract-absent u t e, create_contract-absent new t e)
                (
                  refl,
                  (
                    Contracts.row_of new t.next_id,
                    find-append (named key uuid) t.rows (Contracts.row_of new t.next_id) e
                        (rw (eq_refl uuid, eq_refl key) refl),
                    refl,
                  ),
                )
        ]

  update_contract-Holds :
      (t : Table Models.Contract)
      → serialize_contract dep.serializers c ≡ ok bytes
      → (replaces_temporary c || exists_in (named key uuid) t.rows) ≡ true
      → ((update_contract dep tables key c t).0 ≡ ok tt)
        × Holds (update_contract dep tables key c t).1
  unfolding update_contract
  update_contract-Holds t e known = elim (Bool-cases (replaces_temporary c)) [
    | inl b ↦
        rw (b, e)
          (update_or_create-Holds (delete_contract dep tables key (dep.get_temporary_id c) t).1)
    | inr b ↦ rw (b, e) (update_only-Holds t (ground (arith, b, known)))
  ]

-- When the server runs its queries, and base64 and the forms of the states are read back as they
-- were written: storing a contract that can be serialized succeeds if it is accepted or signed, or
-- a row of its id is there; the contract is then read back under its id as it was stored.
pub update_contract-get_contract :
    (dep : Lib) (key : String) (c : Contract) (bytes : Bytes) (t : Table Models.Contract)
    → IsLawful dep
    → serialize_contract dep.serializers c ≡ ok bytes
    → (replaces_temporary c || exists_in (named key (get_contract_id_string (dep.get_id c))) t.rows)
      ≡ true
    → let (r, t') = update_contract dep tables key c t in
      (r ≡ ok tt) × (get_contract dep tables key (dep.get_id c) t' ≡ (ok (some c), t'))
update_contract-get_contract dep key c bytes t law e known =
    let (stored, holds) = update_contract-Holds dep key c bytes t e known in
    (stored, get_contract_of_Holds dep key c bytes _ law e holds)
