-- ===== src/Clients/Tests.antt =====
-- A provider whose libraries write offers of one peer without contract infos.
use dlc_stack.Base.{
  some, String, ◌≡◌, ◌≢◌, ℕ, ◌<◌, refl, sym, ap, arith, List, [], ◌∷◌, Result, ok, err, inl, inr,
  Bool-cases, if◌then◌else◌, ◌==◌, eq_iff, ok-injective,
}
use dlc_stack.Manager.Types.{ContractId, ContractInfo, OfferedContract, Contract, offered}
use dlc_stack.Storage.Models
use dlc_stack.Clients.Unary.{encode, decode, decode-encode}
use dlc_stack.Storage.Sql.{Table}
use dlc_stack.Clients.Ids.{get_contract_id_string, get_contract_id_string-injective, hex_bytes}
use dlc_stack.Clients.Codec.{
  Bytes, Serializable, Serializers, serialize_contract, deserialize_contract, get_prefix, try_from,
}
use dlc_stack.Clients.Codec.Roundtrip.{
  AllReadBack, ReadsBack, deserialize_contract-serialize_contract,
}
use dlc_stack.Clients.Api.{tables}
use dlc_stack.Clients.Provider.{Lib, get_contract, update_contract}
use dlc_stack.Clients.Provider.Others.{update_contract-keeps_others}
use dlc_stack.Clients.Provider.Stored.{IsLawful, update_contract-get_contract}

abbrev without_infos : List ContractInfo → Bytes → Result String Bytes
without_infos [] id = ok id
without_infos (i ∷ is) id = err "unsupported"

abbrev offers : Serializable OfferedContract
offers = record {
  serialize = λ c.
      if c.counter_party == "bob" then without_infos c.contract_info c.id else err "unsupported";
  deserialize = λ b. ok (record { id = b; counter_party = "bob"; contract_info = [] });
}

abbrev no_form : {A : Type 0} → Serializable A
no_form = record { serialize = λ c. err "unsupported"; deserialize = λ b. err "unsupported" }

abbrev forms : Serializers
forms = record {
  offered = offers;
  accepted = no_form;
  signed = no_form;
  pre_closed = no_form;
  closed = no_form;
  failed_accept = no_form;
  failed_sign = no_form;
}

offers-ReadsBack : ReadsBack offers
offers-ReadsBack c bytes e = elim (Bool-cases (c.counter_party == "bob")) [
  | inl b ↦ from_bob c.contract_info refl (sym ((eq_iff c.counter_party "bob").0 b)) (rw b at e)
  | inr b ↦ absurd (ground (arith, rw b at e))
]
  where
    from_bob :
        (infos : List ContractInfo)
        → c.contract_info ≡ infos
        → "bob" ≡ c.counter_party
        → without_infos infos c.id ≡ ok bytes
        → offers.deserialize bytes ≡ ok c
    from_bob [] none_left bob written =
        ap ok (cc (ok-injective {E = String} c.id bytes written, none_left, bob))
    from_bob (i ∷ is) none_left bob written = absurd (ground (arith, written))

no_form-ReadsBack : {A : Type 0} → ReadsBack (no_form {A = A})
no_form-ReadsBack c bytes e = absurd (ground (arith, e))

forms-ReadBack : AllReadBack forms
forms-ReadBack = record {
  offered = offers-ReadsBack;
  accepted = no_form-ReadsBack;
  signed = no_form-ReadsBack;
  pre_closed = no_form-ReadsBack;
  closed = no_form-ReadsBack;
  failed_accept = no_form-ReadsBack;
  failed_sign = no_form-ReadsBack;
}

abbrev pub dep : Lib
dep = record {
  encode = encode;
  decode = λ s. ok (decode s);
  serializers = forms;
  get_id = λ c. 7 ∷ [];
  get_temporary_id = λ c. 8 ∷ [];
  show_error = λ e. "error";
  show_status = λ n. "400";
}

pub dep-IsLawful : IsLawful dep
dep-IsLawful = record { reads_back = forms-ReadBack; decodes = λ b. ap ok (decode-encode b) }

abbrev pub offer : Contract
offer = offered (record { id = 5 ∷ 250 ∷ []; counter_party = "bob"; contract_info = [] })

-- A table that has a row for the contract.
abbrev pub stored : Table Models.Contract
stored = record {
  rows =
      (record { id = 1; uuid = "0x07"; state = "offered"; content = "old"; key = "02aa" })
      ∷ (record { id = 2; uuid = "0x09"; state = "signed"; content = "other"; key = "02aa" })
      ∷ [];
  next_id = 3;
}

pub seven : get_contract_id_string (7 ∷ []) ≡ "0x07"
unfolding get_contract_id_string hex_bytes
seven = refl

update_contract-get_contract_example :
    let (r, t') = update_contract dep tables "02aa" offer stored in
    (r ≡ ok tt) × (get_contract dep tables "02aa" (7 ∷ []) t' ≡ (ok (some offer), t'))
unfolding serialize_contract get_prefix
update_contract-get_contract_example =
    update_contract-get_contract dep "02aa" offer (1 ∷ 5 ∷ 250 ∷ []) stored dep-IsLawful refl
      (rw seven refl)

deserialize_contract-serialize_contract_example :
    (deserialize_contract forms (1 ∷ 5 ∷ 250 ∷ []) ≡ ok offer) × (get_prefix offer ≡ 1)
unfolding serialize_contract deserialize_contract get_prefix try_from
deserialize_contract-serialize_contract_example =
    deserialize_contract-serialize_contract forms offer offer (1 ∷ 5 ∷ 250 ∷ []) (5 ∷ 250 ∷ []) 1
      forms-ReadBack refl refl

abbrev five : ContractId
five = 5 ∷ 250 ∷ []

get_contract_id_string-injective_example : five ≡ five
get_contract_id_string-injective_example =
    get_contract_id_string-injective five five (omega arith, (omega arith, tt))
      (omega arith, (omega arith, tt)) refl

bytes_differ :
    (m n : ℕ)
    → m < 256
    → n < 256
    → m ≢ n
    → get_contract_id_string (m ∷ []) ≢ get_contract_id_string (n ∷ [])
bytes_differ m n small_m small_n differ same =
    let ids = get_contract_id_string-injective (m ∷ []) (n ∷ []) (small_m, tt) (small_n, tt) same in
    ground (arith, ids, differ)

update_contract-keeps_others_example :
    let t' = (update_contract dep tables "02aa" offer stored).1 in
    (get_contract dep tables "02aa" (9 ∷ []) t').0
    ≡ (get_contract dep tables "02aa" (9 ∷ []) stored).0
update_contract-keeps_others_example =
    update_contract-keeps_others dep "02aa" offer (9 ∷ []) stored
      (bytes_differ 7 9 (omega arith) (omega arith) (omega arith))
      (bytes_differ 8 9 (omega arith) (omega arith) (omega arith))
