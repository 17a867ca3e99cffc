-- ===== src/Attestor/Tests.antt =====
-- An oracle of one-digit events.
use dlc_stack.Base.{
  ℕ, String, ◌≡◌, refl, sym, ap, ◌∙◌, arith, ◌&&◌, Option, none, some, List, [], ◌∷◌, ◌<◌, Result,
  ok, err, ◌==◌, eq_iff, inl, inr, Bool-cases, if◌then◌else◌, length, map, ok-injective,
}
use dlc_stack.Clients.Unary.{encode, decode, decode-encode}
use dlc_stack.Storage.Models
use dlc_stack.Storage.Sql.{Table}
use dlc_stack.Clients.Codec.{Bytes}
use dlc_stack.Clients.Events.{event_table}
use dlc_stack.Attestor.Digits.{padded_binary, number_from}
use dlc_stack.Attestor.Attest.{
  Lib, DbValue, OracleAnnouncement, digit_decomposition_event, digit_text, build_attestation,
  outcomes_of, attested, attest,
}
use dlc_stack.Attestor.Stored.{
  IsLawful, IsStored, IsOpen, build_attestation-IsComplete, attest-attest,
}

abbrev pub value : String → String → Option Bytes → Option ℕ → DbValue
value nonce uuid attestation outcome = record {
  outstanding_sk_nonces = some (nonce ∷ []);
  announcement = [];
  attestation = attestation;
  outcome = outcome;
  uuid = uuid;
  chain = none;
}

-- A form for the values of one event.
abbrev outcome_bytes : Option Bytes → Option ℕ → Result String Bytes
outcome_bytes none none = ok []
outcome_bytes (some []) (some n) = ok (n ∷ [])
outcome_bytes _ _ = err "unsupported"

abbrev form :
    Option (List String)
    → Bytes
    → Option Bytes
    → Option ℕ
    → String
    → Option String
    → Result String Bytes
form none announcement a o uuid chain = err "unsupported"
form (some []) announcement a o uuid chain = err "unsupported"
form (some (nonce ∷ other ∷ rest)) announcement a o uuid chain = err "unsupported"
form (some (nonce ∷ [])) (b ∷ bs) a o uuid chain = err "unsupported"
form (some (nonce ∷ [])) [] a o uuid (some c) = err "unsupported"
form (some (nonce ∷ [])) [] a o uuid none =
    if nonce == "k" && uuid == "e" then outcome_bytes a o else err "unsupported"

abbrev value_of : Bytes → DbValue
value_of [] = value "k" "e" none none
value_of (n ∷ rest) = value "k" "e" (some []) (some n)

value_of-outcome_bytes :
    (a : Option Bytes) (o : Option ℕ) (bytes : Bytes)
    → outcome_bytes a o ≡ ok bytes
    → value_of bytes ≡ value "k" "e" a o
value_of-outcome_bytes none none bytes e = ap value_of (sym (ok-injective {E = String} [] bytes e))
value_of-outcome_bytes none (some n) bytes e = absurd (ground (arith, e))
value_of-outcome_bytes (some []) none bytes e = absurd (ground (arith, e))
value_of-outcome_bytes (some []) (some n) bytes e =
    ap value_of (sym (ok-injective {E = String} (n ∷ []) bytes e))
value_of-outcome_bytes (some (b ∷ bs)) none bytes e = absurd (ground (arith, e))
value_of-outcome_bytes (some (b ∷ bs)) (some n) bytes e = absurd (ground (arith, e))

value_of-form :
    (ns : Option (List String)) (announcement : Bytes) (a : Option Bytes) (o : Option ℕ)
    (uuid : String) (chain : Option String) (bytes : Bytes)
    → form ns announcement a o uuid chain ≡ ok bytes
    → value_of bytes ≡ record {
      outstanding_sk_nonces = ns;
      announcement = announcement;
      attestation = a;
      outcome = o;
      uuid = uuid;
      chain = chain;
    }
value_of-form none announcement a o uuid chain bytes e = absurd (ground (arith, e))
value_of-form (some []) announcement a o uuid chain bytes e = absurd (ground (arith, e))
value_of-form (some (nonce ∷ other ∷ rest)) announcement a o uuid chain bytes e =
    absurd (ground (arith, e))
value_of-form (some (nonce ∷ [])) (b ∷ bs) a o uuid chain bytes e = absurd (ground (arith, e))
value_of-form (some (nonce ∷ [])) [] a o uuid (some c) bytes e = absurd (ground (arith, e))
value_of-form (some (nonce ∷ [])) [] a o uuid none bytes e =
    elim (Bool-cases (nonce == "k" && uuid == "e")) [
      | inl b ↦
          let same_nonce : nonce ≡ "k" = (eq_iff nonce "k").0 (ground (arith, b)) in
          let same_uuid : uuid ≡ "e" = (eq_iff uuid "e").0 (ground (arith, b)) in
          value_of-outcome_bytes a o bytes (rw b at e)
          ∙ ap (λ n. value n "e" a o) (sym same_nonce)
          ∙ ap (λ u. value nonce u a o) (sym same_uuid)
      | inr b ↦ absurd (ground (arith, rw b at e))
    ]

abbrev one_digit : OracleAnnouncement
one_digit = record {
  oracle_event = record {
    oracle_nonces = [];
    event_maturity_epoch = 0;
    event_descriptor = digit_decomposition_event 1;
    event_id = "e";
  };
  oracle_public_key = "oracle";
  announcement_signature = "";
}

-- The only content of a row is the form of a value, in place of base64.
abbrev pub dep : Lib
dep = record {
  public_key = "02aa";
  oracle_public_key = "oracle";
  schnorrsig_sign_with_nonce = λ digit nonce. nonce;
  read_announcement = λ b. ok one_digit;
  encode_attestation = λ a. [];
  to_json = λ v. form v.outstanding_sk_nonces v.announcement v.attestation v.outcome v.uuid v.chain;
  from_json = λ b. ok (value_of b);
  encode = encode;
  decode = λ s. ok (decode s);
  show_error = λ e. "error";
}

pub dep-IsLawful : IsLawful dep
dep-IsLawful = record {
  reads_back = λ v bytes e. ap ok (value_of-form _ _ _ _ _ _ bytes e);
  decodes = λ b. ap ok (decode-encode b);
}

abbrev pub opened : Table Models.Event
opened = record {
  rows = (record { id = 1; event_id = "e"; content = encode []; key = "02aa" }) ∷ [];
  next_id = 2;
}

pub opened-IsStored : IsStored dep "e" (value "k" "e" none none) opened
opened-IsStored = record {
  row = _;
  bytes = [];
  found = refl;
  content = ap ok (decode-encode []);
  parsed = refl;
}

pub opened-IsOpen : IsOpen dep (value "k" "e" none none) ("k" ∷ []) 1
opened-IsOpen = record { announcement = _; has_nonces = refl; announced = refl; digits = refl }

attest-attest_example :
    let first_value = attested dep (value "k" "e" none none) ("k" ∷ []) 1 1 in
    let second_value = attested dep first_value ("k" ∷ []) 1 0 in
    let t' = (attest dep event_table "e" 1 opened).1 in
    ((attest dep event_table "e" 1 opened).0 ≡ ok tt)
    × IsStored dep "e" first_value t'
    × ((attest dep event_table "e" 0 t').0 ≡ ok tt)
    × IsStored dep "e" second_value (attest dep event_table "e" 0 t').1
unfolding attested
attest-attest_example =
    attest-attest dep "e" (value "k" "e" none none) ("k" ∷ []) 1 1 0 (1 ∷ []) (0 ∷ []) opened
      dep-IsLawful opened-IsStored opened-IsOpen refl refl

build_attestation-IsComplete_example :
    let signed = build_attestation dep ("a" ∷ "b" ∷ "c" ∷ []) (outcomes_of dep 3 5) in
    let cut = build_attestation dep ("a" ∷ "b" ∷ "c" ∷ []) (outcomes_of dep 3 9) in
    (length signed.outcomes ≡ 3)
    × (length signed.signatures ≡ 3)
    × (signed.outcomes ≡ map digit_text (padded_binary 3 5))
    × (number_from 0 (padded_binary 3 5) ≡ 5)
    × (length cut.signatures < length cut.outcomes)
build_attestation-IsComplete_example =
    build_attestation-IsComplete dep ("a" ∷ "b" ∷ "c" ∷ []) 2 5 9 refl (omega arith) (omega arith)
