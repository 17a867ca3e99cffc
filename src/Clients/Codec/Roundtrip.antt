-- ===== src/Clients/Codec/Roundtrip.antt =====
-- A contract is read back as it was written, and in the state that its first byte names.
use dlc_stack.Base.{
  ℕ, String, ◌≡◌, refl, sym, ap, ◌∙◌, arith, List, [], ◌∷◌, ok, ok_of_bind, ok-injective, nat_eq,
  Bool-cases, inl, inr,
}
use dlc_stack.Manager.Types.{
  Error, Contract, offered, accepted, signed, confirmed, refunded, pre_closed, closed,
  failed_accept, failed_sign, rejected,
}
use dlc_stack.Clients.Codec.{
  Bytes, Serializable, Serializers, ContractPrefix, offered_prefix, accepted_prefix, signed_prefix,
  confirmed_prefix, pre_closed_prefix, closed_prefix, failed_accept_prefix, failed_sign_prefix,
  refunded_prefix, rejected_prefix, u8_from, prefixes, first_match, try_from, prefix_of, get_prefix,
  payload, serialize_contract, read_as, deserialize_contract, to_storage_error,
}

-- What is written can be read.
abbrev pub ReadsBack : {A : Type 0} → Serializable A → Type 0
ReadsBack {A = A} s =
    (x : A) (bytes : Bytes) → s.serialize x ≡ ok bytes → s.deserialize bytes ≡ ok x

pub record AllReadBack (ser : Serializers) : Type 0 where
  pub offered : ReadsBack ser.offered
  pub accepted : ReadsBack ser.accepted
  pub signed : ReadsBack ser.signed
  pub pre_closed : ReadsBack ser.pre_closed
  pub closed : ReadsBack ser.closed
  pub failed_accept : ReadsBack ser.failed_accept
  pub failed_sign : ReadsBack ser.failed_sign

try_from-get_prefix : (c : Contract) → try_from (get_prefix c) ≡ ok (prefix_of c)
unfolding try_from get_prefix
try_from-get_prefix (offered c) = refl
try_from-get_prefix (accepted c) = refl
try_from-get_prefix (signed c) = refl
try_from-get_prefix (confirmed c) = refl
try_from-get_prefix (refunded c) = refl
try_from-get_prefix (pre_closed c) = refl
try_from-get_prefix (closed c) = refl
try_from-get_prefix (failed_accept c) = refl
try_from-get_prefix (failed_sign c) = refl
try_from-get_prefix (rejected c) = refl

module _ (ser : Serializers) where
  read_as-payload :
      AllReadBack ser
      → (c : Contract) (bytes : Bytes) → payload ser c ≡ ok bytes
      → read_as ser (prefix_of c) bytes ≡ ok c
  read_as-payload law (offered c) bytes e = rw (law.offered c bytes e) refl
  read_as-payload law (accepted c) bytes e = rw (law.accepted c bytes e) refl
  read_as-payload law (signed c) bytes e = rw (law.signed c bytes e) refl
  read_as-payload law (confirmed c) bytes e = rw (law.signed c bytes e) refl
  read_as-payload law (refunded c) bytes e = rw (law.signed c bytes e) refl
  read_as-payload law (pre_closed c) bytes e = rw (law.pre_closed c bytes e) refl
  read_as-payload law (closed c) bytes e = rw (law.closed c bytes e) refl
  read_as-payload law (failed_accept c) bytes e = rw (law.failed_accept c bytes e) refl
  read_as-payload law (failed_sign c) bytes e = rw (law.failed_sign c bytes e) refl
  read_as-payload law (rejected c) bytes e = rw (law.offered c bytes e) refl

  read_prefix :
      (p : ContractPrefix) (bytes : Bytes) (c : Contract)
      → read_as ser p bytes ≡ ok c
      → prefix_of c ≡ p
  read_prefix offered_prefix bytes c e =
      let (x, _, same) =
        ok_of_bind (to_storage_error (ser.offered.deserialize bytes)) (λ x. ok (offered x)) c e in
      sym (ap prefix_of (ok-injective {E = Error} (offered x) c same))
  read_prefix accepted_prefix bytes c e =
      let (x, _, same) =
        ok_of_bind (to_storage_error (ser.accepted.deserialize bytes)) (λ x. ok (accepted x)) c e in
      sym (ap prefix_of (ok-injective {E = Error} (accepted x) c same))
  read_prefix signed_prefix bytes c e =
      let (x, _, same) =
        ok_of_bind (to_storage_error (ser.signed.deserialize bytes)) (λ x. ok (signed x)) c e in
      sym (ap prefix_of (ok-injective {E = Error} (signed x) c same))
  read_prefix confirmed_prefix bytes c e =
      let (x, _, same) =
        ok_of_bind (to_storage_error (ser.signed.deserialize bytes)) (λ x. ok (confirmed x)) c e in
      sym (ap prefix_of (ok-injective {E = Error} (confirmed x) c same))
  read_prefix refunded_prefix bytes c e =
      let (x, _, same) =
        ok_of_bind (to_storage_error (ser.signed.deserialize bytes)) (λ x. ok (refunded x)) c e in
      sym (ap prefix_of (ok-injective {E = Error} (refunded x) c same))
  read_prefix pre_closed_prefix bytes c e =
      let (x, _, same) =
        ok_of_bind (to_storage_error (ser.pre_closed.deserialize bytes)) (λ x. ok (pre_closed x)) c
          e in
      sym (ap prefix_of (ok-injective {E = Error} (pre_closed x) c same))
  read_prefix closed_prefix bytes c e =
      let (x, _, same) =
        ok_of_bind (to_storage_error (ser.closed.deserialize bytes)) (λ x. ok (closed x)) c e in
      sym (ap prefix_of (ok-injective {E = Error} (closed x) c same))
  read_prefix failed_accept_prefix bytes c e =
      let (x, _, same) =
        ok_of_bind (to_storage_error (ser.failed_accept.deserialize bytes))
          (λ x. ok (failed_accept x)) c e in
      sym (ap prefix_of (ok-injective {E = Error} (failed_accept x) c same))
  read_prefix failed_sign_prefix bytes c e =
      let (x, _, same) =
        ok_of_bind (to_storage_error (ser.failed_sign.deserialize bytes)) (λ x. ok (failed_sign x))
          c e in
      sym (ap prefix_of (ok-injective {E = Error} (failed_sign x) c same))
  read_prefix rejected_prefix bytes c e =
      let (x, _, same) =
        ok_of_bind (to_storage_error (ser.offered.deserialize bytes)) (λ x. ok (rejected x)) c e in
      sym (ap prefix_of (ok-injective {E = Error} (rejected x) c same))

first_match-ok :
    (v : ℕ) (ps : List ContractPrefix) (p : ContractPrefix)
    → first_match v ps ≡ ok p
    → u8_from p ≡ v
first_match-ok v [] p e = absurd (ground (arith, e))
first_match-ok v (q ∷ ps) p e = elim (Bool-cases (nat_eq v (u8_from q))) [
  | inl b ↦
      let same = ok-injective {E = Error} q p (rw b at e) in
      sym (ap u8_from same) ∙ ground (arith, b)
  | inr b ↦ first_match-ok v ps p (rw b at e)
]

pub deserialize_of_serialized :
    (ser : Serializers) (c : Contract) (bytes : Bytes)
    → AllReadBack ser
    → serialize_contract ser c ≡ ok bytes
    → deserialize_contract ser bytes ≡ ok c
unfolding serialize_contract deserialize_contract
deserialize_of_serialized ser c bytes law e =
    let (serialized, written, same) = ok_of_bind (payload ser c) _ bytes e in
    ap (deserialize_contract ser) (sym (ok-injective {E = String} _ bytes same))
    ∙ rw (try_from-get_prefix c) (read_as-payload ser law c serialized written)

-- What `serialize_contract` writes, `deserialize_contract` reads as the same contract in the same
-- state, if each state's own form is read back; and what it reads has the state of its first byte,
-- so that writing it again begins with that byte.
pub deserialize_contract-serialize_contract :
    (ser : Serializers) (c d : Contract) (bytes cursor : Bytes) (prefix : ℕ)
    → AllReadBack ser
    → serialize_contract ser c ≡ ok bytes
    → deserialize_contract ser (prefix ∷ cursor) ≡ ok d
    → (deserialize_contract ser bytes ≡ ok c) × (get_prefix d ≡ prefix)
unfolding deserialize_contract get_prefix try_from
deserialize_contract-serialize_contract ser c d bytes cursor prefix law e e' =
    let (p, found, read_ok) = ok_of_bind (first_match prefix prefixes) _ d e' in
    (
      deserialize_of_serialized ser c bytes law e,
      ap u8_from (read_prefix ser p cursor d read_ok) ∙ first_match-ok prefix prefixes p found,
    )
