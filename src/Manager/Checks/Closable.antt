-- ===== src/Manager/Checks/Closable.antt =====
-- What the search for a closable contract info finds.
use dlc_stack.Base.{
  ℕ, ap, sym, ok-injective, suc, String, ◌≡◌, refl, true, Option, none, some, List, [], ◌∷◌, Result,
  ok, err, inl, inr, arith, leb, Bool-cases, length, exists_in, ◌==◌,
}
use dlc_stack.Manager.Types.{
  Error, ContractInfo, OracleAnnouncement, OracleAttestation, SignedContract,
}
use dlc_stack.Manager.Monad.{
  Trace, pure, raise, Emits, Emits-pure, Emits-bind, Emits-ask, Emits-attempt, same, ask, attempt,
  continue, bind-ok_at, ◌>>=◌,
}
use dlc_stack.Manager.Peers.{Peers}
use dlc_stack.Manager.Checks.{
  Closable, attestation_of, attestations_from, collected, is_ok, find_closable, closable_oracles,
  get_closable_contract_info,
}
use dlc_stack.Manager.Checks.Justified.{
  Justified, Paired, here, there, Attested, now, Attested-later, Collected, none_left, left_out,
  taken, reads_attestation,
}

module _ (env : Peers) where
  Emits-raise : {A : Type 0} (e : Error) → Emits (Justified env) (raise {A = A} e)
  Emits-raise e = record { at = λ w. same }

  Emits-attestation_of :
      (oracles : List String) (a : OracleAnnouncement)
      → Emits (Justified env) (attestation_of env oracles a)
  Emits-attestation_of oracles a =
      elim (Bool-cases (exists_in (λ o. o == a.oracle_public_key) oracles)) [
        | inl b ↦ rw b (Emits-ask _ _ (λ w. reads_attestation))
        | inr b ↦ rw b (Emits-raise _)
      ]

  Emits-attestations_from :
      (oracles : List String) (i : ℕ) (rest : List OracleAnnouncement)
      → Emits (Justified env) (attestations_from env oracles i rest)
  unfolding attestations_from
  Emits-attestations_from oracles i [] = Emits-pure []
  Emits-attestations_from oracles i (a ∷ rest) =
      Emits-bind _ _ (Emits-attempt _ (Emits-attestation_of oracles a)) (λ r.
        Emits-bind _ _ (Emits-attestations_from oracles (suc i) rest) (λ others. Emits-pure _))

  Emits-find_closable :
      (oracles : List String) (infos : List ContractInfo) (adaptors : List String)
      → Emits (Justified env) (find_closable env oracles infos adaptors)
  unfolding find_closable
  Emits-find_closable oracles [] adaptors = Emits-pure none
  Emits-find_closable oracles (info ∷ infos) [] = Emits-pure none
  Emits-find_closable oracles (info ∷ infos) (x ∷ xs) =
      let later = Emits-find_closable oracles infos xs in
      elim (Bool-cases (leb info.threshold (length info.oracle_announcements))) [
        | inl b ↦ rw b (
            Emits-bind _ _ (Emits-attestations_from oracles 0 info.oracle_announcements) (λ found.
              elim (Bool-cases (leb info.threshold (length found))) [
                | inl d ↦ rw d (Emits-pure _)
                | inr d ↦ rw d later
              ]))
        | inr b ↦ rw b later
      ]

  Emits-closable_oracles : (o : Option (List String)) → Emits (Justified env) (closable_oracles o)
  Emits-closable_oracles none = Emits-raise _
  Emits-closable_oracles (some oracles) = Emits-pure oracles

  pub Emits-get_closable_contract_info :
      (c : SignedContract) → Emits (Justified env) (get_closable_contract_info env c)
  unfolding get_closable_contract_info
  Emits-get_closable_contract_info c =
      Emits-bind _ _ (Emits-closable_oracles env.oracles)
        (λ oracles. Emits-find_closable oracles _ _)

  known-Attested :
      (oracles : List String) (a : OracleAnnouncement) (w : Trace) (found : OracleAttestation)
      → (attestation_of env oracles a w).0 ≡ ok found
      → (exists_in (λ o. o == a.oracle_public_key) oracles ≡ true)
        × Attested env a.oracle_public_key a.event_id found (attestation_of env oracles a w).1
  unfolding ask
  known-Attested oracles a w found e =
      elim (Bool-cases (exists_in (λ o. o == a.oracle_public_key) oracles)) [
        | inl b ↦ (b, rw b (now (rw b at e)))
        | inr b ↦ absurd (ground (arith, rw b at e))
      ]

  module _ (oracles : List String) (i : ℕ) (a : OracleAnnouncement)
      (rest : List OracleAnnouncement) where
    one_more :
        (r : Result Error OracleAttestation)
        (q : Result Error (List (ℕ × OracleAttestation)) × Trace)
        (found : List (ℕ × OracleAttestation))
        → ((xs : List (ℕ × OracleAttestation))
            → q.0 ≡ ok xs
            → Collected env oracles q.1 (suc i) rest xs)
        → ((x : OracleAttestation)
            → r ≡ ok x
            → (exists_in (λ o. o == a.oracle_public_key) oracles ≡ true)
              × Attested env a.oracle_public_key a.event_id x q.1)
        → (continue q.0 (λ others. pure (collected (is_ok r) i others)) q.1).0 ≡ ok found
        → Collected env oracles
            (continue q.0 (λ others. pure (collected (is_ok r) i others)) q.1).1
            i
            (a ∷ rest)
            found
    one_more r (err x, v) found k seen e = absurd (ground (arith, e))
    one_more (err x) (ok xs, v) found k seen e =
        rw (sym (ok-injective xs found e)) (left_out (k xs refl))
    one_more (ok x) (ok xs, v) found k seen e =
        let (known, attested) = seen x refl in
        rw (sym (ok-injective ((i, x) ∷ xs) found e)) (taken known attested (k xs refl))

  attestations_from-Collected :
      (oracles : List String) (i : ℕ) (rest : List OracleAnnouncement) (w : Trace)
      (found : List (ℕ × OracleAttestation))
      → (attestations_from env oracles i rest w).0 ≡ ok found
      → Collected env oracles (attestations_from env oracles i rest w).1 i rest found
  unfolding attestations_from ◌>>=◌ attempt
  attestations_from-Collected oracles i [] w found e = rw (sym (ok-injective [] found e)) none_left
  attestations_from-Collected oracles i (a ∷ rest) w found e =
      let (r, v) = attestation_of env oracles a w in
      one_more oracles i a rest r (attestations_from env oracles (suc i) rest v) found
        (λ xs e'. attestations_from-Collected oracles (suc i) rest v xs e')
        (λ x e'.
          let (known, attested) = known-Attested oracles a w x e' in
          (
            known,
            Attested-later env ((Emits-attestations_from oracles (suc i) rest).at v) attested,
          ))
        e

  -- What is found has as many attestations as the threshold asks for, and stems from the contract.
  abbrev pub Found : List String → List ContractInfo → List String → Closable → Trace → Type 0
  Found oracles infos adaptors x w =
      Paired x.0 x.1 infos adaptors
      × Collected env oracles w 0 x.0.oracle_announcements x.2
      × (leb x.0.threshold (length x.2) ≡ true)

  abbrev closable_in : Closable → Result Error (Option Closable) → Closable
  closable_in default (ok (some x)) = x
  closable_in default (ok none) = default
  closable_in default (err e) = default

  Found-moved :
      (oracles : List String) (infos : List ContractInfo) (adaptors : List String) (x y : Closable)
      (v w : Trace)
      → ◌≡◌ {A = Result Error (Option Closable) × Trace} (ok (some y), v) (ok (some x), w)
      → Found oracles infos adaptors y v
      → Found oracles infos adaptors x w
  Found-moved oracles infos adaptors x y v w e h =
      let p : y ≡ x = ap (λ q. closable_in y q.0) e in
      let q : v ≡ w = ap (λ q. q.1) e in rw (sym p, sym q) h

  pub find_closable-Found :
      (oracles : List String) (infos : List ContractInfo) (adaptors : List String) (w v : Trace)
      (x : Closable)
      → find_closable env oracles infos adaptors w ≡ (ok (some x), v)
      → Found oracles infos adaptors x v
  unfolding find_closable
  find_closable-Found oracles [] adaptors w v x e = absurd (ground (arith, ap (λ p. p.0) e))
  find_closable-Found oracles (info ∷ infos) [] w v x e = absurd (ground (arith, ap (λ p. p.0) e))
  find_closable-Found oracles (info ∷ infos) (a ∷ rest) w v x e =
      elim (Bool-cases (leb info.threshold (length info.oracle_announcements))) [
        | inl b ↦
            let (found, found_all, e') = bind-ok_at _ _ w (some x) v (rw b at e) in
            elim (Bool-cases (leb info.threshold (length found))) [
              | inl d ↦
                  Found-moved oracles (info ∷ infos) (a ∷ rest) x (info, a, found) _ v (rw d at e')
                    (here, attestations_from-Collected oracles 0 _ w found found_all, d)
              | inr d ↦
                  let (p, c, t) = find_closable-Found oracles infos rest _ v x (rw d at e') in
                  (there p, c, t)
            ]
        | inr b ↦
            let (p, c, t) = find_closable-Found oracles infos rest w v x (rw b at e) in
            (there p, c, t)
      ]
