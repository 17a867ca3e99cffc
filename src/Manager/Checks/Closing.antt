-- ===== src/Manager/Checks/Closing.antt =====
-- The calls by which a confirmed contract is closed or refunded, each with its evidence.
use dlc_stack.Base.{
  ap, ◌∙◌, String, ◌≡◌, refl, true, false, Option, none, some, List, Result, ok, err, inl, inr,
  arith, ltb, leb, nat_eq, Bool-cases,
}
use dlc_stack.Manager.Types.{Error, OracleAttestation, Transaction, SignedContract}
use dlc_stack.Manager.Monad.{
  Trace, pure, Emits, Emits-pure, Emits-bind, Extends, same, Extends-trans, ask_step,
  ask_step_inner, ask_last, pure_step, lift_step, attempt_step, ◌>>=◌,
}
use dlc_stack.Manager.Peers.{Peers}
use dlc_stack.Manager.Messages.{store}
use dlc_stack.Manager.Checks.{
  nb_confirmations, Closable, close_contract, check_refund, check_closable, find_closable,
  closable_oracles, get_closable_contract_info, check_confirmed_contract,
}
use dlc_stack.Manager.Checks.Justified.{
  Justified, answered, IsOutcome-later, IsOutcome, IsRefundable, matured, reads_confirmations,
  reads_time, sends_cet, pre_closes_sent, pre_closes_seen, closes, sends_refund, refunds_sent,
  refunds_seen,
}
use dlc_stack.Manager.Checks.Evidence.{stores}
use dlc_stack.Manager.Checks.Closable.{Found, find_closable-Found, Emits-get_closable_contract_info}

module _ (env : Peers) where
  -- Closing a contract on a signed outcome, and storing what comes of it.
  module _ (c : SignedContract) (cet : Transaction) (attestations : List OracleAttestation) where
    Emits-close_and_store :
        (u w : Trace)
        → Extends (Justified env) u w
        → IsOutcome env c cet attestations w
        → Extends
            (Justified env)
            u
            ((close_contract env c cet attestations >>= λ k. store env k >>= λ _. pure true) w).1
    unfolding close_contract
    Emits-close_and_store u w e o = ask_step_inner _ _ _ _ u w e reads_confirmations (λ n answer t.
        let outcome = IsOutcome-later env _ o in
        elim (Bool-cases (ltb n 1)) [
          | inl b ↦ rw b (
              ask_step_inner _ _ _ _ u _ t (sends_cet outcome (answered answer) b) (λ _ sent t'.
                pure_step _ _ u _
                  (stores env _ true u _ t' (pre_closes_sent outcome (answered answer) sent))))
          | inr b ↦ elim (Bool-cases (ltb n nb_confirmations)) [
            | inl d ↦
                rw (b, d)
                  (pure_step _ _ u _ (
                    stores env _ true u _ t
                      (pre_closes_seen outcome (answered answer) (ground (arith, b)) d)))
            | inr d ↦
                rw (b, d)
                  (pure_step _ _ u _ (
                    stores env _ true u _ t (closes outcome (answered answer) (ground (arith, d)))))
          ]
        ])

  Emits-check_refund : (c : SignedContract) → Emits (Justified env) (check_refund env c)
  unfolding check_refund
  Emits-check_refund c = record {
    at = λ w. ask_step _ _ _ w w same reads_time (λ now clock t.
        elim (Bool-cases (leb c.accepted_contract.dlc_transactions.refund.lock_time now)) [
          | inl b ↦ rw b (
              ask_step _ _ _ w _ t reads_confirmations (λ n answer t'.
                elim (Bool-cases (nat_eq n 0)) [
                  | inl d ↦
                      let unseen : IsRefundable env c 0 _ =
                        matured clock b (answer ∙ ap ok (ground (arith, d))) in
                      rw d (
                        lift_step _ _ w _ t' (λ refund signed.
                          ask_step _ _ _ w _ t' (sends_refund unseen signed)
                            (λ _ sent t''. ask_last _ _ w _ t'' (refunds_sent unseen sent))))
                  | inr d ↦ rw d (
                      ask_last _ _ w _ t'
                        (refunds_seen (matured clock b answer) (ground (arith, d))))
                ]))
          | inr b ↦ rw b t
        ]);
  }

  -- What the search for a closable contract info gives the contract.
  abbrev FoundFor : SignedContract → Closable → Trace → Type 0
  FoundFor c x w =
      (oracles : List String) × (env.oracles ≡ some oracles)
      × Found env oracles c.accepted_contract.offered_contract.contract_info
          c.accepted_contract.adaptor_infos x w

  check_closable-Extends :
      (c : SignedContract) (r : Result Error (Option Closable)) (w : Trace)
      → ((x : Closable) → r ≡ ok (some x) → FoundFor c x w)
      → Extends (Justified env) w (check_closable env c r w).1
  unfolding check_closable
  check_closable-Extends c (ok (some (info, adaptor, attestations))) w found =
      let (oracles, has, (paired, from, reached)) = found (info, adaptor, attestations) refl in
      lift_step _ _ w w same (λ cet signed. Emits-close_and_store c cet _ w w same (record {
        oracles = oracles;
        has_oracles = has;
        info = info;
        adaptor = adaptor;
        paired = paired;
        indexed = attestations;
        collected = from;
        reached = reached;
        used = refl;
        signed = signed;
      }))
  check_closable-Extends c (ok none) w found =
      (Emits-bind _ _ (Emits-check_refund c) (λ _. Emits-pure false)).at w
  check_closable-Extends c (err e) w found =
      (Emits-bind _ _ (Emits-check_refund c) (λ _. Emits-pure false)).at w

  found_of :
      (o : Option (List String)) (c : SignedContract) (w v : Trace) (x : Closable)
      → env.oracles ≡ o
      → (closable_oracles o >>= λ oracles.
            find_closable env oracles c.accepted_contract.offered_contract.contract_info
              c.accepted_contract.adaptor_infos)
          w
        ≡ (ok (some x), v)
      → FoundFor c x v
  unfolding ◌>>=◌
  found_of none c w v x has e = absurd (ground (arith, ap (λ p. p.0) e))
  found_of (some oracles) c w v x has e =
      (oracles, has, find_closable-Found env oracles _ _ w v x e)

  pub Emits-check_confirmed_contract :
      (c : SignedContract) → Emits (Justified env) (check_confirmed_contract env c)
  unfolding check_confirmed_contract get_closable_contract_info
  Emits-check_confirmed_contract c = record {
    at = λ w. attempt_step _ _ w w (λ r same_result.
        Extends-trans ((Emits-get_closable_contract_info env c).at w) (
          check_closable-Extends c r _ (λ x e.
            found_of env.oracles c w _ x refl
              (ap (λ a. (a, (get_closable_contract_info env c w).1)) (same_result ∙ e)))));
  }
