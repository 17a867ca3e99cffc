-- ===== src/Manager/Checks/Rounds.antt =====
-- The loops of the periodic check over all contracts of a state.
use dlc_stack.Base.{Bool, true, false, Option, none, some, List, [], ◌∷◌, Result, ok, err}
use dlc_stack.Manager.Types.{ContractId, ContractInfo, SignedContract, PreClosedContract}
use dlc_stack.Manager.Monad.{
  Trace, Extends, Emits, Emits-pure, Emits-bind, Emits-lift, Emits-ask, Emits-attempt,
}
use dlc_stack.Manager.Peers.{Peers}
use dlc_stack.Manager.Checks.{
  Affected, note, check_signed, check_signed_contracts, check_unless_channel, check_confirmed,
  check_confirmed_contracts, check_preclosed, check_preclosed_contracts, periodic_check,
}
use dlc_stack.Manager.Checks.Justified.{Justified, reads_signed, reads_confirmed, reads_preclosed}
use dlc_stack.Manager.Checks.Evidence.{Emits-check_signed_contract, Emits-check_preclosed_contract}
use dlc_stack.Manager.Checks.Closing.{Emits-check_confirmed_contract}

module _ (env : Peers) where
  Emits-note :
      (id : ContractId) (infos : List ContractInfo) (acc : Affected) (r : Result _ Bool)
      → Emits (Justified env) (note id infos acc r)
  Emits-note id infos acc (ok true) = Emits-bind _ _ (Emits-lift _) (λ event_id. Emits-pure _)
  Emits-note id infos acc (ok false) = Emits-pure acc
  Emits-note id infos acc (err e) = Emits-pure acc

  pub Emits-check_signed :
      (cs : List SignedContract) (acc : Affected) → Emits (Justified env) (check_signed env cs acc)
  unfolding check_signed
  Emits-check_signed [] acc = Emits-pure acc
  Emits-check_signed (c ∷ cs) acc =
      Emits-bind _ _ (Emits-attempt _ (Emits-check_signed_contract env c))
        (λ r. Emits-bind _ _ (Emits-note _ _ acc r) (λ acc'. Emits-check_signed cs acc'))

  pub Emits-check_unless_channel :
      (channel : Option ContractId) (c : SignedContract) (acc : Affected)
      → Emits (Justified env) (check_unless_channel env channel c acc)
  Emits-check_unless_channel (some id) c acc = Emits-pure acc
  Emits-check_unless_channel none c acc =
      Emits-bind _ _ (Emits-attempt _ (Emits-check_confirmed_contract env c))
        (λ r. Emits-note _ _ acc r)

  pub Emits-check_confirmed :
      (cs : List SignedContract) (acc : Affected)
      → Emits (Justified env) (check_confirmed env cs acc)
  unfolding check_confirmed
  Emits-check_confirmed [] acc = Emits-pure acc
  Emits-check_confirmed (c ∷ cs) acc =
      Emits-bind _ _ (Emits-check_unless_channel c.channel_id c acc)
        (λ acc'. Emits-check_confirmed cs acc')

  pub Emits-check_preclosed :
      (cs : List PreClosedContract) (acc : Affected)
      → Emits (Justified env) (check_preclosed env cs acc)
  unfolding check_preclosed
  Emits-check_preclosed [] acc = Emits-pure acc
  Emits-check_preclosed (c ∷ cs) acc =
      Emits-bind _ _ (Emits-attempt _ (Emits-check_preclosed_contract env c))
        (λ r. Emits-bind _ _ (Emits-note _ _ acc r) (λ acc'. Emits-check_preclosed cs acc'))

  Emits-periodic_check : Emits (Justified env) (periodic_check env)
  unfolding periodic_check check_signed_contracts check_confirmed_contracts
      check_preclosed_contracts
  Emits-periodic_check =
      Emits-bind _ _
        (Emits-bind _ _ (Emits-ask _ _ (λ w. reads_signed)) (λ cs. Emits-check_signed cs []))
        (λ a.
          Emits-bind _ _
            (Emits-bind _ _ (Emits-ask _ _ (λ w. reads_confirmed))
              (λ cs. Emits-check_confirmed cs []))
            (λ b.
              Emits-bind _ _
                (Emits-bind _ _ (Emits-ask _ _ (λ w. reads_preclosed))
                  (λ cs. Emits-check_preclosed cs []))
                (λ c. Emits-pure _)))

-- Every state that a periodic check stores and every transaction that it sends is justified by the
-- answers that calls before it got: six confirmations of the funding transaction; an outcome signed
-- with one of the contract's own infos and the adaptor info beside it, on as many attestations of
-- known oracles to announcements of that info as its threshold asks for, and the confirmations of that
-- outcome; or a refund whose lock time has passed, and its confirmations.
pub periodic_check-IsJustified :
    (env : Peers) (w : Trace) → Extends (Justified env) w (periodic_check env w).1
periodic_check-IsJustified env w = (Emits-periodic_check env).at w
