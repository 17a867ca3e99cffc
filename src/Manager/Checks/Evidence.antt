-- ===== src/Manager/Checks/Evidence.antt =====
-- The calls of the checks of one contract, each with its evidence.
use dlc_stack.Base.{true, inl, inr, leb, Bool-cases}
use dlc_stack.Manager.Types.{SignedContract, PreClosedContract, Contract}
use dlc_stack.Manager.Monad.{Trace, update_contract, pure, Emits, Extends, same, ask_step, ◌>>=◌}
use dlc_stack.Manager.Peers.{Peers}
use dlc_stack.Manager.Messages.{store}
use dlc_stack.Manager.Checks.{nb_confirmations, check_signed_contract, check_preclosed_contract}
use dlc_stack.Manager.Checks.Justified.{
  Justified, answered, reads_confirmations, confirms, closes_pre_closed,
}

module _ (env : Peers) where
  -- A write at the end of a block.
  pub stores :
      (c : Contract) {A : Type 0} (a : A) (u w : Trace)
      → Extends (Justified env) u w
      → Justified env w (update_contract c)
      → Extends (Justified env) u ((store env c >>= λ _. pure a) w).1
  stores c a u w e j = ask_step (update_contract c) _ _ u w e j (λ _ _ t. t)

  pub Emits-check_signed_contract :
      (c : SignedContract) → Emits (Justified env) (check_signed_contract env c)
  unfolding check_signed_contract
  Emits-check_signed_contract c = record {
    at = λ w. ask_step _ _ _ w w same reads_confirmations (λ n e t.
        elim (Bool-cases (leb nb_confirmations n)) [
          | inl b ↦ rw b (stores _ true _ _ t (confirms (answered e) b))
          | inr b ↦ rw b t
        ]);
  }

  pub Emits-check_preclosed_contract :
      (c : PreClosedContract) → Emits (Justified env) (check_preclosed_contract env c)
  unfolding check_preclosed_contract
  Emits-check_preclosed_contract c = record {
    at = λ w. ask_step _ _ _ w w same reads_confirmations (λ n e t.
        elim (Bool-cases (leb nb_confirmations n)) [
          | inl b ↦ rw b (stores _ true _ _ t (closes_pre_closed c (answered e) b))
          | inr b ↦ rw b t
        ]);
  }
