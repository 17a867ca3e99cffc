-- ===== src/Manager/Messages/Transitions.antt =====
-- The writes that messages and the user lead to are allowed ones.
use dlc_stack.Base.{
  String, ◌≡◌, refl, ap, ◌∙◌, arith, true, Option, none, some, ◌∷◌, Result, ok, err, inl, inr,
  Bool-cases,
}
use dlc_stack.Manager.Types.{
  ContractId, Error, OfferedContract, AcceptedContract, SignedContract, Transaction, Contract,
  offered, accepted, OfferDlc, AcceptDlc, SignDlc, offer, accept, sign,
}
use dlc_stack.Manager.Monad.{
  Trace, get_contract, create_contract, Action, Emits, Extends, same, ask_step, ask_step_inner,
  ask_last, lift_step, lift_at_step, ◌>>=◌,
}
use dlc_stack.Manager.Peers.{Peers}
use dlc_stack.Manager.Messages.{
  create, get_contract_in_state, as_offered, as_accepted, is_peer, checked, in_state,
  import_funding, on_offer_message, reject_known, accept_contract_offer, accept_fail_on_error,
  sign_fail_on_error, on_accept_verified, on_accept_message, on_sign_verified, on_sign_message,
}
use dlc_stack.Manager.Messages.Allowed.{
  Operation, accepts_offer, receives, Allowed, Held, held, Imported, imported, looks_up,
  asks_network, imports, takes_offer, accepts, signs, fails_accept, completes, funds, fails_sign,
}

pub as_offered-some : (c : Contract) (o : OfferedContract) → as_offered c ≡ some o → c ≡ offered o
as_offered-some c o e = ground (arith, e)

as_accepted-some : (c : Contract) (a : AcceptedContract) → as_accepted c ≡ some a → c ≡ accepted a
as_accepted-some c a e = ground (arith, e)

module _ (env : Peers) (op : Operation) where
  module _ {A B : Type 0} (state : Contract → Option A) (id : ContractId) (peer : Option String)
      (f : A → Action B) (u w : Trace) where
    in_state_step :
        (o : Option A)
        → Extends (Allowed env op) u w
        → ((a : A) → o ≡ some a → Extends (Allowed env op) u (f a w).1)
        → Extends (Allowed env op) u ((in_state env state o >>= f) w).1
    unfolding ◌>>=◌
    in_state_step none e k = e
    in_state_step (some a) e k = k a refl

    checked_step :
        (o : Option Contract)
        → Extends (Allowed env op) u w
        → ((c : Contract) (a : A)
            → o ≡ some c
            → is_peer env peer c ≡ true
            → state c ≡ some a
            → Extends (Allowed env op) u (f a w).1)
        → Extends (Allowed env op) u ((checked env state peer o >>= f) w).1
    unfolding ◌>>=◌
    checked_step none e k = e
    checked_step (some c) e k = elim (Bool-cases (is_peer env peer c)) [
      | inl b ↦ rw b (in_state_step (state c) e (λ a s. k c a refl b s))
      | inr b ↦ rw b e
    ]

  get_contract_step :
      {A B : Type 0} (state : Contract → Option A) (id : ContractId) (peer : Option String)
      (f : A → Action B) (u w : Trace)
      → Extends (Allowed env op) u w
      → ((c : Contract) (a : A)
          → Held env id peer c (get_contract id ∷ w)
          → state c ≡ some a
          → Extends (Allowed env op) u (get_contract id ∷ w)
          → Extends (Allowed env op) u (f a (get_contract id ∷ w)).1)
      → Extends (Allowed env op) u ((get_contract_in_state env state id peer >>= f) w).1
  unfolding get_contract_in_state
  get_contract_step state id peer f u w e k = ask_step_inner _ _ _ _ u w e looks_up (λ o answer t.
      checked_step state id peer f u _ o t
        (λ c a found b s. k c a (held (answer ∙ ap ok found) b) s t))

  import_step :
      {B : Type 0} (c : AcceptedContract) (f : Unit {0} → Action B) (u w : Trace)
      → Extends (Allowed env op) u w
      → ((w' : Trace)
          → Imported env c w w'
          → Extends (Allowed env op) u w'
          → Extends (Allowed env op) u (f tt w').1)
      → Extends (Allowed env op) u ((import_funding env c >>= f) w).1
  import_step c f u w e k = ask_step_inner _ _ _ _ u w e asks_network (λ network answer t.
      ask_step _ _ _ u _ t imports (λ _ answer' t'. k _ (imported answer answer') t'))

  unless_known :
      (c : OfferedContract) (known : Option Contract) (w : Trace)
      → Extends (Allowed env op) w (get_contract c.id ∷ w)
      → (env.get_contract w c.id ≡ ok none
          → Allowed env op (get_contract c.id ∷ w) (create_contract c))
      → env.get_contract w c.id ≡ ok known
      → Extends
          (Allowed env op)
          w
          ((reject_known known >>= λ _. create env c) (get_contract c.id ∷ w)).1
  unfolding ◌>>=◌
  unless_known c none w t allowed answer = ask_last _ _ w _ t (allowed answer)
  unless_known c (some k) w t allowed answer = t

module _ (env : Peers) where
  pub Emits-on_offer_message :
      (o : OfferDlc) (peer : String)
      → Emits (Allowed env (receives (offer o) peer)) (on_offer_message env o peer)
  unfolding on_offer_message
  Emits-on_offer_message o peer = record {
    at = λ w. lift_step _ _ w w same (λ _ valid. lift_step _ _ w w same (λ c made.
        lift_step _ _ w w same (λ _ valid_contract.
          ask_step _ _ _ w w same looks_up (λ known answer t.
            unless_known env (receives (offer o) peer) c known w t
              (takes_offer valid made valid_contract) answer))));
  }

  pub Emits-accept_contract_offer :
      (id : ContractId) → Emits (Allowed env (accepts_offer id)) (accept_contract_offer env id)
  unfolding accept_contract_offer
  Emits-accept_contract_offer id = record {
    at = λ w. get_contract_step env (accepts_offer id) as_offered id none _ w w same (λ c o h s t.
        lift_at_step _ _ w _ t (λ made same_made.
          import_step env (accepts_offer id) made.0 _ w _ t (λ w' i t'.
            ask_step _ _ _ w _ t' (accepts (rw (as_offered-some c o s) at h) same_made i)
              (λ _ _ t''. t''))));
  }

  pub Emits-on_accept_message :
      (m : AcceptDlc) (peer : String)
      → Emits (Allowed env (receives (accept m) peer)) (on_accept_message env m peer)
  unfolding on_accept_message on_accept_verified accept_fail_on_error
  Emits-on_accept_message m peer = record {
    at = λ w.
        get_contract_step env (receives (accept m) peer) as_offered m.temporary_contract_id
          (some peer) _ w w same
          (λ c o h s t. verified o _ w _ t (rw (as_offered-some c o s) at h) refl);
  }
    where
      verified :
          (o : OfferedContract) (r : Result Error (SignedContract × SignDlc)) (u w : Trace)
          → Extends (Allowed env (receives (accept m) peer)) u w
          → Held env m.temporary_contract_id (some peer) (offered o) w
          → env.verify_accepted_and_sign_contract w o m ≡ r
          → Extends (Allowed env (receives (accept m) peer)) u (on_accept_verified env o m r w).1
      verified o (ok made) u w t h e =
          import_step env (receives (accept m) peer) made.0.accepted_contract _ u w t
            (λ w' i t'. ask_step _ _ _ u w' t' (signs h e i) (λ _ _ t''. t''))
      verified o (err x) u w t h e = ask_step _ _ _ u w t (fails_accept h e) (λ _ _ t'. t')

  pub Emits-on_sign_message :
      (m : SignDlc) (peer : String)
      → Emits (Allowed env (receives (sign m) peer)) (on_sign_message env m peer)
  unfolding on_sign_message on_sign_verified sign_fail_on_error
  Emits-on_sign_message m peer = record {
    at = λ w.
        get_contract_step env (receives (sign m) peer) as_accepted m.contract_id (some peer) _ w w
          same (λ c a h s t. verified a _ w _ t (rw (as_accepted-some c a s) at h) refl);
  }
    where
      verified :
          (a : AcceptedContract) (r : Result Error (SignedContract × Transaction)) (u w : Trace)
          → Extends (Allowed env (receives (sign m) peer)) u w
          → Held env m.contract_id (some peer) (accepted a) w
          → env.verify_signed_contract w a m ≡ r
          → Extends (Allowed env (receives (sign m) peer)) u (on_sign_verified env a m r w).1
      verified a (ok made) u w t h e =
          ask_step _ _ _ u w t (completes h e)
            (λ _ stored_ok t'. ask_last _ _ u _ t' (funds h e stored_ok))
      verified a (err x) u w t h e = ask_step _ _ _ u w t (fails_sign h e) (λ _ _ t'. t')
