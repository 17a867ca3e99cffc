-- ===== src/Manager/Messages/Answers.antt =====
-- How the manager answers the messages of a peer.
use dlc_stack.Base.{
  String, ◌≡◌, refl, true, Option, none, some, ◌∷◌, Result, ok, err, inl, inr, Bool-cases,
}
use dlc_stack.Manager.Types.{ContractId, Error, Contract, AcceptDlc, SignDlc, accept, sign}
use dlc_stack.Manager.Monad.{Trace, Action, get_contract, ask, ◌>>=◌, lift}
use dlc_stack.Manager.Peers.{Peers}
use dlc_stack.Manager.Messages.{
  as_offered, as_accepted, is_peer, checked, in_state, get_contract_in_state, on_accept_message,
  on_sign_message, on_dlc_message,
}

module _ (env : Peers) {A : Type 0} (state : Contract → Option A) (id : ContractId)
    (peer : String) where
  -- Storage does not hold, under this id, a contract of this peer in the state asked for: it fails,
  -- has none, or one of another peer or state.
  abbrev pub NotHeld : Trace → Type 0
  NotHeld w =
      (c : Contract) (a : A)
      → env.get_contract w id ≡ ok (some c)
      → is_peer env (some peer) c ≡ true
      → ¬ (state c ≡ some a)

  module _ {B : Type 0} (f : A → Action B) (w : Trace) where
    abbrev Refused : Trace → Action B → Type 0
    Refused v m = (e : Error) × (m v ≡ (err e, v))

    in_state-IsRefused :
        (o : Option A) (v : Trace)
        → ((a : A) → ¬ (o ≡ some a))
        → Refused v (in_state env state o >>= f)
    unfolding ◌>>=◌
    in_state-IsRefused none v h = (_, refl)
    in_state-IsRefused (some a) v h = absurd (h a refl)

    answer-IsRefused :
        (r : Result Error (Option Contract))
        → env.get_contract w id ≡ r
        → NotHeld w
        → Refused (get_contract id ∷ w) ((lift r >>= checked env state (some peer)) >>= f)
    unfolding ◌>>=◌ lift
    answer-IsRefused (err e) same_answer h = (e, refl)
    answer-IsRefused (ok none) same_answer h = (_, refl)
    answer-IsRefused (ok (some c)) same_answer h = elim (Bool-cases (is_peer env (some peer) c)) [
      | inl b ↦ rw b (in_state-IsRefused (state c) _ (λ a s. h c a same_answer b s))
      | inr b ↦ rw b (_, refl)
    ]

    pub get_contract-IsRefused :
        NotHeld w
        → (e : Error) × ((get_contract_in_state env state id (some peer) >>= f) w
            ≡ (err e, get_contract id ∷ w))
    unfolding ◌>>=◌ get_contract_in_state ask lift
    get_contract-IsRefused h = answer-IsRefused (env.get_contract w id) refl h

module _ {A B : Type 0} where
  err-bind :
      (m : Action A) (f : A → Action B) (w v : Trace)
      → (e : Error) × (m w ≡ (err e, v))
      → (e : Error) × ((m >>= f) w ≡ (err e, v))
  unfolding ◌>>=◌
  err-bind m f w v (e, same_result) = (e, rw same_result refl)

-- An accept or sign message for a contract that is not held in the state that the message needs, or
-- not with that peer, is answered with an error, and the look-up is the only call.
pub unheld-IsRefused :
    (env : Peers) (w : Trace) (peer : String) (a : AcceptDlc) (s : SignDlc)
    → NotHeld env as_offered a.temporary_contract_id peer w
    → NotHeld env as_accepted s.contract_id peer w
    → ((e : Error) × (on_dlc_message env (accept a) peer w
          ≡ (err e, get_contract a.temporary_contract_id ∷ w)))
      × ((e : Error) × (on_dlc_message env (sign s) peer w
            ≡ (err e, get_contract s.contract_id ∷ w)))
unfolding on_dlc_message on_accept_message on_sign_message
unheld-IsRefused env w peer a s no_offer no_accepted = (
  err-bind _ _ w _
      (get_contract-IsRefused env as_offered a.temporary_contract_id peer _ w no_offer),
  err-bind _ _ w _ (get_contract-IsRefused env as_accepted s.contract_id peer _ w no_accepted),
)
