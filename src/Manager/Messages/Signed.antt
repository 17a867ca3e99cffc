-- ===== src/Manager/Messages/Signed.antt =====
-- When the manager answers an accept message with a sign message.
use dlc_stack.Base.{
  String, ◌≡◌, refl, sym, ap, ◌∙◌, arith, true, Option, none, some, ◌∷◌, Result, ok, err,
  ok-injective, inl, inr, Bool-cases, subst,
}
use dlc_stack.Manager.Types.{
  Error, OfferedContract, AcceptedContract, SignedContract, Contract, offered, signed, AcceptDlc,
  SignDlc, DlcMessage, accept, sign,
}
use dlc_stack.Manager.Monad.{
  Trace, Call, Action, get_contract, update_contract, get_network, import_address, ask, ◌>>=◌,
  bind-ok_at,
}
use dlc_stack.Manager.Peers.{Peers}
use dlc_stack.Manager.Messages.{
  as_offered, is_peer, checked, in_state, get_contract_in_state, import_funding,
  accept_fail_on_error, on_accept_message, on_accept_verified, on_dlc_message,
}
use dlc_stack.Manager.Messages.Allowed.{funding_address}
use dlc_stack.Manager.Messages.Transitions.{as_offered-some}

-- An accept message of the peer was answered with this reply: the offer was held, and of this peer,
-- its acceptance was verified, the wallet was told to watch the funding output, and the signed
-- contract was stored; nothing else was called, and the reply is the sign message made.
pub record IsSigned (env : Peers) (peer : String) (m : AcceptDlc) (w : Trace)
    (reply : Option DlcMessage) (w' : Trace) : Type 0 where
  pub o : OfferedContract
  pub made : SignedContract × SignDlc
  pub network : String
  pub was_held : env.get_contract w m.temporary_contract_id ≡ ok (some (offered o))
  pub of_peer : is_peer env (some peer) (offered o) ≡ true
  pub verified :
      env.verify_accepted_and_sign_contract (get_contract m.temporary_contract_id ∷ w) o m ≡ ok made
  pub online : env.get_network (get_contract m.temporary_contract_id ∷ w) ≡ ok network
  pub watched :
      env.import_address
        (get_network ∷ get_contract m.temporary_contract_id ∷ w)
        (funding_address env made.0.accepted_contract network)
      ≡ ok tt
  pub stored :
      env.update_contract
        (import_address (funding_address env made.0.accepted_contract network)
          ∷ get_network
          ∷ get_contract m.temporary_contract_id
          ∷ w)
        (signed made.0)
      ≡ ok tt
  pub calls :
      w'
      ≡ update_contract (signed made.0)
        ∷ import_address (funding_address env made.0.accepted_contract network)
        ∷ get_network
        ∷ get_contract m.temporary_contract_id
        ∷ w
  pub replied : reply ≡ some (sign made.1)

module _ {A B : Type 0} where
  -- A block that begins with a call and returns has got an answer.
  answered_first :
      (c : Call) (answer : Trace → Result Error A) (f : A → Action B) (w w' : Trace) (b : B)
      → (ask c answer >>= f) w ≡ (ok b, w')
      → (a : A) × (answer w ≡ ok a) × (f a (c ∷ w) ≡ (ok b, w'))
  unfolding ask
  answered_first c answer f w w' b e = bind-ok_at (ask c answer) f w b w' e

module _ (env : Peers) {A : Type 0} (state : Contract → Option A) where
  in_state-ok :
      (o : Option A) (v v' : Trace) (a : A)
      → in_state env state o v ≡ (ok a, v')
      → (o ≡ some a) × (v ≡ v')
  in_state-ok none v v' a e = absurd (ground (arith, ap (λ p. p.0) e))
  in_state-ok (some x) v v' a e = (ap some (ok-injective x a (ap (λ p. p.0) e)), ap (λ p. p.1) e)

  checked-ok :
      (peer : String) (o : Option Contract) (v v' : Trace) (a : A)
      → checked env state (some peer) o v ≡ (ok a, v')
      → (c : Contract) × (o ≡ some c)
        × (is_peer env (some peer) c ≡ true)
        × (state c ≡ some a)
        × (v ≡ v')
  checked-ok peer none v v' a e = absurd (ground (arith, ap (λ p. p.0) e))
  checked-ok peer (some c) v v' a e = elim (Bool-cases (is_peer env (some peer) c)) [
    | inl b ↦ let (s, t) = in_state-ok (state c) v v' a (rw b at e) in (c, refl, b, s, t)
    | inr b ↦ absurd (ground (arith, ap (λ p. p.0) (rw b at e)))
  ]

module _ (env : Peers) where
  -- The contract that a look-up gives, and what it has called.
  looked_up :
      (peer : String) (m : AcceptDlc) (w v : Trace) (o : OfferedContract)
      → get_contract_in_state env as_offered m.temporary_contract_id (some peer) w ≡ (ok o, v)
      → (env.get_contract w m.temporary_contract_id ≡ ok (some (offered o)))
        × (is_peer env (some peer) (offered o) ≡ true)
        × (get_contract m.temporary_contract_id ∷ w ≡ v)
  unfolding get_contract_in_state
  looked_up peer m w v o e =
      let (answer, found, rest) = answered_first _ _ _ w v o e in
      let (c, is_some, party, state, trace) = checked-ok env as_offered peer answer _ v o rest in
      let same = as_offered-some c o state in
      (
        found ∙ ap ok (is_some ∙ ap some same),
        subst (λ x. is_peer env (some peer) x ≡ true) same party,
        trace,
      )

  -- What has been called once the wallet watches the funding output.
  imported_first :
      {B : Type 0} (c : AcceptedContract) (f : Unit {0} → Action B) (v w' : Trace) (b : B)
      → (import_funding env c >>= f) v ≡ (ok b, w')
      → (network : String) × (env.get_network v ≡ ok network)
        × (env.import_address (get_network ∷ v) (funding_address env c network) ≡ ok tt)
        × (f tt (import_address (funding_address env c network) ∷ get_network ∷ v) ≡ (ok b, w'))
  unfolding ask
  imported_first c f v w' b e =
      let (u, returned, rest) = bind-ok_at (import_funding env c) f v b w' e in
      let (network, online, watched) =
        answered_first get_network env.get_network _ v (import_funding env c v).1 u
          (ap (λ r. (r, (import_funding env c v).1)) returned) in
      (
        network,
        online,
        ap (λ p. p.0) watched,
        subst (λ x. f u x ≡ (ok b, w')) (sym (ap (λ p. p.1) watched)) rest,
      )

  IsSigned_of_verified :
      (peer : String) (m : AcceptDlc) (w w' : Trace) (o : OfferedContract) (msg : DlcMessage)
      (r : Result Error (SignedContract × SignDlc))
      → env.get_contract w m.temporary_contract_id ≡ ok (some (offered o))
      → is_peer env (some peer) (offered o) ≡ true
      → env.verify_accepted_and_sign_contract (get_contract m.temporary_contract_id ∷ w) o m ≡ r
      → on_accept_verified env o m r (get_contract m.temporary_contract_id ∷ w) ≡ (ok msg, w')
      → IsSigned env peer m w (some msg) w'
  unfolding on_accept_verified accept_fail_on_error
  IsSigned_of_verified peer m w w' o msg (err x) found party same e =
      let (u, stores, rest) = answered_first _ _ _ _ w' msg e in
      absurd (ground (arith, ap (λ p. p.0) rest))
  IsSigned_of_verified peer m w w' o msg (ok made) found party same e =
      let (network, online, watched, rest) =
        imported_first made.0.accepted_contract _ (get_contract m.temporary_contract_id ∷ w) w' msg
          e in
      let (u, stores, end) = answered_first _ _ _ _ w' msg rest in
      record {
        o = o;
        made = made;
        network = network;
        was_held = found;
        of_peer = party;
        verified = same;
        online = online;
        watched = watched;
        stored = stores;
        calls = ap (λ p. p.1) (sym end);
        replied = ap some (sym (ok-injective (sign made.1) msg (ap (λ p. p.0) end)));
      }

-- An accept message is answered without an error only if the contract of its id is held as offered,
-- and of the peer that sent it, its acceptance is verified, the wallet watches the funding output, and
-- the signed contract is stored; nothing else is called, and the answer is the sign message that was
-- made with the signed contract.
pub answered_accept-IsSigned :
    (env : Peers) (peer : String) (m : AcceptDlc) (w w' : Trace) (reply : Option DlcMessage)
    → on_dlc_message env (accept m) peer w ≡ (ok reply, w')
    → IsSigned env peer m w reply w'
unfolding on_dlc_message on_accept_message
answered_accept-IsSigned env peer m w w' reply e =
    let (msg, returned, end) = bind-ok_at (on_accept_message env m peer) _ w reply w' e in
    let whole : on_accept_message env m peer w ≡ (ok msg, w') =
      ap (λ r. (r, (on_accept_message env m peer w).1)) returned
      ∙ ap (λ v. (ok msg, v)) (ap (λ p. p.1) end) in
    let look = get_contract_in_state env as_offered m.temporary_contract_id (some peer) in
    let (o, offers, rest) = bind-ok_at look _ w msg w' whole in
    let (found, party, trace) =
      looked_up env peer m w (look w).1 o (ap (λ r. (r, (look w).1)) offers) in
    let at_look =
      subst
        (λ v.
          on_accept_verified env o m (env.verify_accepted_and_sign_contract v o m) v ≡ (ok msg, w'))
        (sym trace) rest in
    subst (λ x. IsSigned env peer m w x w') (ok-injective (some msg) reply (ap (λ p. p.0) end))
      (IsSigned_of_verified env peer m w w' o msg _ found party refl at_look)
