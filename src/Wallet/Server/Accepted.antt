-- ===== src/Wallet/Server/Accepted.antt =====
-- What must have happened when the router wallet accepts an offer.
use dlc_stack.Base.{
  String, List, ◌≡◌, refl, sym, ap, ◌∙◌, arith, Option, none, some, Result, ok, err, map_err,
}
use dlc_stack.Manager.Types.{
  Error, AcceptDlc, SignDlc, Contract, DlcMessage, accept, sign, offer, other_message,
}
use dlc_stack.Manager.Monad.{Trace}
use dlc_stack.Manager.Peers.{Peers}
use dlc_stack.Manager.Messages.{on_dlc_message}
use dlc_stack.Manager.Messages.Signed.{IsSigned, answered_accept-IsSigned}
use dlc_stack.Clients.Api.{Stateful, continue}
use dlc_stack.Wallet.World.{World, Net}
use dlc_stack.Wallet.Offers.{static_counterparty_node_id, sign_message, accept_offer}
use dlc_stack.Wallet.Server.{
  Lib, put, offer_accept, parsed_accept, respond, put_accept, process, process_request,
}

-- The message in the body was accepted: the manager has signed the contract with the static counter
-- party, and the text that is answered is that of the sign message; nothing but the manager's calls
-- has been done.
pub record IsAccepted (dep : Lib) (env : Peers) (body : Result String String) (w : World)
    (text : String) (w' : World) : Type 0 where
  pub m : AcceptDlc
  pub parsed : parsed_accept dep body ≡ ok m
  pub s : SignDlc
  pub written : dep.offers.sign_text s ≡ ok text
  pub trace : Trace
  pub signed : IsSigned env static_counterparty_node_id m w.trace (some (sign s)) trace
  pub only : w' ≡ record w { trace = trace }

module _ (dep : Lib) where
  respond-ok :
      (p : Result String String × World)
      → (respond dep p).0.status ≡ 200
      → p ≡ (ok (respond dep p).0.body, (respond dep p).1)
  respond-ok (ok text, w) e = refl
  respond-ok (err x, w) e = absurd (ground (arith, e))

  sign_message-ok :
      (env : Peers) (reply : Option DlcMessage) (text : String)
      → sign_message env dep.offers reply ≡ ok text
      → (s : SignDlc) × (reply ≡ some (sign s)) × (dep.offers.sign_text s ≡ ok text)
  sign_message-ok env (some (sign s)) text e = (s, refl, e)
  sign_message-ok env (some (offer o)) text e = absurd (ground (arith, e))
  sign_message-ok env (some (accept a)) text e = absurd (ground (arith, e))
  sign_message-ok env (some other_message) text e = absurd (ground (arith, e))
  sign_message-ok env none text e = absurd (ground (arith, e))

  module _ (env : Peers) (m : AcceptDlc) (w w' : World) (text : String) where
    on_dlc_message-IsAccepted :
        (p : Result Error (Option DlcMessage) × Trace)
        → on_dlc_message env (accept m) static_counterparty_node_id w.trace ≡ p
        → continue
            (map_err dep.offers.show_error p.0)
            (λ reply v. (sign_message env dep.offers reply, v))
            (record w { trace = p.1 })
          ≡ (ok text, w')
        → (body : Result String String) → parsed_accept dep body ≡ ok m
        → IsAccepted dep env body w text w'
    on_dlc_message-IsAccepted (err x, t) run e body parsed =
        absurd (ground (arith, ap (λ q. q.0) e))
    on_dlc_message-IsAccepted (ok reply, t) run e body parsed =
        let (s, is_sign, written) = sign_message-ok env reply text (ap (λ q. q.0) e) in
        record {
          m = m;
          parsed = parsed;
          s = s;
          written = written;
          trace = t;
          signed =
              answered_accept-IsSigned env static_counterparty_node_id m w.trace t (some (sign s))
                (run ∙ ap (λ r. (ok r, t)) is_sign);
          only = sym (ap (λ q. q.1) e);
        }

  put_accept-IsAccepted :
      (env : Peers) (w w' : World) (text : String) (body : Result String String)
      (r : Result String AcceptDlc)
      → parsed_accept dep body ≡ r
      → continue r (λ m. accept_offer env dep.offers m) w ≡ (ok text, w')
      → IsAccepted dep env body w text w'
  unfolding accept_offer
  put_accept-IsAccepted env w w' text body (err x) parsed e =
      absurd (ground (arith, ap (λ q. q.0) e))
  put_accept-IsAccepted env w w' text body (ok m) parsed e =
      on_dlc_message-IsAccepted env m w w' text
        (on_dlc_message env (accept m) static_counterparty_node_id w.trace) refl e body parsed

-- A request to accept an offer is answered with status 200 only if its body holds an accept message
-- that the manager has taken from the static counter party: the offer was held, the acceptance was
-- verified, and the signed contract is stored. The body of the answer is the text of the sign message
-- that was made with that contract, and nothing but the manager's calls has been done.
pub process_request-IsAccepted :
    (dep : Lib) (env : Peers) (net : Net) (get_contracts : Stateful World Error (List Contract))
    (address active_network : String) (body : Result String String) (w : World)
    → (process_request dep env net get_contracts address active_network
        (record { method = put; path = offer_accept; body = body })
        w).0.status
      ≡ 200
    → IsAccepted dep env body w
        (process_request dep env net get_contracts address active_network
          (record { method = put; path = offer_accept; body = body })
          w).0.body
        (process_request dep env net get_contracts address active_network
          (record { method = put; path = offer_accept; body = body })
          w).1
unfolding process_request process put_accept
process_request-IsAccepted dep env net get_contracts address active_network body w e =
    put_accept-IsAccepted dep env w _ _ body (parsed_accept dep body) refl
      (respond-ok dep (put_accept dep env net get_contracts address active_network body w) e)
