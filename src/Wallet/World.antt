-- ===== src/Wallet/World.antt =====
-- The surroundings of the router wallet: the calls of its manager, and the requests that it sends to
-- attestors and to the blockchain interface.
use dlc_stack.Base.{ℕ, String, List, ◌∷◌, [], ◌++◌, Result}
use dlc_stack.Manager.Types.{Error}
use dlc_stack.Manager.Monad.{Trace, Action}
use dlc_stack.Clients.Api.{Stateful}
use dlc_stack.Attestor.Attest.{OracleAnnouncement}
use dlc_stack.Attestor.Client as Client

pub record Notice : Type 0 where
  pub uuid : String
  pub btc_tx_id : String
  pub chain : String

pub data Request : Type 0 where
  get_all_attestors : Request
  -- the public key of the attestor at a URL
  get_public_key : String → Request
  -- the chain of an event, of the attestor with this key
  get_chain : String → String → Request
  set_status_funded post_close_dlc : Notice → Request

-- The requests are in the order in which they were sent.
pub record World : Type 0 where
  pub trace : Trace
  pub requests : List Request

-- What answers: the attestors by their public keys, HTTP requests to them, the list of attestors and
-- the status of an answer of the blockchain interface; with the JSON form of a text and the texts
-- of errors.
pub record Net : Type 0 where
  pub client : String → Client.AttestorClient
  pub http : World → Client.Lib OracleAnnouncement
  pub attestors : World → Result String (List String)
  pub post : World → Request → Result String ℕ
  pub quote : String → String
  pub show_error : Error → String

abbrev pub requested : Request → World → World
requested r w = record w { requests = w.requests ++ r ∷ [] }

-- What the manager or its storage does.
abbrev pub managed : {A : Type 0} → Action A → Stateful World Error A
managed m w = let (r, t) = m w.trace in (r, record w { trace = t })
