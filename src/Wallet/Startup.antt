-- ===== src/Wallet/Startup.antt =====
-- `generate_attestor_client` of wallet/src/main.rs: a client for each attestor, before requests are
-- served.
use dlc_stack.Base.{ℕ, String, ◌==◌, if◌then◌else◌, Option, none, some, List, [], ◌∷◌, ok, err}
use dlc_stack.Manager.Types.{Error}
use dlc_stack.Clients.Api.{Stateful}
use dlc_stack.Attestor.Client.{AttestorClient, new}
use dlc_stack.Wallet.World.{World, Net, get_public_key, requested}
use dlc_stack.Wallet.Retry.{retry}

-- The map from public keys, in which a later client replaces one with its key.
abbrev pub Clients : Type 0
Clients = List (String × AttestorClient)

unfoldable pub insert : String → AttestorClient → Clients → Clients
insert key c [] = (key, c) ∷ []
insert key c (x ∷ rest) =
    let more = insert key c rest in if x.0 == key then (key, c) ∷ rest else x ∷ more

abbrev pub attempts : ℕ
attempts = 6

module _ (net : Net) where
  abbrev pub connect : String → Stateful World Error AttestorClient
  connect url w = (new (net.http w) url, requested (get_public_key url) w)

  -- No map is a panic, after six attempts at a client.
  unfoldable pub generate_attestor_client : List String → Clients → World → Option (Clients × World)
  unfolding insert
  generate_attestor_client [] clients w = some (clients, w)
  generate_attestor_client (url ∷ urls) clients w =
      elim (retry (connect url) attempts attempts 0 w) [
        | none ↦ none
        | some (ok client, w') ↦
            generate_attestor_client urls (insert client.public_key client clients) w'
        | some (err e, w') ↦ none
      ]
