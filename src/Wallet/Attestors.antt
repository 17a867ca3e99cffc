-- ===== src/Wallet/Attestors.antt =====
-- The attestors of the router wallet: `get_attestors` and `get_chain_from_attestors` of
-- wallet/src/main.rs.
pub mod Agreed
use dlc_stack.Base.{
  ℕ, String, Bool, true, false, ◌&&◌, ◌==◌, if◌then◌else◌, Option, none, some, List, [], ◌∷◌, ◌++◌,
  map, Result, ok, err, map_err, ◌≡◌, refl, sym, ap, ◌∙◌, arith, inl, inr, Bool-cases, eq_iff,
  eq_refl, All, ◌>>=◌ as and_then,
}
use dlc_stack.Manager.Types.{Error, oracle_error}
use dlc_stack.Clients.Api.{Stateful}
use dlc_stack.Attestor.Client as Client
use dlc_stack.Wallet.World.{World, Net, Request, get_all_attestors, get_chain, requested}

abbrev some_attestors : List String → Result Error (List String)
some_attestors [] = err (oracle_error "No attestors found")
some_attestors (a ∷ attestors) = ok (a ∷ attestors)

abbrev to_option : Result Error String → Option String
to_option (ok chain) = some chain
to_option (err e) = none

abbrev pub same_chain : Option String → Option String → Bool
same_chain none none = true
same_chain none (some d) = false
same_chain (some c) none = false
same_chain (some c) (some d) = c == d

unfoldable pub all_same : Option String → List (Option String) → Bool
all_same first [] = true
all_same first (c ∷ rest) = let others = all_same first rest in same_chain c first && others

module _ (net : Net) where
  unfoldable pub get_attestors : Stateful World Error (List String)
  get_attestors w = (
    and_then (map_err oracle_error (net.attestors w)) some_attestors,
    requested get_all_attestors w,
  )

  abbrev pub json_chain : Option String → Result String String
  json_chain none = err "Failed to get chain from attestors"
  json_chain (some chain) = ok (net.quote chain)

  unfoldable pub agreed : List (Option String) → Result String String
  agreed [] = err "Chains from attestors are not all the same."
  agreed (c ∷ rest) =
      if all_same c (c ∷ rest)
      then json_chain c
      else err "Chains from attestors are not all the same."

  -- The answers of the attestors, by their keys.
  abbrev pub chains : List String → String → World → List (Option String)
  chains keys uuid w = map (λ k. to_option (Client.get_chain (net.http w) (net.client k) uuid)) keys

  unfoldable pub get_chain_from_attestors : List String → String → Stateful World String String
  get_chain_from_attestors keys uuid w = (
    agreed (chains keys uuid w),
    record w { requests = w.requests ++ map (λ k. get_chain k uuid) keys },
  )
