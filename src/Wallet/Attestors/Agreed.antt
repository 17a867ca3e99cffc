-- ===== src/Wallet/Attestors/Agreed.antt =====
-- What the attestors have to answer for a chain to be returned.
use dlc_stack.Base.{
  ◌↔◌, String, ◌≡◌, refl, sym, ap, ◌∙◌, arith, true, Option, none, some, List, [], ◌∷◌, ok,
  ok-injective, inl, inr, Bool-cases, eq_iff, eq_refl, All,
}
use dlc_stack.Wallet.World.{World, Net}
use dlc_stack.Wallet.Attestors.{same_chain, all_same, agreed, chains, get_chain_from_attestors}

same_chain-some : (c : Option String) (d : String) → same_chain c (some d) ≡ true → c ≡ some d
same_chain-some none d e = absurd (ground (arith, e))
same_chain-some (some c) d e = ap some ((eq_iff c d).0 e)

all_same-All :
    (d : String) (cs : List (Option String))
    → all_same (some d) cs ≡ true
    → All (λ c. c ≡ some d) cs
unfolding all_same
all_same-All d [] e = tt
all_same-All d (c ∷ cs) e =
    (same_chain-some c d (ground (arith, e)), all_same-All d cs (ground (arith, e)))

All-all_same :
    (d : String) (cs : List (Option String))
    → All (λ c. c ≡ some d) cs
    → all_same (some d) cs ≡ true
unfolding all_same
All-all_same d [] h = refl
All-all_same d (c ∷ cs) (e, h) = rw (e, eq_refl d, All-all_same d cs h) refl

agreed-All :
    (net : Net) (cs : List (Option String)) (r : String)
    → agreed net cs ≡ ok r
    → (d : String) × (r ≡ net.quote d) × All (λ c. c ≡ some d) cs
unfolding agreed
agreed-All net [] r e = absurd (ground (arith, e))
agreed-All net (none ∷ cs) r e = elim (Bool-cases (all_same none (none ∷ cs))) [
  | inl b ↦ absurd (ground (arith, rw b at e))
  | inr b ↦ absurd (ground (arith, rw b at e))
]
agreed-All net (some d ∷ cs) r e = elim (Bool-cases (all_same (some d) (some d ∷ cs))) [
  | inl b ↦ (
    d,
    sym (ok-injective {E = String} (net.quote d) r (rw b at e)),
    all_same-All d (some d ∷ cs) b,
  )
  | inr b ↦ absurd (ground (arith, rw b at e))
]

All-agreed :
    (net : Net) (c : Option String) (cs : List (Option String)) (d : String)
    → All (λ x. x ≡ some d) (c ∷ cs)
    → agreed net (c ∷ cs) ≡ ok (net.quote d)
unfolding agreed
All-agreed net c cs d (e, h) = rw (e, All-all_same d (some d ∷ cs) (refl, h)) refl

-- Of one or more attestors a chain is returned exactly if every attestor answered with it; it is
-- returned in its JSON form.
pub get_chain_from_attestors-agrees :
    (net : Net) (key : String) (keys : List String) (uuid : String) (w : World) (r : String)
    → ((get_chain_from_attestors net (key ∷ keys) uuid w).0 ≡ ok r)
      ↔ ((d : String) × (r ≡ net.quote d) × All (λ c. c ≡ some d) (chains net (key ∷ keys) uuid w))
unfolding get_chain_from_attestors
get_chain_from_attestors-agrees net key keys uuid w r = (
  agreed-All net (chains net (key ∷ keys) uuid w) r,
  λ (d, same, all). All-agreed net _ (chains net keys uuid w) d all ∙ ap ok (sym same),
)
