-- ===== src/Clients/Refines.antt =====
-- One way of answering calls that refines another: on states that correspond, both succeed with the
-- same value or both fail, whatever the errors say, and they leave states that correspond.
use mathlib.Core.Option.{some-injective}
use dlc_stack.Base.{
  String, ◌≡◌, refl, ap, sym, ◌∙◌, arith, Option, none, some, Result, ok, err, map_err,
}
use dlc_stack.Clients.Api.{
  Stateful, ◌>>=◌, lift, failing_as, continue, StorageApi, create_contract, update_contract,
  delete_contract,
}
use dlc_stack.Storage.Models.{NewContract, UpdateContract, DeleteContract, ContractRequestParams}

abbrev pub value_of : {E A : Type 0} → Result E A → Option A
value_of (ok a) = some a
value_of (err e) = none

module _ {S T : Type 0} (view : S → T) where
  pub record Refines {E F A : Type 0} (m : Stateful S E A) (n : Stateful T F A) : Type 0 where
    pub same_value : (s : S) → value_of (m s).0 ≡ value_of (n (view s)).0
    pub same_state : (s : S) → view (m s).1 ≡ (n (view s)).1

  -- What follows a call, when it does the like for results of one value.
  pub Refines-then :
      {E F G H A B : Type 0} (m : Stateful S E A) (n : Stateful T F A)
      (f : Result E A → Stateful S G B) (g : Result F A → Stateful T H B)
      → Refines m n
      → ((r : Result E A) (r' : Result F A) → value_of r ≡ value_of r' → Refines (f r) (g r'))
      → Refines (λ s. f (m s).0 (m s).1) (λ t. g (n t).0 (n t).1)
  Refines-then m n f g h k = record {
    same_value = λ s.
        (k (m s).0 (n (view s)).0 (h.same_value s)).same_value (m s).1
        ∙ ap (λ t. value_of (g (n (view s)).0 t).0) (h.same_state s);
    same_state = λ s.
        (k (m s).0 (n (view s)).0 (h.same_value s)).same_state (m s).1
        ∙ ap (λ t. (g (n (view s)).0 t).1) (h.same_state s);
  }

  continue-Refines :
      {E F A B : Type 0} (f : A → Stateful S E B) (g : A → Stateful T F B)
      → ((a : A) → Refines (f a) (g a))
      → (r : Result E A) (r' : Result F A) → value_of r ≡ value_of r'
      → Refines (continue r f) (continue r' g)
  continue-Refines f g k (ok a) (ok b) e = rw (some-injective a b e) (k b)
  continue-Refines f g k (ok a) (err y) e = absurd (ground (arith, e))
  continue-Refines f g k (err x) (ok b) e = absurd (ground (arith, e))
  continue-Refines f g k (err x) (err y) e = record {
    same_value = λ s. refl;
    same_state = λ s. refl;
  }

  pub Refines-bind :
      {E F A B : Type 0} (f : A → Stateful S E B) (g : A → Stateful T F B)
      → ((a : A) → Refines (f a) (g a))
      → (m : Stateful S E A) (n : Stateful T F A) → Refines m n
      → Refines (m >>= f) (n >>= g)
  Refines-bind f g k m n h =
      Refines-then m n (λ r. continue r f) (λ r. continue r g) h (continue-Refines f g k)

  pub Refines-lift :
      {E F A : Type 0} (r : Result E A) (r' : Result F A)
      → value_of r ≡ value_of r'
      → Refines (lift r) (lift r')
  Refines-lift r r' e = record { same_value = λ s. e; same_state = λ s. refl }

module _ {E F A : Type 0} where
  pub value_of-map_err : (f : E → F) (r : Result E A) → value_of (map_err f r) ≡ value_of r
  value_of-map_err f (ok a) = refl
  value_of-map_err f (err e) = refl

module _ {S T : Type 0} (view : S → T) where
  pub Refines-failing_as :
      {E F G H A : Type 0} (f : E → G) (g : F → H) (m : Stateful S E A) (n : Stateful T F A)
      → Refines view m n
      → Refines view (failing_as f m) (failing_as g n)
  Refines-failing_as f g m n h = record {
    same_value =
        λ s. value_of-map_err f (m s).0 ∙ h.same_value s ∙ sym (value_of-map_err g (n (view s)).0);
    same_state = h.same_state;
  }

-- A storage API that refines another on the requests that carry a key.
pub record RefinesApi {S T : Type 0} (view : S → T) (key : String) (api : StorageApi S)
    (spec : StorageApi T) : Type 0 where
  pub listed :
      (p : ContractRequestParams)
      → p.key ≡ key
      → Refines view (api.get_contracts p) (spec.get_contracts p)
  pub created : (c : NewContract) → Refines view (create_contract api c) (create_contract spec c)
  pub updated : (u : UpdateContract) → Refines view (update_contract api u) (update_contract spec u)
  pub deleted : (d : DeleteContract) → Refines view (delete_contract api d) (delete_contract spec d)
