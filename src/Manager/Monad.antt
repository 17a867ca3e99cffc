-- ===== src/Manager/Monad.antt =====
-- The manager talks to its storage, blockchain, oracles, wallet and clock by calls that may fail.
-- A method is an action on the trace of the calls that were made, newest first; what was called
-- before an error stays called.
use dlc_stack.Base.{String, ◌≡◌, refl, ap, List, ◌∷◌, arith, Result, ok, err}
use dlc_stack.Manager.Types.{ContractId, Error, Transaction, OfferedContract, Contract}

pub data Call : Type 0 where
  get_contract : ContractId → Call
  get_signed_contracts get_confirmed_contracts get_preclosed_contracts : Call
  create_contract : OfferedContract → Call
  update_contract : Contract → Call
  get_transaction_confirmations : String → Call
  send_transaction : Transaction → Call
  get_network : Call
  get_unixtime : Call
  get_announcement get_attestation : String → String → Call
  import_address : String → Call

abbrev pub Trace : Type 0
Trace = List Call

abbrev pub Action : Type 0 → Type 0
Action A = Trace → Result Error A × Trace

module _ {A : Type 0} where
  abbrev pub pure : A → Action A
  pure a w = (ok a, w)

  abbrev pub raise : Error → Action A
  raise e w = (err e, w)

  unfoldable pub lift : Result Error A → Action A
  lift r w = (r, w)

  -- A call, with the answer that the surroundings give after this trace.
  unfoldable pub ask : Call → (Trace → Result Error A) → Action A
  ask c answer w = (answer w, c ∷ w)

  -- What `match x.await { Ok(..) .. Err(..) .. }` looks at.
  unfoldable pub attempt : Action A → Action (Result Error A)
  attempt m w = let (r, w') = m w in (ok r, w')

module _ {A B : Type 0} where
  abbrev pub continue : Result Error A → (A → Action B) → Action B
  continue (ok a) f w = f a w
  continue (err e) f w = (err e, w)

  infixl 5 ◌>>=◌ ◌>>◌
  unfoldable pub ◌>>=◌ : Action A → (A → Action B) → Action B
  ◌>>=◌ m f w = let (r, w') = m w in continue r f w'

  abbrev pub ◌>>◌ : Action A → Action B → Action B
  m >> n = m >>= λ _. n

-- A trace that goes on from another one by calls of which `P` holds, each after the trace so far.
pub data Extends (P : Trace → Call → Type 0) (w : Trace) : Trace → Type 0 where
  same : Extends P w w
  more : {v : Trace} {c : Call} → Extends P w v → P v c → Extends P w (c ∷ v)

pub Extends-trans :
    {P : Trace → Call → Type 0} {u v w : Trace} → Extends P u v → Extends P v w → Extends P u w
Extends-trans e same = e
Extends-trans e (more f p) = more (Extends-trans e f) p

-- Every call that the action makes satisfies `P`.
pub record Emits {A : Type 0} (P : Trace → Call → Type 0) (m : Action A) : Type 0 where
  pub at : (w : Trace) → Extends P w (m w).1

module _ {P : Trace → Call → Type 0} {A : Type 0} where
  pub Emits-pure : (a : A) → Emits P (pure a)
  Emits-pure a = record { at = λ w. same }

  pub Emits-lift : (r : Result Error A) → Emits P (lift r)
  unfolding lift
  Emits-lift r = record { at = λ w. same }

  pub Emits-ask :
      (c : Call) (answer : Trace → Result Error A) → ((w : Trace) → P w c) → Emits P (ask c answer)
  unfolding ask
  Emits-ask c answer p = record { at = λ w. more same (p w) }

  pub ask_last :
      (c : Call) (answer : Trace → Result Error A) (u w : Trace)
      → Extends P u w
      → P w c
      → Extends P u (ask c answer w).1
  unfolding ask
  ask_last c answer u w e p = more e p

  pub Emits-attempt : (m : Action A) → Emits P m → Emits P (attempt m)
  unfolding attempt
  Emits-attempt m e = record { at = λ w. e.at w }

module _ {P : Trace → Call → Type 0} {A B : Type 0} where
  continue-Extends :
      (r : Result Error A) (f : A → Action B) (u w : Trace)
      → Extends P u w
      → ((a : A) → r ≡ ok a → Extends P u (f a w).1)
      → Extends P u (continue r f w).1
  continue-Extends (ok a) f u w e k = k a refl
  continue-Extends (err x) f u w e k = e

  bind_inner :
      {C : Type 0} (r : Result Error A) (g : A → Action C) (f : C → Action B) (u w : Trace)
      → Extends P u w
      → ((a : A) → r ≡ ok a → Extends P u ((g a >>= f) w).1)
      → Extends P u (((λ v. continue r g v) >>= f) w).1
  unfolding ◌>>=◌
  bind_inner (ok a) g f u w e k = k a refl
  bind_inner (err x) g f u w e k = e

  pub Emits-bind :
      (m : Action A) (f : A → Action B) → Emits P m → ((a : A) → Emits P (f a)) → Emits P (m >>= f)
  unfolding ◌>>=◌
  Emits-bind m f e k = record {
    at = λ w.
        let (r, w') = m w in
        continue-Extends r f w w' (e.at w) (λ a _. Extends-trans (e.at w) ((k a).at w'));
  }

  -- The rest of the block may use the answer, and that the call is the newest of the trace.
  pub ask_step :
      (c : Call) (answer : Trace → Result Error A) (f : A → Action B) (u w : Trace)
      → Extends P u w
      → P w c
      → ((a : A) → answer w ≡ ok a → Extends P u (c ∷ w) → Extends P u (f a (c ∷ w)).1)
      → Extends P u ((ask c answer >>= f) w).1
  unfolding ask ◌>>=◌
  ask_step c answer f u w e p k =
      continue-Extends (answer w) f u (c ∷ w) (more e p)
        (λ a same_answer. k a same_answer (more e p))

  -- The same for a call inside of a block that another one begins with.
  pub ask_step_inner :
      {C : Type 0} (c : Call) (answer : Trace → Result Error A) (g : A → Action C)
      (f : C → Action B) (u w : Trace)
      → Extends P u w
      → P w c
      → ((a : A) → answer w ≡ ok a → Extends P u (c ∷ w) → Extends P u ((g a >>= f) (c ∷ w)).1)
      → Extends P u (((ask c answer >>= g) >>= f) w).1
  unfolding ask ◌>>=◌
  ask_step_inner c answer g f u w e p k =
      bind_inner (answer w) g f u (c ∷ w) (more e p) (λ a same_answer. k a same_answer (more e p))

  pub pure_step :
      (a : A) (f : A → Action B) (u w : Trace)
      → Extends P u (f a w).1
      → Extends P u ((pure a >>= f) w).1
  unfolding ◌>>=◌
  pure_step a f u w e = e

  pub lift_step :
      (r : Result Error A) (f : A → Action B) (u w : Trace)
      → Extends P u w
      → ((a : A) → r ≡ ok a → Extends P u (f a w).1)
      → Extends P u ((lift r >>= f) w).1
  unfolding lift ◌>>=◌
  lift_step r f u w e k = continue-Extends r f u w e k

  -- A result that depends on what was called before.
  pub lift_at_step :
      (r : Trace → Result Error A) (f : A → Action B) (u w : Trace)
      → Extends P u w
      → ((a : A) → r w ≡ ok a → Extends P u (f a w).1)
      → Extends P u (((λ v. lift (r v) v) >>= f) w).1
  unfolding lift ◌>>=◌
  lift_at_step r f u w e k = continue-Extends (r w) f u w e k

  pub attempt_step :
      (m : Action A) (f : Result Error A → Action B) (u w : Trace)
      → ((r : Result Error A) → (m w).0 ≡ r → Extends P u (f r (m w).1).1)
      → Extends P u ((attempt m >>= f) w).1
  unfolding attempt ◌>>=◌
  attempt_step m f u w k = k (m w).0 refl

module _ {A B : Type 0} where
  continue-ok :
      (r : Result Error A) (f : A → Action B) (w : Trace) (b : B)
      → (continue r f w).0 ≡ ok b
      → (a : A) × (r ≡ ok a) × ((f a w).0 ≡ ok b)
  continue-ok (ok a) f w b e = (a, refl, e)
  continue-ok (err x) f w b e = absurd (ground (arith, e))

  -- A block that returns has passed its first action.
  pub bind-ok :
      (m : Action A) (f : A → Action B) (w : Trace) (b : B)
      → ((m >>= f) w).0 ≡ ok b
      → (a : A) × ((m w).0 ≡ ok a) × ((f a (m w).1).0 ≡ ok b)
  unfolding ◌>>=◌
  bind-ok m f w b e = continue-ok (m w).0 f (m w).1 b e

  continue-ok_at :
      (r : Result Error A) (f : A → Action B) (w : Trace) (b : B) (v : Trace)
      → continue r f w ≡ (ok b, v)
      → (a : A) × (r ≡ ok a) × (f a w ≡ (ok b, v))
  continue-ok_at (ok a) f w b v e = (a, refl, e)
  continue-ok_at (err x) f w b v e = absurd (ground (arith, ap (λ p. p.0) e))

  -- The same, with the trace that the block ends in.
  pub bind-ok_at :
      (m : Action A) (f : A → Action B) (w : Trace) (b : B) (v : Trace)
      → (m >>= f) w ≡ (ok b, v)
      → (a : A) × ((m w).0 ≡ ok a) × (f a (m w).1 ≡ (ok b, v))
  unfolding ◌>>=◌
  bind-ok_at m f w b v e = continue-ok_at (m w).0 f (m w).1 b v e
