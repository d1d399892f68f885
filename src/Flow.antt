-- ===== src/Flow.antt =====
-- Async methods as a monad: what is kept stays when a method throws, calls of the surroundings are
-- recorded, and there are `try` and `Promise.all`. The methods of `RatioEngine`
-- (apps/agent/src/engine.ts) and of `EvmMarketChain` (packages/chain/src/evm/index.ts), and the bets of
-- the web (apps/web/lib/betServer.ts), are written in it.
use ratio.Base.{Bool, true, false, Option, none, some, List, ◌∷◌, String}
pub mod Ends

-- A thrown `Error`, by its message.
pub data Result {ℓ} (A : Type ℓ) : Type ℓ where
  ok : A → Result A
  throw : String → Result A

-- What a method works on: what it keeps, and the calls of its surroundings so far, newest first.
pub record Machine (S E : Type 0) : Type 0 where
  pub store : S
  pub history : List E

abbrev pub Flow {ℓ} : Type 0 → Type 0 → Type ℓ → Type ℓ
Flow S E A = Machine S E → Result A × Machine S E

-- `Promise.all` of two: both run, and the first failure is thrown when both have run.
unfoldable pub both_results {ℓ κ} : {A : Type ℓ} {B : Type κ} → Result A → Result B → Result (A × B)
both_results (ok a) (ok b) = ok (a, b)
both_results (ok a) (throw e) = throw e
both_results (throw e) _ = throw e

module _ {S E : Type 0} where
  -- What follows a step: nothing, if it threw.
  unfoldable pub follow {ℓ κ} :
      {A : Type ℓ} {B : Type κ} → Result A × Machine S E → (A → Flow S E B) → Result B × Machine S E
  follow (ok a, w) f = f a w
  follow (throw e, w) f = (throw e, w)

  infixl 5 ◌>>=◌ ◌>>◌
  unfoldable pub ◌>>=◌ {ℓ κ} :
      {A : Type ℓ} {B : Type κ} → Flow S E A → (A → Flow S E B) → Flow S E B
  unfolding follow
  ◌>>=◌ m f w = follow (m w) f

  abbrev pub ◌>>◌ {ℓ} : {B : Type ℓ} → Flow S E (Unit {0}) → Flow S E B → Flow S E B
  m >> k = m >>= λ _. k

  unfoldable pub pure {ℓ} : {A : Type ℓ} → A → Flow S E A
  pure a w = (ok a, w)

  abbrev pub done : Flow S E (Unit {0})
  done = pure tt

  -- `try { … } catch (err) { … }`
  unfoldable pub recover {ℓ} :
      {A : Type ℓ} → Result A × Machine S E → (String → Flow S E A) → Result A × Machine S E
  recover (ok a, w) h = (ok a, w)
  recover (throw e, w) h = h e w

  unfoldable pub catch {ℓ} : {A : Type ℓ} → Flow S E A → (String → Flow S E A) → Flow S E A
  unfolding recover
  catch m h w = recover (m w) h

  -- Both run.
  unfoldable pub both {ℓ κ} : {A : Type ℓ} {B : Type κ} → Flow S E A → Flow S E B → Flow S E (A × B)
  unfolding both_results
  both m n w = let (a, w') = m w in let (b, w'') = n w' in (both_results a b, w'')

  -- Access to what is kept does not throw.
  unfoldable pub reads {ℓ} : {A : Type ℓ} → (S → A) → Flow S E A
  reads f w = (ok (f w.store), w)

  unfoldable pub writes : (S → S) → Flow S E (Unit {0})
  writes f w = (ok tt, record w { store = f w.store })

  -- A call of the surroundings: it is recorded, whatever they answer.
  unfoldable pub call {ℓ} : {A : Type ℓ} → E → (List E → Result A) → Flow S E A
  call e answer w = (answer w.history, record w { history = e ∷ w.history })

  -- `throw err` of an error that was caught.
  unfoldable pub rethrow {ℓ} : {A : Type ℓ} → String → Flow S E A
  rethrow e w = (throw e, w)

  -- `if (b) { … } else { … }`, and a test of a value for `undefined`.
  unfoldable pub branch {ℓ} : {A : Type ℓ} → Bool → Flow S E A → Flow S E A → Flow S E A
  branch true m n = m
  branch false m n = n

  unfoldable pub cases {ℓ κ} :
      {A : Type ℓ} {B : Type κ} → Option A → Flow S E B → (A → Flow S E B) → Flow S E B
  cases none m f = m
  cases (some a) m f = f a

-- Names every operation of the monad, for proofs and tests that compute with them.
unfoldable pub monad : Unit {0}
unfolding ◌>>=◌ pure catch both reads writes call rethrow branch cases
monad = tt
