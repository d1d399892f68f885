-- ===== src/Doppler/Sends.antt =====
-- What a send with retries submits (packages/doppler/src/tx.ts), and plans of several transactions.
use ratio.Base.{
  ℕ, zero, suc, ◌+◌, ◌*◌, ◌^◌, ◌≤◌, ◌<◌, ◌≡◌, refl, sym, ◌∙◌, ap, List, [], ◌∷◌, ◌++◌, String,
  length, All, All-append, length-append, append_assoc, arith,
}
use ratio.Texts.{Text}
use ratio.Flow.{Result, ok, throw, Machine, ◌>>=◌, call, catch, rethrow}
use ratio.Flow.Ends.{
  Ends, after, Ends-pure, Ends-ask, Ends-tell, Ends-branch, Ends-bind, Ends-catch, Ends-raise,
}
use ratio.Doppler.Node.{
  Ix, Transaction, Sdk, Call, submitted, simulated, slept, Calls, Node, Known, Dop,
}
use ratio.Doppler.Tx.{
  retry, with_retry, sign_message, sign_instructions, send_and_confirm, send_instructions_once,
  send_instructions,
}

abbrev pub World : Type 0
World = Machine Known Call

-- The transactions that were submitted, the latest first.
abbrev pub submissions : Calls → List Transaction
submissions [] = []
submissions (submitted tx ∷ h) = tx ∷ submissions h
submissions (c ∷ h) = submissions h

module _ (sdk : Sdk) (node : Node) where
  -- The transaction carries these instructions for this payer.
  abbrev pub Carries : Text → List Ix → Transaction → Type 0
  Carries payer ixs tx = (tx.payer ≡ payer) × (tx.instructions ≡ ixs)

  -- So it does, and the node answered its submission with an error.
  abbrev pub Failed : Text → List Ix → Transaction → Type 0
  Failed payer ixs tx =
      Carries payer ixs tx × ((h : Calls) × (e : String) × (node.submit h tx ≡ throw e))

  -- Attempts that all failed.
  pub record Attempted (payer : Text) (ixs : List Ix) (limit : ℕ) (txs : List Transaction)
      : Type 0 where
    pub all_failed : All (Failed payer ixs) txs
    pub few : length txs ≤ limit

  -- Attempts of which the last was confirmed; its signature is the result.
  pub record Delivered (payer : Text) (ixs : List Ix) (limit : ℕ) (signature : Text)
      (txs : List Transaction) : Type 0 where
    pub last : Transaction
    pub failures : List Transaction
    pub last_first : txs ≡ last ∷ failures
    pub carries : Carries payer ixs last
    pub at : Calls
    pub accepted : node.submit at last ≡ ok tt
    pub signed_as : signature ≡ sdk.signature last
    pub all_failed : All (Failed payer ixs) failures
    pub few : length failures < limit

  abbrev pub Sends : Text → List Ix → ℕ → World → Result Text → World → Type 0
  Sends payer ixs limit v (ok signature) w =
      (txs : List Transaction) × Delivered payer ixs limit signature txs
      × (submissions w.history ≡ txs ++ submissions v.history)
  Sends payer ixs limit v (throw e) w =
      (txs : List Transaction) × Attempted payer ixs limit txs
      × (submissions w.history ≡ txs ++ submissions v.history)

  nothing_sent :
      (payer : Text) (ixs : List Ix) (v w : World) (e : String)
      → submissions w.history ≡ submissions v.history
      → Sends payer ixs 1 v (throw e) w
  nothing_sent payer ixs v w e same = ([], record { all_failed = tt; few = omega arith }, same)

  abbrev pub Quiet : World → World → Type 0
  Quiet v w = submissions w.history ≡ submissions v.history

  Signs : Text → List Ix → World → Result Transaction → World → Type 0
  Signs payer ixs v (ok tx) w = Carries payer ixs tx × Quiet v w
  Signs payer ixs v (throw e) w = Quiet v w

  sign_message-Signs :
      (payer : Text) (ixs : List Ix) (table : List Text) (v : World)
      → Ends (Signs payer ixs v) (sign_message sdk node payer ixs table) v
  unfolding sign_message Signs
  sign_message-Signs payer ixs table v =
      let P = Signs payer ixs v in
      Ends-ask P _ _ _ _ (λ e _. refl)
        λ hash _. Ends-ask P _ _ _ _ (λ e _. refl) λ _ _. Ends-pure P _ _ ((refl, refl), refl)

  Answered : Transaction → World → Result (Unit {0}) → World → Type 0
  Answered tx v (ok _) w =
      ((h : Calls) × (node.submit h tx ≡ ok tt))
      × (submissions w.history ≡ tx ∷ submissions v.history)
  Answered tx v (throw _) w =
      ((h : Calls) × (e : String) × (node.submit h tx ≡ throw e))
      × (submissions w.history ≡ tx ∷ submissions v.history)

  confirm-Answered :
      (tx : Transaction) (v : World) → Ends (Answered tx v) (send_and_confirm sdk node tx) v
  unfolding send_and_confirm Answered
  confirm-Answered tx v =
      let P = Answered tx v in
      Ends-tell P _ _ v (λ e bad. ((v.history, e, bad), refl)) λ _ good. ((v.history, good), refl)

  explained-Answered :
      (tx : Transaction) (v : World)
      → Ends
          (Answered tx v)
          (catch
            (send_and_confirm sdk node tx)
            (λ e. call (simulated tx) (λ h. node.simulate h tx) >>= λ _. rethrow e))
          v
  unfolding Answered
  explained-Answered tx v =
      let P = Answered tx v in
      Ends-catch P {Q = P} _ _ _ (confirm-Answered tx v) (λ _ w q. q)
        λ e w q. Ends-ask P _ _ _ _ (λ _ _. q) λ _ _. Ends-raise P _ _ q

  failed_once :
      (payer : Text) (ixs : List Ix) (tx : Transaction) (e : String) (v u w : World)
      → Carries payer ixs tx
      → Quiet v u
      → Answered tx u (throw e) w
      → Sends payer ixs 1 v (throw e) w
  unfolding Answered
  failed_once payer ixs tx e v u w c q a =
      (tx ∷ [], record { all_failed = ((c, a.0), tt); few = omega arith }, a.1 ∙ ap (λ l. tx ∷ l) q)

  delivered_once :
      (payer : Text) (ixs : List Ix) (tx : Transaction) (v u w : World)
      → Carries payer ixs tx
      → Quiet v u
      → Answered tx u (ok tt) w
      → Sends payer ixs 1 v (ok (sdk.signature tx)) w
  unfolding Answered
  delivered_once payer ixs tx v u w c q a = (
    tx ∷ [],
    record {
      last = tx;
      failures = [];
      last_first = refl;
      carries = c;
      at = a.0.0;
      accepted = a.0.1;
      signed_as = refl;
      all_failed = tt;
      few = omega arith;
    },
    a.1 ∙ ap (λ l. tx ∷ l) q,
  )

  -- One attempt submits at most once.
  once-Sends :
      (payer : Text) (ixs : List Ix) (v : World)
      → Ends (Sends payer ixs 1 v) (send_instructions_once sdk node payer ixs) v
  unfolding send_instructions_once sign_instructions Signs
  once-Sends payer ixs v =
      let P = Sends payer ixs 1 v in
      Ends-bind P {Q = Signs payer ixs v} _ _ _ (sign_message-Signs payer ixs [] v)
        (λ e u q. nothing_sent payer ixs v u e q)
        λ tx u q.
          Ends-bind P {Q = Answered tx u} _ _ _ (explained-Answered tx u)
            (λ e w a. failed_once payer ixs tx e v u w q.0 q.1 a)
            λ _ w a. Ends-pure P _ _ (delivered_once payer ixs tx v u w q.0 q.1 a)

  join :
      (payer : Text) (ixs : List Ix) (left : ℕ) (e : String) (v u w : World) (res : Result Text)
      → Sends payer ixs 1 v (throw e) u
      → Sends payer ixs left u res w
      → Sends payer ixs (suc left) v res w
  join payer ixs left e v u w (ok signature) (first, failed, there) (rest, d, then) = (
    rest ++ first,
    record {
      last = d.last;
      failures = d.failures ++ first;
      last_first = ap (λ l. l ++ first) d.last_first;
      carries = d.carries;
      at = d.at;
      accepted = d.accepted;
      signed_as = d.signed_as;
      all_failed = All-append (Failed payer ixs) d.failures first d.all_failed failed.all_failed;
      few = omega (arith, length-append d.failures first, d.few, failed.few);
    },
    then ∙ ap (λ l. rest ++ l) there ∙ sym (append_assoc rest first (submissions v.history)),
  )
  join payer ixs left e v u w (throw e') (first, failed, there) (rest, d, then) = (
    rest ++ first,
    record {
      all_failed = All-append (Failed payer ixs) rest first d.all_failed failed.all_failed;
      few = omega (arith, length-append rest first, d.few, failed.few);
    },
    then ∙ ap (λ l. rest ++ l) there ∙ sym (append_assoc rest first (submissions v.history)),
  )

  widen :
      (payer : Text) (ixs : List Ix) (left : ℕ) (v w : World) (res : Result Text)
      → Sends payer ixs 1 v res w
      → Sends payer ixs (suc left) v res w
  widen payer ixs left v w (ok signature) (txs, d, there) = (
    txs,
    record {
      last = d.last;
      failures = d.failures;
      last_first = d.last_first;
      carries = d.carries;
      at = d.at;
      accepted = d.accepted;
      signed_as = d.signed_as;
      all_failed = d.all_failed;
      few = omega (arith, d.few);
    },
    there,
  )
  widen payer ixs left v w (throw e) (txs, d, there) =
      (txs, record { all_failed = d.all_failed; few = omega (arith, d.few) }, there)

  retry-Sends :
      (payer : Text) (ixs : List Ix) (step : Dop Text)
      → ((v : World) → Ends (Sends payer ixs 1 v) step v)
      → (left round : ℕ) (last : String) (v : World)
      → Ends (Sends payer ixs left v) (retry left round last step) v
  unfolding retry
  retry-Sends payer ixs step once zero round last v =
      Ends-raise (Sends payer ixs 0 v) _ _ ([], record { all_failed = tt; few = omega arith }, refl)
  retry-Sends payer ixs step once (suc left) round last v =
      let P = Sends payer ixs (suc left) v in
      let again =
        λ (e : String) (u : World). retry-Sends payer ixs step once left (round + 1) e u in
      Ends-catch P {Q = Sends payer ixs 1 v} _ _ _ (once v)
        (λ s w q. widen payer ixs left v w (ok s) q)
        λ e u q.
          Ends-branch P _ _ _ _
            (λ _.
              Ends-ask P _ _ _ _ (λ e' bad. cc bad)
                λ _ _.
                  let z = after (slept (3000 * 2 ^ round)) u in
                  record { ends = join payer ixs left e v z _ _ q (again e z).ends })
            (λ _. Ends-raise P _ _ (widen payer ixs left v u (throw e) q))

  -- At most four submissions, each with the same instructions; all but a confirmed last one failed.
  pub send-Sends :
      (payer : Text) (ixs : List Ix) (v : World)
      → Ends (Sends payer ixs 4 v) (send_instructions sdk node payer ixs) v
  unfolding send_instructions with_retry
  send-Sends payer ixs v =
      retry-Sends payer ixs (send_instructions_once sdk node payer ixs) (once-Sends payer ixs) 4 0
        "" v
