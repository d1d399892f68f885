-- ===== src/Doppler/Tx.antt =====
-- The transactions of packages/doppler/src/tx.ts: signing, sending with retries, and the send of a
-- launch through a lookup table.
use ratio.Base.{ℕ, zero, suc, ◌+◌, ◌*◌, ◌^◌, Bool, false, List, [], ◌∷◌, String, ltb}
use ratio.Texts.{Text, codes, lower, contains_any}
use ratio.Flow.{ok, ◌>>=◌, ◌>>◌, pure, done, call, catch, branch, rethrow}
use ratio.Doppler.Node.{
  Ix, Transaction, Sdk, Commitment, confirmed, finalized, made_keypair, asked_blockhash, signed,
  submitted, simulated, asked_slot, slept, Node, Dop,
}

abbrev pub transient_words : List Text
transient_words =
    codes "429"
    ∷ codes "too many requests"
    ∷ codes "websocket failed"
    ∷ codes "websocket was closed"
    ∷ codes "econnreset"
    ∷ codes "fetch failed"
    ∷ codes "socket hang up"
    ∷ []

-- `/429|Too Many Requests|…/i.test(msg)`
unfoldable pub is_transient : String → Bool
is_transient message = contains_any transient_words (lower (codes message))

-- `setTimeout`
abbrev pub sleep : ℕ → Dop (Unit {0})
sleep ms = call (slept ms) (λ _. ok tt)

-- The rounds that are left, the number of this one, and the error of the last.
unfoldable pub retry : {A : Type 0} → ℕ → ℕ → String → Dop A → Dop A
retry zero round last step = rethrow last
retry (suc left) round last step = catch step λ e.
    branch (is_transient e) (sleep (3000 * 2 ^ round) >>= λ _. retry left (round + 1) e step)
      (rethrow e)

unfoldable pub with_retry : {A : Type 0} → Dop A → Dop A
with_retry step = retry 4 0 "" step

module _ (sdk : Sdk) (node : Node) where
  abbrev pub generate_keypair : Dop Text
  generate_keypair = call made_keypair (λ h. ok (node.keypair h))

  abbrev pub get_slot : Commitment → Dop ℕ
  get_slot c = call (asked_slot c) (λ h. node.slot h c)

  -- A message under a fresh blockhash, signed.
  unfoldable pub sign_message : Text → List Ix → List Text → Dop Transaction
  sign_message payer ixs table = do
    hash ← call asked_blockhash node.blockhash
    let tx : Transaction = record {
      payer = payer;
      blockhash = hash;
      instructions = ixs;
      table = table;
    }
    call (signed tx) (λ h. node.sign h tx)
    pure tx

  unfoldable pub sign_instructions : Text → List Ix → Dop Transaction
  sign_instructions payer ixs = sign_message payer ixs []

  unfoldable pub send_and_confirm : Transaction → Dop (Unit {0})
  send_and_confirm tx = call (submitted tx) (λ h. node.submit h tx)

  -- The simulation shows the logs of a transaction that failed, before its error is thrown on.
  unfoldable pub send_instructions_once : Text → List Ix → Dop Text
  send_instructions_once payer ixs = do
    tx ← sign_instructions payer ixs
    catch (send_and_confirm tx)
        (λ e. call (simulated tx) (λ h. node.simulate h tx) >>= λ _. rethrow e)
    pure (sdk.signature tx)

  unfoldable pub send_instructions : Text → List Ix → Dop Text
  send_instructions payer ixs = with_retry (send_instructions_once payer ixs)

  -- Polls while there are rounds left; a read that fails counts as one that is not past the slot.
  unfoldable pub wait_for_slot_after : ℕ → ℕ → Dop (Unit {0})
  wait_for_slot_after zero slot = rethrow "Timed out waiting for lookup table warmup slot"
  wait_for_slot_after (suc left) slot = do
    past ← catch (get_slot confirmed >>= λ current. pure (ltb slot current)) (λ _. pure false)
    branch past done (sleep 500 >>= λ _. wait_for_slot_after left slot)

  -- One attempt at the launch.
  unfoldable pub send_compressed : Text → Ix → List Text → Dop Text
  send_compressed payer ix table = do
    tx ← sign_message payer (ix ∷ []) table
    send_and_confirm tx
    pure (sdk.signature tx)

  unfoldable pub send_initialize_launch_with_lookup_table : Text → Ix → Dop Text
  send_initialize_launch_with_lookup_table payer ix = do
    recent ← with_retry (get_slot finalized)
    let addresses = sdk.table_addresses ix
    authority ← generate_keypair
    let table = sdk.lookup_table authority payer recent addresses
    _ ← send_instructions payer (table.create_instruction ∷ table.extend_instructions)
    setup ← get_slot confirmed
    wait_for_slot_after 60 setup
    with_retry (send_compressed payer ix addresses)
