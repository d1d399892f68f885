-- ===== src/Chain/Evm/Logs.antt =====
-- What the receipts of packages/chain/src/evm/index.ts tell: the tokens that a bet received, the
-- payout of a claim, the token of a new entry.
use ratio.Base.{
  ℕ, ◌+◌, Bool, false, not, ◌&&◌, Option, none, some, List, [], ◌∷◌, ◌++◌, ltb, take, drop, length,
  if◌then◌else◌, ◌==◌,
}
use ratio.Texts.{Text, codes, text_eq, lower, number}
use ratio.Chain.Evm.Node.{Log, Host}

abbrev pub transfer_topic : Text
transfer_topic = codes "0xddf252ad1be2c89b69c2b068fc378daa952ba7f163c4a11628f55a4df523b3ef"

-- `topics[0]?.toLowerCase() === topic`
abbrev first_is : Text → List Text → Bool
first_is topic [] = false
first_is topic (t ∷ ts) = lower t == topic

-- The recipient of a transfer: the last forty digits of its third topic.
abbrev goes_to : Text → List Text → Bool
goes_to want (a ∷ b ∷ c ∷ ts) = lower (codes "0x" ++ drop 26 c) == want
goes_to want _ = false

abbrev pub is_credit : Text → Text → Log → Bool
is_credit token to log =
    (lower log.address == lower token)
    && (first_is transfer_topic log.topics && goes_to (lower to) log.topics)

unfoldable pub tokens_received : List Log → Text → Text → ℕ
tokens_received [] token to = 0
tokens_received (log ∷ logs) token to =
    let rest = tokens_received logs token to in
    if is_credit token to log then number log.payload + rest else rest

-- The second word of the data of the first `Claimed` event that is long enough.
unfoldable pub claimed_from_logs : Host → List Log → Text → Option ℕ
claimed_from_logs host [] migrator = none
claimed_from_logs host (log ∷ logs) migrator =
    let rest = claimed_from_logs host logs migrator in
    let payload = drop 2 log.payload in
    if (lower log.address == lower migrator)
      && (first_is (lower host.claimed_topic) log.topics && not (ltb (length payload) 128))
    then some (number (codes "0x" ++ take 64 (drop 64 payload)))
    else rest

-- The first log of the airlock that decodes as `Create`.
unfoldable pub asset_from_create_receipt : Host → List Log → Text → Option Text
asset_from_create_receipt host [] airlock = none
asset_from_create_receipt host (log ∷ logs) airlock =
    let rest = asset_from_create_receipt host logs airlock in
    if lower log.address == lower airlock
    then elim (host.decode_create log) [ none ↦ rest | some asset ↦ some asset ]
    else rest
