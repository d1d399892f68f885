-- ===== src/Index/Balance.antt =====
-- The handlers and the totals of the index (subgraph/src).
use ratio.Base.{
  ℕ, ◌+◌, ◌≡◌, refl, Bool, true, not, ◌&&◌, Option, none, some, List, [], ◌∷◌, String, string_eq,
  nat_eq, ◌==◌, arith, Bool-cases, inl, inr,
}
use ratio.Base.Int.{ℤ}
use ratio.Base.Maps.{get}
use ratio.Index.Entities.{
  Market, Entry, Position, Index, Host, new_user, entry_by_pool, position_id, entry_id, Pool,
}
use ratio.Index.Handlers.{
  Origin, new_market, add_market, handle_oracle_created, handle_market_opened, book, book_all,
  handle_ratio_resolved, magnitude, is_buy, new_position, record_buy, handle_swap,
  handle_entry_registered, handle_entry_migrated, settle_position, record_claim, handle_claimed,
}
use ratio.Index.Totals.{
  IsBalanced, maybe-cases, if-cases, same_markets, same_users, total_found, total_loaded, total_new,
  total_kept, total_reloaded,
}

add_market-IsBalanced :
    (o : Origin) (oracle : String) (i t : ℕ) (ix : Index)
    → get oracle ix.markets ≡ none
    → IsBalanced ix
    → IsBalanced (add_market o oracle i t ix)
unfolding add_market
add_market-IsBalanced o oracle i t ix new h =
    same_markets ix oracle (new_market o i t) _ (rw new refl) (rw new refl) h

book-IsBalanced : (w : ℕ) (p : Position) (ix : Index) → IsBalanced ix → IsBalanced (book w p ix)
unfolding book
book-IsBalanced w p ix h = elim (Bool-cases (p.side == w)) [
  | inl won ↦ same_users ix p.bettor _ (rw won refl) (rw won refl) h
  | inr lost ↦ same_users ix p.bettor _ (rw lost refl) (rw lost refl) h
]

book_all-IsBalanced :
    (w : ℕ) (ps : List Position) (ix : Index) → IsBalanced ix → IsBalanced (book_all w ps ix)
unfolding book_all
book_all-IsBalanced w [] ix h = h
book_all-IsBalanced w (p ∷ ps) ix h = book_all-IsBalanced w ps _ (book-IsBalanced w p ix h)

pub handle_ratio_resolved-IsBalanced :
    (o : Origin) (oracle : String) (w x y : ℕ) (forfeit : Bool) (ix : Index)
    → IsBalanced ix
    → IsBalanced (handle_ratio_resolved o oracle w x y forfeit ix)
unfolding handle_ratio_resolved
handle_ratio_resolved-IsBalanced o oracle w x y forfeit ix h =
    maybe-cases IsBalanced (get oracle ix.markets) _ _ (λ _. h)
      λ m found.
        book_all-IsBalanced w _ _ (same_markets ix oracle _ _ (rw found refl) (rw found refl) h)

pub handle_oracle_created-IsBalanced :
    (o : Origin) (oracle : String) (i t : ℕ) (ix : Index)
    → IsBalanced ix
    → IsBalanced (handle_oracle_created o oracle i t ix)
unfolding handle_oracle_created
handle_oracle_created-IsBalanced o oracle i t ix h =
    let listening : IsBalanced (record ix { oracles = oracle ∷ ix.oracles }) = record {
      staked_markets = h.staked_markets;
      staked_positions = h.staked_positions;
      staked_users = h.staked_users;
      staked_trades = h.staked_trades;
      paid_markets = h.paid_markets;
      paid_users = h.paid_users;
      paid_claims = h.paid_claims;
    } in
    maybe-cases IsBalanced (get oracle ix.markets) _ _
      (λ new. add_market-IsBalanced o oracle i t _ new listening) (λ _ _. listening)

pub handle_market_opened-IsBalanced :
    (o : Origin) (oracle : String) (i t : ℕ) (ix : Index)
    → IsBalanced ix
    → IsBalanced (handle_market_opened o oracle i t ix)
unfolding handle_market_opened
handle_market_opened-IsBalanced o oracle i t ix h =
    maybe-cases IsBalanced (get oracle ix.markets) _ _
      (λ new. add_market-IsBalanced o oracle i t ix new h)
      (λ m found. same_markets ix oracle _ _ (rw found refl) (rw found refl) h)

-- The handler does not abort, and the totals agree after it.
abbrev pub Goes : Option Index → Type 0
Goes res = (ix : Index) × (res ≡ some ix) × IsBalanced ix

module _ (host : Host) where
  record_buy-Goes :
      (o : Origin) (i : ℕ) (e : Entry) (m : Market) (a t : ℕ) (ix : Index)
      → host.to_i32 o.log_index ≡ some i
      → get (host.concat_i32 o.tx_hash i) ix.trades ≡ none
      → get e.market ix.markets ≡ some m
      → IsBalanced ix
      → Goes (record_buy host o e m a t ix)
  unfolding record_buy
  record_buy-Goes o i e m a t ix read fresh found h =
      let key = position_id host e.market o.tx_from e.side in
      rw read (
        _,
        refl,
        record {
          staked_markets = omega (
            arith,
            total_found (λ m'. m'.total_staked) e.market m _ ix.markets a found refl,
            h.staked_markets,
          );
          staked_positions = omega (
            arith,
            total_loaded (λ p'. p'.net_staked) key (new_position host e.market e o.tx_from) _
                ix.positions a refl refl,
            h.staked_positions,
          );
          staked_users = omega (
            arith,
            total_loaded (λ u'. u'.total_staked) o.tx_from new_user _ ix.users a refl refl,
            h.staked_users,
          );
          staked_trades =
              omega (arith, total_new (λ t'. t'.amount_in) _ _ ix.trades fresh, h.staked_trades);
          paid_markets = omega (
            arith,
            total_kept (λ m'. m'.total_claimed) e.market m _ ix.markets found refl,
            h.paid_markets,
          );
          paid_users = omega (
            arith,
            total_reloaded (λ u'. u'.total_paid_out) o.tx_from new_user _ ix.users refl refl,
            h.paid_users,
          );
          paid_claims = h.paid_claims;
        },
      )

  pub handle_swap-Goes :
      (o : Origin) (i : ℕ) (pool : String) (x y : ℤ) (ix : Index)
      → host.to_i32 o.log_index ≡ some i
      → get (host.concat_i32 o.tx_hash i) ix.trades ≡ none
      → IsBalanced ix
      → Goes (handle_swap host o pool x y ix)
  unfolding handle_swap
  handle_swap-Goes o i pool x y ix read fresh h =
      maybe-cases Goes (entry_by_pool pool ix) _ _ (λ _. (ix, refl, h))
        λ e _.
          maybe-cases Goes (get e.market ix.markets) _ _ (λ _. (ix, refl, h))
            λ m found.
              if-cases Goes (magnitude y == 0) _ _ (ix, refl, h)
                (if-cases Goes (not (is_buy x y)) _ _ (ix, refl, h)
                  (record_buy-Goes o i e m (magnitude x) (magnitude y) ix read fresh found h))

  -- Entries and pools are in no sum.
  other_entities :
      (ix : Index) (es : List (String × Entry)) (ps : List (String × Pool))
      → IsBalanced ix
      → IsBalanced (record ix { entries = es; pools = ps })
  other_entities ix es ps h = record {
    staked_markets = h.staked_markets;
    staked_positions = h.staked_positions;
    staked_users = h.staked_users;
    staked_trades = h.staked_trades;
    paid_markets = h.paid_markets;
    paid_users = h.paid_users;
    paid_claims = h.paid_claims;
  }

  settle_position-IsBalanced :
      (m : Market) (oracle claimer : String) (r : ℕ) (ix : Index)
      → IsBalanced ix
      → IsBalanced (settle_position host m oracle claimer r ix)
  unfolding settle_position
  settle_position-IsBalanced m oracle claimer r ix h =
      let key = position_id host oracle claimer m.winner_side in
      if-cases IsBalanced m.resolved _ _
        (maybe-cases IsBalanced (get key ix.positions) _ _ (λ _. h)
          λ p found. same_users _ claimer _ refl refl (record {
            staked_markets = h.staked_markets;
            staked_positions = omega (
              arith,
              total_found (λ p'. p'.net_staked) key p
                  (record p { claimed = true; payout = p.payout + r }) ix.positions 0 found
                  (omega arith),
              h.staked_positions,
            );
            staked_users = h.staked_users;
            staked_trades = h.staked_trades;
            paid_markets = h.paid_markets;
            paid_users = h.paid_users;
            paid_claims = h.paid_claims;
          }))
        h

  record_claim-Goes :
      (o : Origin) (i : ℕ) (m : Market) (oracle claimer : String) (b r : ℕ) (ix : Index)
      → host.to_i32 o.log_index ≡ some i
      → get (host.concat_i32 o.tx_hash i) ix.claims ≡ none
      → get oracle ix.markets ≡ some m
      → IsBalanced ix
      → Goes (record_claim host o m oracle claimer b r ix)
  unfolding record_claim
  record_claim-Goes o i m oracle claimer b r ix read fresh found h = rw read (
    _,
    refl,
    record {
      staked_markets = omega (
        arith,
        total_kept (λ m'. m'.total_staked) oracle m _ ix.markets found refl,
        h.staked_markets,
      );
      staked_positions = h.staked_positions;
      staked_users = omega (
        arith,
        total_reloaded (λ u'. u'.total_staked) claimer new_user _ ix.users refl refl,
        h.staked_users,
      );
      staked_trades = h.staked_trades;
      paid_markets = omega (
        arith,
        total_found (λ m'. m'.total_claimed) oracle m _ ix.markets r found refl,
        h.paid_markets,
      );
      paid_users = omega (
        arith,
        total_loaded (λ u'. u'.total_paid_out) claimer new_user _ ix.users r refl refl,
        h.paid_users,
      );
      paid_claims = omega (arith, total_new (λ c'. c'.payout) _ _ ix.claims fresh, h.paid_claims);
    },
  )

pub handle_claimed-Goes :
    (host : Host) (o : Origin) (i : ℕ) (oracle claimer : String) (b r : ℕ) (ix : Index)
    → host.to_i32 o.log_index ≡ some i
    → get (host.concat_i32 o.tx_hash i) ix.claims ≡ none
    → IsBalanced ix
    → Goes (handle_claimed host o oracle claimer b r ix)
unfolding handle_claimed
handle_claimed-Goes host o i oracle claimer b r ix read fresh h =
    maybe-cases Goes (get oracle ix.markets) _ _ (λ _. (ix, refl, h))
      λ m found.
        let (recorded, done, h') =
          record_claim-Goes host o i m oracle claimer b r ix read fresh found h in
        rw done (_, refl, settle_position-IsBalanced host m oracle claimer r recorded h')

pub handle_entry_registered-Goes :
    (host : Host) (o : Origin) (oracle : String) (entry side : ℕ) (t n : String) (ix : Index)
    → host.to_i32 entry ≡ some side
    → IsBalanced ix
    → Goes (handle_entry_registered host o oracle entry t n ix)
unfolding handle_entry_registered
handle_entry_registered-Goes host o oracle entry side t n ix read h =
    maybe-cases Goes (get oracle ix.markets) _ _ (λ _. (ix, refl, h))
      λ m _. rw read (
        if-cases Goes (not (side == 0) && not (side == 1)) _ _ (ix, refl, h)
          (_, refl, other_entities host ix _ _ h))

pub handle_entry_migrated-Goes :
    (host : Host) (o : Origin) (oracle : String) (entry side c s : ℕ) (ix : Index)
    → host.to_i32 entry ≡ some side
    → IsBalanced ix
    → Goes (handle_entry_migrated host o oracle entry c s ix)
unfolding handle_entry_migrated
handle_entry_migrated-Goes host o oracle entry side c s ix read h = rw read (
    maybe-cases Goes (get (entry_id host oracle side) ix.entries) _ _ (λ _. (ix, refl, h))
      λ e _.
        let moved = other_entities host ix _ ix.pools h in
        maybe-cases Goes (get oracle ix.markets) _ _ (λ _. (_, refl, moved))
          λ m found. (_, refl, same_markets _ oracle _ _ (rw found refl) (rw found refl) moved))
