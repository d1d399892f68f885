-- ===== src/Index/Keys.antt =====
-- The ids of trades and claims, and the whole sync (subgraph/src).
use mathlib.Core.Option
use ratio.Base.{
  ℕ, ◌≡◌, refl, ◌∙◌, Bool, false, not, ◌&&◌, Option, none, some, List, [], ◌∷◌, String, string_eq,
  nat_eq, ◌==◌, subst,
}
use ratio.Base.Int.{ℤ}
use ratio.Base.Maps.{get, set, get-set}
use ratio.Index.Entities.{Market, Position, Index, Host, entry_by_pool, entry_id, position_id}
use ratio.Index.Handlers.{
  Origin, Event, swap, entry_registered, entry_migrated, claimed, add_market, handle_oracle_created,
  handle_market_opened, book, book_all, handle_ratio_resolved, magnitude, is_buy, record_buy,
  handle_swap, handle_entry_registered, handle_entry_migrated, settle_position, record_claim,
  handle_claimed,
}
use ratio.Index.Totals.{maybe-cases, if-cases}

-- The 32-bit numbers of an event fit an i32: the side of an entry, the index of a log that is kept.
abbrev pub IsReadable : Host → Event → Type 0
IsReadable host (entry_registered o a entry t n) = (side : ℕ) × (host.to_i32 entry ≡ some side)
IsReadable host (entry_migrated o a entry c s) = (side : ℕ) × (host.to_i32 entry ≡ some side)
IsReadable host (swap o p x y) = (i : ℕ) × (host.to_i32 o.log_index ≡ some i)
IsReadable host (claimed o a c t n) = (i : ℕ) × (host.to_i32 o.log_index ≡ some i)
IsReadable host _ = Unit

-- The transaction's hash with the log's index behind it.
abbrev log_id : Host → Origin → Option String
log_id host o = Option.map (host.concat_i32 o.tx_hash) (host.to_i32 o.log_index)

-- The one of a swap or a claim.
abbrev pub kept_id : Host → Event → Option String
kept_id host (swap o p x y) = log_id host o
kept_id host (claimed o a c t n) = log_id host o
kept_id host _ = none

abbrev pub also : Option String → List String → List String
also none ids = ids
also (some id) ids = id ∷ ids

-- The ids of all swaps and claims.
abbrev pub kept_ids : Host → List Event → List String
kept_ids host [] = []
kept_ids host (e ∷ es) = also (kept_id host e) (kept_ids host es)

-- No trade and no claim has the id.
abbrev pub Lacks : Index → String → Type 0
Lacks ix id = (get id ix.trades ≡ none) × (get id ix.claims ≡ none)

-- No trade and no claim is new.
abbrev Same : Index → Index → Type 0
Same ix ix' = (ix'.trades ≡ ix.trades) × (ix'.claims ≡ ix.claims)

book_all-Same : (w : ℕ) (ps : List Position) (ix : Index) → Same ix (book_all w ps ix)
unfolding book_all book
book_all-Same w [] ix = (refl, refl)
book_all-Same w (p ∷ ps) ix = book_all-Same w ps (book w p ix)

pub handle_ratio_resolved-Same :
    (o : Origin) (oracle : String) (w x y : ℕ) (forfeit : Bool) (ix : Index)
    → Same ix (handle_ratio_resolved o oracle w x y forfeit ix)
unfolding handle_ratio_resolved
handle_ratio_resolved-Same o oracle w x y forfeit ix =
    maybe-cases (Same ix) (get oracle ix.markets) _ _ (λ _. (refl, refl)) λ m _. book_all-Same w _ _

pub handle_oracle_created-Same :
    (o : Origin) (oracle : String) (i t : ℕ) (ix : Index)
    → Same ix (handle_oracle_created o oracle i t ix)
unfolding handle_oracle_created add_market
handle_oracle_created-Same o oracle i t ix =
    maybe-cases (Same ix) (get oracle ix.markets) _ _ (λ _. (refl, refl)) (λ _ _. (refl, refl))

pub handle_market_opened-Same :
    (o : Origin) (oracle : String) (i t : ℕ) (ix : Index)
    → Same ix (handle_market_opened o oracle i t ix)
unfolding handle_market_opened add_market
handle_market_opened-Same o oracle i t ix =
    maybe-cases (Same ix) (get oracle ix.markets) _ _ (λ _. (refl, refl)) (λ _ _. (refl, refl))

module _ (host : Host) where
  settle_position-Same :
      (m : Market) (oracle claimer : String) (r : ℕ) (ix : Index)
      → Same ix (settle_position host m oracle claimer r ix)
  unfolding settle_position
  settle_position-Same m oracle claimer r ix =
      if-cases (Same ix) m.resolved _ _
        (maybe-cases (Same ix) (get (position_id host oracle claimer m.winner_side) ix.positions) _
          _ (λ _. (refl, refl)) (λ _ _. (refl, refl)))
        (refl, refl)

  -- What a handler leaves behind lacks the id.
  abbrev pub Lacking : String → Option Index → Type 0
  Lacking k none = Unit
  Lacking k (some ix) = Lacks ix k

  pub Lacking-Same : (k : String) (ix ix' : Index) → Same ix ix' → Lacks ix k → Lacking k (some ix')
  Lacking-Same k ix ix' (t, c) (no_trade, no_claim) = (rw t no_trade, rw c no_claim)

  get-set-none :
      {V : Type 0} (id k : String) (v : V) (m : List (String × V))
      → (id == k) ≡ false
      → get k m ≡ none
      → get k (set id v m) ≡ none
  get-set-none id k v m other new = get-set id k v m ∙ rw (other, new) refl

  module _ (o : Origin) (i : ℕ) (read : host.to_i32 o.log_index ≡ some i) (k : String)
      (other : (host.concat_i32 o.tx_hash i == k) ≡ false) where
    pub handle_swap-Lacking :
        (pool : String) (x y : ℤ) (ix : Index)
        → Lacks ix k
        → Lacking k (handle_swap host o pool x y ix)
    unfolding handle_swap record_buy
    handle_swap-Lacking pool x y ix h =
        maybe-cases (Lacking k) (entry_by_pool pool ix) _ _ (λ _. h)
          λ e _.
            maybe-cases (Lacking k) (get e.market ix.markets) _ _ (λ _. h)
              λ m _. if-cases (Lacking k) (magnitude y == 0) _ _ h (
                if-cases (Lacking k) (not (is_buy x y)) _ _ h
                  (rw read (get-set-none _ k _ ix.trades other h.0, h.1)))

    record_claim-Lacking :
        (m : Market) (oracle claimer : String) (b r : ℕ) (ix : Index)
        → Lacks ix k
        → Lacking k (record_claim host o m oracle claimer b r ix)
    unfolding record_claim
    record_claim-Lacking m oracle claimer b r ix h =
        rw read (h.0, get-set-none _ k _ ix.claims other h.1)

    pub handle_claimed-Lacking :
        (oracle claimer : String) (b r : ℕ) (ix : Index)
        → Lacks ix k
        → Lacking k (handle_claimed host o oracle claimer b r ix)
    unfolding handle_claimed
    handle_claimed-Lacking oracle claimer b r ix h =
        maybe-cases (Lacking k) (get oracle ix.markets) _ _ (λ _. h)
          λ m _.
            maybe-cases (Lacking k) (record_claim host o m oracle claimer b r ix) _ _ (λ _. tt)
              λ recorded done.
                Lacking-Same k recorded (settle_position host m oracle claimer r recorded)
                  (settle_position-Same m oracle claimer r recorded)
                  (subst (Lacking k) done (record_claim-Lacking m oracle claimer b r ix h))

  pub handle_entry_registered-Lacking :
      (o : Origin) (oracle : String) (entry : ℕ) (t n k : String) (ix : Index)
      → Lacks ix k
      → Lacking k (handle_entry_registered host o oracle entry t n ix)
  unfolding handle_entry_registered
  handle_entry_registered-Lacking o oracle entry t n k ix h =
      maybe-cases (Lacking k) (get oracle ix.markets) _ _ (λ _. h)
        λ m _.
          maybe-cases (Lacking k) (host.to_i32 entry) _ _ (λ _. tt)
            λ side _. if-cases (Lacking k) (not (side == 0) && not (side == 1)) _ _ h h

  pub handle_entry_migrated-Lacking :
      (o : Origin) (oracle : String) (entry c s : ℕ) (k : String) (ix : Index)
      → Lacks ix k
      → Lacking k (handle_entry_migrated host o oracle entry c s ix)
  unfolding handle_entry_migrated
  handle_entry_migrated-Lacking o oracle entry c s k ix h =
      maybe-cases (Lacking k) (host.to_i32 entry) _ _ (λ _. tt)
        λ side _.
          maybe-cases (Lacking k) (get (entry_id host oracle side) ix.entries) _ _ (λ _. h)
            λ e _. maybe-cases (Lacking k) (get oracle ix.markets) _ _ (λ _. h) (λ _ _. h)
