-- ===== src/Engine/Reports.antt =====
-- Reports of a hidden reply keep the store sound: the badge needs its independent reporters.
use ratio.Base.{
  ℕ, ◌≡◌, refl, sym, subst, Bool, true, false, none, some, List, [], ◌∷◌, ◌++◌, String, string_eq,
  All, NoDup, ◌⊎◌, includes, length, length-append, includes-append, arith, Bool-cases,
  Option-cases, inl, inr, beq_self, if◌then◌else◌,
}
use text.Mathlib.TextEquality.{eq_iff}
use ratio.Base.Maps.{keys, get, includes-keys_iff, get-All, All-adjust_at, keys-adjust}
use ratio.Store.Records.{MarketRecord}
use ratio.Store.Memory.{find, get_market_by_tweet, update_market}
use ratio.Engine.World.{Services, EngineConfig, World}
use ratio.Engine.Monad.{monad}
use ratio.Engine.Frames.{Moves, SameStore, SameStore-Ignores, Moves-post}
use ratio.Engine.Invariant.{IsSound, IsSoundStore, Keeps}
use ratio.Engine.Loops.{
  crosses_threshold, refuses_report, notify_hidden, count_report, report_hidden,
}

module _ (config : EngineConfig) where
  -- What `find` finds is in the map under its id.
  find-get :
      (p : MarketRecord → Bool) (r : MarketRecord) (ms : List (String × MarketRecord))
      → All (λ e. IsSound config e.0 e.1) ms
      → NoDup (keys ms)
      → find p ms ≡ some r
      → get r.id ms ≡ some r
  unfolding find get
  find-get p r [] a u e = cc
  find-get p r ((k, m) ∷ ms) a u e = elim (Bool-cases (p m)) [
    | inl hit ↦ let same : m ≡ r = ground arith in rw (← same, a.0.keyed, beq_self k) refl
    | inr miss ↦
        let rest = find-get p r ms a.1 u.1 (ground arith) in
        ground (arith, rest, eq_iff k r.id, includes-keys_iff r.id ms)
  ]

  -- One more reporter, who is new.
  NoDup-add :
      (xs : List String) (x : String) → NoDup xs → includes xs x ≡ false → NoDup (xs ++ x ∷ [])
  NoDup-add [] x d n = (refl, tt)
  NoDup-add (y ∷ ys) x d n = (
    ground (arith, includes-append ys (x ∷ []) y, eq_iff x y, eq_iff y x),
    NoDup-add ys x d.1 (ground arith),
  )

  module _ (services : Services) where
    count_report-IsSound :
        (r : MarketRecord) (reporter : String) (at : ℕ) (live : Bool)
        → IsSound config r.id r
        → refuses_report r reporter ≡ false
        → crosses_threshold services config r (r.hidden_reporter_ids ++ reporter ∷ []) ≡ live
        → IsSound config r.id (record r {
          hidden_reporter_ids = r.hidden_reporter_ids ++ reporter ∷ [];
          hidden_report_count = length (r.hidden_reporter_ids ++ reporter ∷ []);
          hidden_reported_at_ms = if live then some at else r.hidden_reported_at_ms;
        })
    count_report-IsSound r reporter at live h n e = record {
      keyed = h.keyed;
      by_side_b = h.by_side_b;
      closes = h.closes;
      two_authors = h.two_authors;
      not_own_post = h.not_own_post;
      fresh = h.fresh;
      decided = h.decided;
      counted = refl;
      independent = NoDup-add r.hidden_reporter_ids reporter h.independent (ground arith);
      corroborated =
          ground (arith, length-append r.hidden_reporter_ids (reporter ∷ []), h.corroborated);
    }

    -- The record after a report that counts; `live` says whether the badge goes live with it.
    abbrev reported : MarketRecord → String → ℕ → Bool → MarketRecord → MarketRecord
    reported r reporter at live m = record m {
      hidden_reporter_ids = r.hidden_reporter_ids ++ reporter ∷ [];
      hidden_report_count = length (r.hidden_reporter_ids ++ reporter ∷ []);
      hidden_reported_at_ms = if live then some at else m.hidden_reported_at_ms;
    }

    notify_hidden-SameStore : (r : MarketRecord) → Moves SameStore (notify_hidden services config r)
    unfolding notify_hidden
    notify_hidden-SameStore r = Moves-post SameStore SameStore-Ignores _ _

    -- Either a report leaves the store as it was, and then no market is found or the one that is
    -- found refuses it; or the market takes it, and then exactly that market gets the new reporter
    -- and the new count, and the badge's time just if it had none and the threshold is reached.
    report_hidden-store :
        (id reporter : String) (w : World)
        → (((report_hidden services config id reporter w).1.store ≡ w.store)
            × ((get_market_by_tweet id w.store ≡ none)
                ⊎ ((r : MarketRecord) × (get_market_by_tweet id w.store ≡ some r)
                    × (refuses_report r reporter ≡ true))))
          ⊎ ((r : MarketRecord) × (live : Bool) × (get_market_by_tweet id w.store ≡ some r)
              × (refuses_report r reporter ≡ false)
              × (crosses_threshold services config r (r.hidden_reporter_ids ++ reporter ∷ [])
                  ≡ live)
              × ((report_hidden services config id reporter w).1.store
                  ≡ update_market r.id (reported r reporter (services.now w.history) live) w.store))
    unfolding report_hidden count_report monad
    report_hidden-store id reporter w = elim (Option-cases (get_market_by_tweet id w.store)) [
      | inl missing ↦ inl (rw missing refl, inl missing)
      | inr (r, found) ↦ elim (Bool-cases (refuses_report r reporter)) [
        | inl refuses ↦ inl (rw (found, refuses) refl, inr (r, found, refuses))
        | inr counts ↦
            elim (Bool-cases
              (crosses_threshold services config r (r.hidden_reporter_ids ++ reporter ∷ []))) [
                | inl live ↦ inr (
                  r,
                  true,
                  found,
                  counts,
                  live,
                  rw (found, counts, live) ((notify_hidden-SameStore r).rel _),
                )
                | inr quiet ↦ inr (r, false, found, counts, quiet, rw (found, counts, quiet))
              ]
      ]
    ]

    pub report_hidden-Keeps :
        (id reporter : String) → Moves (Keeps config) (report_hidden services config id reporter)
    unfolding get_market_by_tweet update_market
    report_hidden-Keeps id reporter = record {
      rel = λ w v. elim (report_hidden-store id reporter w) [
        | inl (same, _) ↦ subst (IsSoundStore config) (sym same) v
        | inr (r, live, found, counts, crossed, changed) ↦
            let at = services.now w.history in
            let there = find-get _ r w.store.markets v.sound v.unique found in
            let good = get-All (IsSound config) r.id r w.store.markets there v.sound in
            subst (IsSoundStore config) (sym changed) (record {
              sound =
                  All-adjust_at (IsSound config) r.id (reported r reporter at live) r
                    w.store.markets there
                    (count_report-IsSound r reporter at live good counts crossed) v.sound;
              unique = subst NoDup (sym (keys-adjust r.id _ w.store.markets)) v.unique;
            })
      ];
    }
