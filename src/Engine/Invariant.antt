-- ===== src/Engine/Invariant.antt =====
-- The state of the store that every history of the engine keeps.
use ratio.Base.{
  ℕ, ◌+◌, ◌≤◌, ◌<◌, ◌≡◌, ◌≢◌, subst, sym, ◌⊎◌, inl, refl, true, String, string_eq, All, NoDup,
  length, is_none, arith,
}
use ratio.Base.Int.{pos_part, neg_part}
use ratio.Base.Maps.{keys, All-set, All-adjust, keys-set-NoDup, keys-adjust}
use ratio.Store.Records.{MarketRecord, Side, is_open}
use ratio.Store.Memory.{
  Store, save_market, update_market, save_bet, save_like_sample, mark_mention_processed,
}
use ratio.Engine.World.{Services, EngineConfig, XMention, Odds, bet, create, ignore, ParsedIntent}
use ratio.Engine.Monad.{writes}
use ratio.Engine.Frames.{
  Frame, Moves, Moves-pure, Moves-bind, Moves-branch, Moves-ask, Moves-for_each,
}
use ratio.Engine.Creation.{ResolvedPair, new_record}
use ratio.Engine.Settlement.{Outcome, close}
use ratio.Engine.Walk.Bets.{Moves-handle_bet}
use ratio.Engine.Walk.Creation.{IsEligible, Moves-create_market}
use ratio.Engine.Walk.Settlement.{Moves-resolve_due_markets, Moves-sample_likes_due_markets}
use ratio.Engine.Loops.{
  claim_mention, act, handle_mention, process, tick, resolve_due_markets, sample_likes_due_markets,
}

-- A market under its key.
pub record IsSound (config : EngineConfig) (key : String) (m : MarketRecord) : Type 0 where
  pub keyed : m.id ≡ key
  pub by_side_b : m.tweet_b_id ≡ m.id
  pub closes : m.settles_at_ms ≡ m.created_at_ms + config.market_duration_ms
  pub two_authors : m.author_a_x_id ≢ m.author_b_x_id
  pub not_own_post : m.tagger_x_id ≢ m.author_a_x_id
  pub fresh :
      pos_part m.tweet_b_age_at_create_ms
      < config.freshness_window_ms + neg_part m.tweet_b_age_at_create_ms
  pub decided : is_open m.status ≡ is_none m.winner
  pub counted : m.hidden_report_count ≡ length m.hidden_reporter_ids
  pub independent : NoDup m.hidden_reporter_ids
  pub corroborated :
      (is_none m.hidden_reported_at_ms ≡ true)
      ⊎ (config.hidden_report_threshold ≤ length m.hidden_reporter_ids)

pub record IsSoundStore (config : EngineConfig) (s : Store) : Type 0 where
  pub sound : All (λ p. IsSound config p.0 p.1) s.markets
  pub unique : NoDup (keys s.markets)

abbrev pub Keeps : EngineConfig → Frame
Keeps config = record {
  Rel = λ v w. IsSoundStore config v.store → IsSoundStore config w.store;
  rel_refl = λ w h. h;
  rel_trans = λ u v w f g h. g (f h);
}

module _ (services : Services) (config : EngineConfig) where
  new_record-IsSound :
      (mention : XMention) (pair : ResolvedPair) (at : ℕ) (refs : String)
      → IsEligible config mention pair at
      → let r = new_record services config mention pair at refs in IsSound config r.id r
  unfolding new_record
  new_record-IsSound mention pair at refs e = record {
    keyed = refl;
    by_side_b = refl;
    closes = refl;
    two_authors = e.two_authors;
    not_own_post = e.not_own_post;
    fresh = ground (arith, e.fresh);
    decided = refl;
    counted = refl;
    independent = tt;
    corroborated = inl refl;
  }

  close-IsSound :
      (o : Outcome) (odds : Odds) (winner : Side) (key : String) (m : MarketRecord)
      → IsSound config key m
      → IsSound config key (close o odds winner m)
  unfolding close
  close-IsSound o odds winner key m h = ground arith

  Keeps-update :
      (id : String) (f : MarketRecord → MarketRecord)
      → ((key : String) (m : MarketRecord) → IsSound config key m → IsSound config key (f m))
      → Moves (Keeps config) (writes (update_market id f))
  unfolding update_market writes
  Keeps-update id f h = record {
    rel = λ w v. record {
      sound = All-adjust (IsSound config) id f w.store.markets h v.sound;
      unique = rw (keys-adjust id f w.store.markets) v.unique;
    };
  }

  Keeps-same :
      (f : Store → Store)
      → ((s : Store) → (f s).markets ≡ s.markets)
      → Moves (Keeps config) (writes f)
  unfolding writes
  Keeps-same f h = record {
    rel = λ w v. record {
      sound = subst (All (λ p. IsSound config p.0 p.1)) (sym (h w.store)) v.sound;
      unique = subst (λ m. NoDup (keys m)) (sym (h w.store)) v.unique;
    };
  }

  Keeps-save_market :
      (m : MarketRecord) → IsSound config m.id m → Moves (Keeps config) (writes (save_market m))
  unfolding save_market writes
  Keeps-save_market m h = record {
    rel = λ w v. record {
      sound = All-set (IsSound config) m.id m w.store.markets h v.sound;
      unique = keys-set-NoDup m.id m w.store.markets v.unique;
    };
  }

  act-Keeps :
      (mention : XMention) (intent : ParsedIntent)
      → Moves (Keeps config) (act services config mention intent)
  unfolding act save_bet
  act-Keeps mention ignore = Moves-pure (Keeps config) tt
  act-Keeps mention (bet choice amount unit) =
      Moves-handle_bet (Keeps config) (λ e w h. h) services config (λ b. Keeps-same _ (λ s. refl))
        mention choice amount unit
  act-Keeps mention create =
      Moves-create_market (Keeps config) (λ e w h. h) services config
        (λ m p at refs e. Keeps-save_market _ (new_record-IsSound m p at refs e))
        (λ id c. Keeps-update id _ (λ key m h. ground arith)) mention

  claim_mention-Keeps : (id : String) → Moves (Keeps config) (claim_mention id)
  unfolding claim_mention mark_mention_processed
  claim_mention-Keeps id = record { rel = λ w h. ground arith }

  process-Keeps : (mention : XMention) → Moves (Keeps config) (process services config mention)
  unfolding process handle_mention
  process-Keeps mention = Moves-bind (Keeps config) _ _ (claim_mention-Keeps _) λ fresh.
      Moves-branch (Keeps config) _ _ _ (λ _. act-Keeps mention _)
        (λ _. Moves-pure (Keeps config) tt)

  pub tick-Keeps : Moves (Keeps config) (tick services config)
  unfolding tick
  tick-Keeps =
      Moves-ask (Keeps config) (λ e w h. h) _ _ _
        λ ms. Moves-for_each (Keeps config) _ ms process-Keeps

  pub resolve_due_markets-Keeps : Moves (Keeps config) (resolve_due_markets services config)
  unfolding save_bet
  resolve_due_markets-Keeps =
      Moves-resolve_due_markets (Keeps config) (λ e w h. h) services config
        (λ b. Keeps-same _ (λ s. refl))
        (λ id o odds winner. Keeps-update id _ (close-IsSound o odds winner))

  pub sample_likes_due_markets-Keeps :
      Moves (Keeps config) (sample_likes_due_markets services config)
  unfolding save_like_sample
  sample_likes_due_markets-Keeps =
      Moves-sample_likes_due_markets (Keeps config) (λ e w h. h) services config
        (λ id at. Keeps-update id _ (λ key m h. ground arith)) (λ x. Keeps-same _ (λ s. refl))
