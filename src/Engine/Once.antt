-- ===== src/Engine/Once.antt =====
-- A mention is acted on once: polling shows it again, and nothing happens.
use text.Mathlib.TextEquality.{eq_iff}
use text.Mathlib.TextPositions.{eq_refl}
use ratio.Base.{
  ◌≡◌, refl, sym, subst, ◌∙◌, ap, true, false, List, [], ◌∷◌, String, includes, string_eq, All,
  arith, Bool-cases, inl, inr, if◌then◌else◌, ◌==◌, ◌||◌,
}
use ratio.Store.Memory.{Store, mark_mention_processed, save_market, update_market, save_bet}
use ratio.Engine.World.{
  ok, Services, EngineConfig, XMention, ParsedIntent, ignore, create, bet, World,
}
use ratio.Engine.Monad.{writes, monad}
use ratio.Engine.Frames.{Frame, Moves, Moves-pure, for_each-cons}
use ratio.Engine.Walk.Bets.{Moves-handle_bet}
use ratio.Engine.Walk.Creation.{Moves-create_market}
use ratio.Engine.Loops.{claim_mention, for_each, act, handle_mention, process}

-- The list of mentions that were seen stays as it is.
abbrev SameMentions : Frame
SameMentions = record {
  Rel = λ v w. w.store.mentions ≡ v.store.mentions;
  rel_refl = λ w. refl;
  rel_trans = λ u v w p q. q ∙ p;
}

Moves-writes_same :
    (f : Store → Store)
    → ((s : Store) → (f s).mentions ≡ s.mentions)
    → Moves SameMentions (writes f)
unfolding writes
Moves-writes_same f h = record { rel = λ w. h w.store }

module _ (services : Services) (config : EngineConfig) where
  act-SameMentions :
      (mention : XMention) (intent : ParsedIntent)
      → Moves SameMentions (act services config mention intent)
  unfolding act save_bet save_market update_market
  act-SameMentions mention ignore = Moves-pure SameMentions tt
  act-SameMentions mention (bet choice amount unit) =
      Moves-handle_bet SameMentions (λ e w. refl) services config
        (λ b. Moves-writes_same _ (λ s. refl)) mention choice amount unit
  act-SameMentions mention create =
      Moves-create_market SameMentions (λ e w. refl) services config
        (λ m p at refs e. Moves-writes_same _ (λ s. refl)) (λ id c. Moves-writes_same _ (λ s. refl))
        mention

  -- A mention that was seen is passed over.
  process_seen :
      (mention : XMention) (w : World)
      → includes w.store.mentions mention.mention_tweet_id ≡ true
      → process services config mention w ≡ (ok tt, w)
  unfolding process claim_mention mark_mention_processed monad
  process_seen mention w h = rw h

  marked : XMention → World → World
  marked mention w = record w {
    store = record w.store { mentions = mention.mention_tweet_id ∷ w.store.mentions };
  }

  process_new :
      (mention : XMention) (w : World)
      → includes w.store.mentions mention.mention_tweet_id ≡ false
      → process services config mention w
        ≡ act services config mention
            (services.parse_mention mention.text config.bot_handle)
            (marked mention w)
  unfolding process claim_mention mark_mention_processed monad handle_mention marked
  process_new mention w h = rw h

  mentions-process :
      (mention : XMention) (w : World)
      → (process services config mention w).1.store.mentions ≡ (
          if includes w.store.mentions mention.mention_tweet_id
          then w.store.mentions
          else mention.mention_tweet_id ∷ w.store.mentions)
  unfolding marked
  mentions-process mention w =
      elim (Bool-cases (includes w.store.mentions mention.mention_tweet_id)) [
        | inl old ↦ rw (old, process_seen mention w old)
        | inr new ↦
            rw (new, process_new mention w new)
              ((act-SameMentions mention _).rel (marked mention w))
      ]

  -- Whether a mention was seen, after one more was processed.
  seen-process :
      (mention : XMention) (w : World) (id : String)
      → includes (process services config mention w).1.store.mentions id
        ≡ ((mention.mention_tweet_id == id) || includes w.store.mentions id)
  seen-process mention w id =
      ground (arith, mentions-process mention w, eq_iff mention.mention_tweet_id id)

  batch : List XMention → World → World
  batch ms w = (for_each (process services config) ms w).1

  batch-cons :
      (m : XMention) (ms : List XMention) (w : World)
      → batch (m ∷ ms) w ≡ batch ms (process services config m w).1
  unfolding batch
  batch-cons m ms w = ap (λ r. r.1) (for_each-cons (process services config) m ms w)

  -- Everything in a batch is seen when it is done, and what was seen stays so.
  batch-seen :
      (ms : List XMention) (w : World) (id : String)
      → includes w.store.mentions id ≡ true
      → includes (batch ms w).store.mentions id ≡ true
  batch-seen [] w id h = unfold batch for_each monad in h
  batch-seen (m ∷ ms) w id h =
      rw (batch-cons m ms w) (batch-seen ms _ id (ground (arith, seen-process m w id)))

  batch-sees :
      (ms : List XMention) (w : World)
      → All (λ m. includes (batch ms w).store.mentions m.mention_tweet_id ≡ true) ms
  batch-sees [] w = tt
  batch-sees (m ∷ ms) w =
      subst (λ v. All (λ m'. includes v.store.mentions m'.mention_tweet_id ≡ true) (m ∷ ms))
        (sym (batch-cons m ms w))
        (
          batch-seen ms _ _
              (ground (arith, seen-process m w m.mention_tweet_id, eq_refl m.mention_tweet_id)),
          batch-sees ms _,
        )

  batch_idle :
      (ms : List XMention) (w : World)
      → All (λ m. includes w.store.mentions m.mention_tweet_id ≡ true) ms
      → batch ms w ≡ w
  batch_idle [] w h = unfold batch for_each monad in refl
  batch_idle (m ∷ ms) w h = rw (batch-cons m ms w, process_seen m w h.0) (batch_idle ms w h.1)

-- A batch of mentions that is handed over again does nothing: no bet, no market, no reply, and
-- the store stays as it was. The batch may hold a mention twice, and its handlers may throw.
pub process_again :
    (services : Services) (config : EngineConfig) (ms : List XMention) (w : World)
    → let w' = (for_each (process services config) ms w).1 in
      (for_each (process services config) ms w').1 ≡ w'
unfolding batch
process_again services config ms w =
    batch_idle services config ms _ (batch-sees services config ms w)
