-- ===== src/Store/Mirror.antt =====
-- `SupabaseStore` (apps/agent/src/storeSupabase.ts) keeps what `InMemoryStore`
-- (apps/agent/src/store.ts) keeps.
use mathlib.Core.Option
use ratio.Base.{
  ◌≡◌, refl, ◌∙◌, sym, ap, false, Option, none, some, List, [], ◌∷◌, String, string_eq, ◌==◌,
  if◌then◌else◌, arith, Bool-cases, inl, inr, All, is_none,
}
use ratio.Base.Maps.{get, set, get-set, get-adjust}
use ratio.Flow.{Result, ok, throw}
use ratio.Store.Records.{MarketRecord}
use ratio.Store.Memory.{Store, save_market, update_market}
use ratio.Store.Rows.{Value, Row, column, to_row}
use ratio.Store.Supabase.{
  set_columns, MarketTable, Assignment, status, winner, likes_a_final, likes_b_final,
  final_implied_a, final_pot_usd, last_likes_sample_at_ms, hidden_reported_at_ms,
  hidden_reporter_ids, hidden_report_count, settles_at_ms, card_tweet_id, doppler_pool_id,
  author_a_handle, author_b_handle, tagger_handle, other, assign, assign_all, column_for, patch_row,
  save_row, update_row,
}

-- A column that is set is a field that is assigned.
Sets : Assignment → MarketRecord → Option (String × Value) → Type 0
Sets a m none = Unit
Sets a m (some (c, v)) = set c v (to_row m) ≡ to_row (assign a m)

column_for-Sets : (a : Assignment) (m : MarketRecord) → Sets a m (column_for a)
unfolding Sets column_for set to_row assign
column_for-Sets (status x) m = refl
column_for-Sets (winner x) m = refl
column_for-Sets (likes_a_final x) m = refl
column_for-Sets (likes_b_final x) m = refl
column_for-Sets (final_implied_a x) m = refl
column_for-Sets (final_pot_usd x) m = refl
column_for-Sets (last_likes_sample_at_ms x) m = refl
column_for-Sets (hidden_reported_at_ms x) m = refl
column_for-Sets (hidden_reporter_ids x) m = refl
column_for-Sets (hidden_report_count x) m = refl
column_for-Sets (settles_at_ms x) m = refl
column_for-Sets (card_tweet_id x) m = refl
column_for-Sets (doppler_pool_id x) m = refl
column_for-Sets (author_a_handle x) m = refl
column_for-Sets (author_b_handle x) m = refl
column_for-Sets (tagger_handle x) m = refl
column_for-Sets (other f) m = tt

-- The field has a column.
abbrev pub HasColumn : Assignment → Type 0
HasColumn a = is_none (column_for a) ≡ false

patch_row-assign_all :
    (patch : List Assignment) (m : MarketRecord)
    → All HasColumn patch
    → set_columns (patch_row patch) (to_row m) ≡ to_row (assign_all patch m)
unfolding Sets set_columns patch_row assign_all
patch_row-assign_all [] m h = refl
patch_row-assign_all (a ∷ patch) m h =
    one (column_for a) (column_for-Sets a m) h.0 (patch_row-assign_all patch (assign a m) h.1)
  where
    one :
        (o : Option (String × Value))
        → Sets a m o
        → is_none o ≡ false
        → set_columns (patch_row patch) (to_row (assign a m))
          ≡ to_row (assign_all patch (assign a m))
        → set_columns (elim o [ none ↦ patch_row patch | some c ↦ c ∷ patch_row patch ]) (to_row m)
          ≡ to_row (assign_all patch (assign a m))
    one none s n rest = cc n
    one (some (c, v)) s n rest = ap (set_columns (patch_row patch)) s ∙ rest

whole_row : (m m' : MarketRecord) → set_columns (to_row m) (to_row m') ≡ to_row m
unfolding set_columns to_row set
whole_row m m' = refl

module _ {D : Type 0} (table : MarketTable D) where
  -- The table holds, for every id, the row of the market that the store has under it.
  abbrev pub Mirrors : D → Store → Type 0
  Mirrors d s = (id : String) → table.row id d ≡ Option.map to_row (get id s.markets)

  save_row-Mirrors :
      (m : MarketRecord) (d d' : D) (s : Store)
      → Mirrors d s
      → save_row table m d ≡ ok d'
      → Mirrors d' (save_market m s)
  unfolding save_row save_market to_row get
  save_row-Mirrors m d d' s h e id =
      table.row_upsert m.id (to_row m) d d' (own m) e id
      ∙ written (get id s.markets) (table.row id d) (h id)
      ∙ ap (Option.map to_row) (sym (get-set m.id id m s.markets))
    where
      own : (m : MarketRecord) → column "id" (to_row m) ≡ Value.text m.id
      own m = refl

      written :
          (o : Option MarketRecord) (r : Option Row)
          → r ≡ Option.map to_row o
          → (if m.id == id
              then some (elim r [ none ↦ to_row m | some old ↦ set_columns (to_row m) old ])
              else r)
            ≡ Option.map to_row (if m.id == id then some m else o)
      written o r same = elim (Bool-cases (m.id == id)) [
        | inr differ ↦ rw differ same
        | inl hit ↦ rw (hit, same) (over o)
      ]
        where
          over :
              (o : Option MarketRecord)
              → some (elim (Option.map to_row o) [
                | none ↦ to_row m
                | some old ↦ set_columns (to_row m) old
              ])
                ≡ some (to_row m)
          over none = refl
          over (some m') = ap some (whole_row m m')

  update_row-Mirrors :
      (own : String) (patch : List Assignment) (d d' : D) (s : Store)
      → All HasColumn patch
      → Mirrors d s
      → update_row table own patch d ≡ ok d'
      → Mirrors d' (update_market own (assign_all patch) s)
  unfolding update_row update_market set_columns
  update_row-Mirrors own patch d d' s mapped h e id =
      go (patch_row patch) refl e
      ∙ ap (Option.map to_row) (sym (get-adjust own id (assign_all patch) s.markets))
    where
      patched : (o : Option MarketRecord) → Option Row
      patched o = Option.map to_row (if own == id then Option.map (assign_all patch) o else o)

      over :
          (o : Option MarketRecord)
          → elim (Option.map to_row o) [
            | none ↦ none
            | some old ↦ some (set_columns (patch_row patch) old)
          ]
            ≡ Option.map to_row (Option.map (assign_all patch) o)
      over none = refl
      over (some m) = ap some (patch_row-assign_all patch m mapped)

      written :
          (o : Option MarketRecord) (r : Option Row)
          → r ≡ Option.map to_row o
          → (if own == id
              then elim r [ none ↦ none | some old ↦ some (set_columns (patch_row patch) old) ]
              else r)
            ≡ patched o
      written o r same = elim (Bool-cases (own == id)) [
        | inr differ ↦ rw differ same
        | inl hit ↦ rw (hit, same) (over o)
      ]

      unset :
          (r : Option Row)
          → r ≡ (
              if own == id
              then elim r [ none ↦ none | some old ↦ some (set_columns [] old) ]
              else r)
      unset none = ground arith
      unset (some old) = ground arith

      go :
          (cs : Row)
          → patch_row patch ≡ cs
          → elim cs [ [] ↦ ok d | c ∷ cs ↦ table.update own (c ∷ cs) d ] ≡ ok d'
          → table.row id d' ≡ patched (get id s.markets)
      go [] none_set e =
          cc (e)
          ∙ unset (table.row id d)
          ∙ ap
              (λ l.
                if own == id
                then elim (table.row id d) [ none ↦ none | some old ↦ some (set_columns l old) ]
                else table.row id d)
              (sym none_set)
          ∙ written (get id s.markets) (table.row id d) (h id)
      go (c ∷ cs) some_set e =
          table.row_update own (c ∷ cs) d d' e id
          ∙ ap
              (λ l.
                if own == id
                then elim (table.row id d) [ none ↦ none | some old ↦ some (set_columns l old) ]
                else table.row id d)
              (sym some_set)
          ∙ written (get id s.markets) (table.row id d) (h id)

-- What the agent writes to its store.
pub data Write : Type 0 where
  saves : MarketRecord → Write
  updates : (id : String) → (patch : List Assignment) → Write

abbrev pub IsMapped : Write → Type 0
IsMapped (saves m) = Unit
IsMapped (updates id patch) = All HasColumn patch

abbrev pub write_rows : {D : Type 0} → MarketTable D → List Write → D → Result D
write_rows table [] d = ok d
write_rows table (saves m ∷ ws) d = elim (save_row table m d) [
  | throw e ↦ throw e
  | ok d' ↦ write_rows table ws d'
]
write_rows table (updates id patch ∷ ws) d = elim (update_row table id patch d) [
  | throw e ↦ throw e
  | ok d' ↦ write_rows table ws d'
]

abbrev pub write_memory : List Write → Store → Store
write_memory [] s = s
write_memory (saves m ∷ ws) s = write_memory ws (save_market m s)
write_memory (updates id patch ∷ ws) s = write_memory ws (update_market id (assign_all patch) s)

both_written :
    {D : Type 0} (r : Result D) (f : D → Result D) (d' : D)
    → elim r [ throw e ↦ throw e | ok d1 ↦ f d1 ] ≡ ok d'
    → (d1 : D) × (r ≡ ok d1) × (f d1 ≡ ok d')
both_written (ok d1) f d' e = (d1, refl, e)
both_written (throw x) f d' e = cc e

-- The database refines the in-memory store: after the same writes, of which the database refuses none
-- and of which every patch names only fields that have a column, the table holds for every id the
-- row of exactly the market that the in-memory store has under it.
pub write_rows-Mirrors :
    {D : Type 0} (table : MarketTable D) (ws : List Write) (d d' : D) (s : Store)
    → All IsMapped ws
    → Mirrors table d s
    → write_rows table ws d ≡ ok d'
    → Mirrors table d' (write_memory ws s)
write_rows-Mirrors table [] d d' s mapped h e = λ id. cc (e, h id)
write_rows-Mirrors table (saves m ∷ ws) d d' s mapped h e =
    let (d1, one, rest) = both_written (save_row table m d) (write_rows table ws) d' e in
    write_rows-Mirrors table ws d1 d' (save_market m s) mapped.1
      (save_row-Mirrors table m d d1 s h one) rest
write_rows-Mirrors table (updates own patch ∷ ws) d d' s mapped h e =
    let (d1, one, rest) = both_written (update_row table own patch d) (write_rows table ws) d' e in
    write_rows-Mirrors table ws d1 d' (update_market own (assign_all patch) s) mapped.1
      (update_row-Mirrors table own patch d d1 s mapped.0 h one) rest
