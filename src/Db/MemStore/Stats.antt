-- ===== src/Db/MemStore/Stats.antt =====
-- db/memstore.go, `GetDailyStats`. The sum of two costs and the text of a day are parameters.
use mathlib.Core.Path.{subst}
use acpp.Prelude.{
  Bytes, text_eq, eq_of_text_eq, ℕ, add64, ltb, leb, true, false, sym, arith, ◌≡◌, refl, ap, ◌∙◌,
  Bool, ◌&&◌, ◌||◌, not, Bool-cases, inl, inr, Option, none, some, List, [], ◌∷◌, if◌then◌else◌,
}
use acpp.Db.Map.{Map, lookup, insert, values, lookup-insert, lookup-insert_other}
use acpp.Db.Order.{sort_by}
use acpp.Db.MemStore.{SessionRow, MemStore}
use acpp.Db.MemStore.Listing.{text_lt}

pub record DailyStatsRow (C : Type 0) : Type 0 where
  pub day : Bytes
  pub sessions : ℕ
  pub prompt_count : ℕ
  pub input_tokens : ℕ
  pub output_tokens : ℕ
  pub cache_creation_input_tokens : ℕ
  pub cache_read_input_tokens : ℕ
  pub cost_usd : C

module _ {C : Type 0} (plus : C → C → C) (zero_cost : C) (day_of : ℕ → Bytes) where
  -- The row of a day, or a new one.
  pub row_of : Bytes → Option (DailyStatsRow C) → DailyStatsRow C
  row_of day none = record {
    day = day;
    sessions = 0;
    prompt_count = 0;
    input_tokens = 0;
    output_tokens = 0;
    cache_creation_input_tokens = 0;
    cache_read_input_tokens = 0;
    cost_usd = zero_cost;
  }
  row_of day (some d) = d

  pub counted : SessionRow C → DailyStatsRow C → DailyStatsRow C
  counted s d = record d {
    sessions = add64 d.sessions 1;
    prompt_count = add64 d.prompt_count s.prompt_count;
    input_tokens = add64 d.input_tokens s.input_tokens;
    output_tokens = add64 d.output_tokens s.output_tokens;
    cache_creation_input_tokens = add64 d.cache_creation_input_tokens s.cache_creation_input_tokens;
    cache_read_input_tokens = add64 d.cache_read_input_tokens s.cache_read_input_tokens;
    cost_usd = plus d.cost_usd s.cost_usd;
  }

  -- The session is not before `since`, and is of the agent, if one is asked for.
  pub is_counted : ℕ → Bytes → SessionRow C → Bool
  is_counted since agent s =
      not (ltb s.created_at since) && (text_eq agent [] || text_eq s.agent agent)

  count_day : SessionRow C → Map (DailyStatsRow C) → Map (DailyStatsRow C)
  unfolding row_of counted lookup
  count_day s daily =
      let day = day_of s.created_at in insert daily day (counted s (row_of day (lookup daily day)))

  pub daily_rows : ℕ → Bytes → List (SessionRow C) → Map (DailyStatsRow C) → Map (DailyStatsRow C)
  unfolding count_day is_counted
  daily_rows since agent [] daily = daily
  daily_rows since agent (s ∷ ss) daily =
      daily_rows since agent ss (if is_counted since agent s then count_day s daily else daily)

  later_day : DailyStatsRow C → DailyStatsRow C → Bool
  unfolding text_lt
  later_day x y = text_lt y.day x.day

  pub get_daily_stats : MemStore C → ℕ → Bytes → List (DailyStatsRow C)
  unfolding daily_rows sort_by later_day values
  get_daily_stats m since agent =
      sort_by later_day (values (daily_rows since agent (values m.sessions) []))

  -- The row of one day, as the pass comes to it.
  one_day :
      ℕ → Bytes → Bytes → List (SessionRow C) → Option (DailyStatsRow C) → Option (DailyStatsRow C)
  unfolding is_counted row_of counted
  one_day since agent day [] row = row
  one_day since agent day (s ∷ ss) row = one_day since agent day ss (
      if is_counted since agent s && text_eq (day_of s.created_at) day
      then some (counted s (row_of day row))
      else row)

  count_day-lookup :
      (s : SessionRow C) (daily : Map (DailyStatsRow C)) (day : Bytes)
      → lookup (count_day s daily) day ≡ (
          if text_eq (day_of s.created_at) day
          then some (counted s (row_of day (lookup daily day)))
          else lookup daily day)
  unfolding count_day
  count_day-lookup s daily day = elim (Bool-cases (text_eq (day_of s.created_at) day)) [
    | inl e ↦ rw e (
        subst
          (λ d.
            lookup
              (insert daily (day_of s.created_at)
                (counted s (row_of (day_of s.created_at) (lookup daily (day_of s.created_at)))))
              d
            ≡ some (counted s (row_of d (lookup daily d))))
          (eq_of_text_eq (day_of s.created_at) day e) (lookup-insert daily (day_of s.created_at) _))
    | inr e ↦ rw e (lookup-insert_other daily (day_of s.created_at) day _ e)
  ]

  daily_rows-one_day :
      (since : ℕ) (agent day : Bytes) (ss : List (SessionRow C)) (daily : Map (DailyStatsRow C))
      → lookup (daily_rows since agent ss daily) day ≡ one_day since agent day ss (lookup daily day)
  unfolding daily_rows one_day
  daily_rows-one_day since agent day [] daily = refl
  daily_rows-one_day since agent day (s ∷ ss) daily = elim (Bool-cases (is_counted since agent s)) [
    | inl e ↦ rw e (
        daily_rows-one_day since agent day ss (count_day s daily)
        ∙ ap (one_day since agent day ss) (count_day-lookup s daily day))
    | inr e ↦ rw e (daily_rows-one_day since agent day ss daily)
  ]

  -- The sessions of one day that the statistics are about: those not created before `since`, and of
  -- the agent, if one is given.
  abbrev pub chosen : ℕ → Bytes → Bytes → List (SessionRow C) → List (SessionRow C)
  chosen since agent day [] = []
  chosen since agent day (s ∷ ss) =
      let rest = chosen since agent day ss in
      if leb since s.created_at
        && ((text_eq agent [] || text_eq s.agent agent) && text_eq (day_of s.created_at) day)
      then s ∷ rest
      else rest

  -- A number of each session, added up at 64 bits, and the costs.
  abbrev pub sum64 : (SessionRow C → ℕ) → List (SessionRow C) → ℕ → ℕ
  sum64 f [] n = n
  sum64 f (s ∷ ss) n = sum64 f ss (add64 n (f s))

  abbrev pub sum_cost : List (SessionRow C) → C → C
  sum_cost [] c = c
  sum_cost (s ∷ ss) c = sum_cost ss (plus c s.cost_usd)

  abbrev grown : DailyStatsRow C → List (SessionRow C) → DailyStatsRow C
  grown d ss = record {
    day = d.day;
    sessions = sum64 (λ s. 1) ss d.sessions;
    prompt_count = sum64 (λ s. s.prompt_count) ss d.prompt_count;
    input_tokens = sum64 (λ s. s.input_tokens) ss d.input_tokens;
    output_tokens = sum64 (λ s. s.output_tokens) ss d.output_tokens;
    cache_creation_input_tokens =
        sum64 (λ s. s.cache_creation_input_tokens) ss d.cache_creation_input_tokens;
    cache_read_input_tokens = sum64 (λ s. s.cache_read_input_tokens) ss d.cache_read_input_tokens;
    cost_usd = sum_cost ss d.cost_usd;
  }

  -- The row of a day with these sessions, and none without any.
  abbrev pub expected : Bytes → List (SessionRow C) → Option (DailyStatsRow C)
  expected day [] = none
  expected day (s ∷ ss) = some (record {
    day = day;
    sessions = sum64 (λ x. 1) (s ∷ ss) 0;
    prompt_count = sum64 (λ x. x.prompt_count) (s ∷ ss) 0;
    input_tokens = sum64 (λ x. x.input_tokens) (s ∷ ss) 0;
    output_tokens = sum64 (λ x. x.output_tokens) (s ∷ ss) 0;
    cache_creation_input_tokens = sum64 (λ x. x.cache_creation_input_tokens) (s ∷ ss) 0;
    cache_read_input_tokens = sum64 (λ x. x.cache_read_input_tokens) (s ∷ ss) 0;
    cost_usd = sum_cost (s ∷ ss) zero_cost;
  })

  counted_test :
      (since : ℕ) (agent day : Bytes) (s : SessionRow C)
      → (is_counted since agent s && text_eq (day_of s.created_at) day) ≡ (
          leb since s.created_at
          && ((text_eq agent [] || text_eq s.agent agent) && text_eq (day_of s.created_at) day))
  unfolding is_counted
  counted_test since agent day s = elim (Bool-cases (ltb s.created_at since)) [
    | inl e ↦ let no : leb since s.created_at ≡ false = ground arith in rw (e, no) refl
    | inr e ↦ let yes : leb since s.created_at ≡ true = ground arith in rw (e, yes) refl
  ]

  one_day-some :
      (since : ℕ) (agent day : Bytes) (ss : List (SessionRow C)) (d : DailyStatsRow C)
      → one_day since agent day ss (some d) ≡ some (grown d (chosen since agent day ss))
  unfolding one_day row_of counted
  one_day-some since agent day [] d = refl
  one_day-some since agent day (s ∷ ss) d =
      elim (Bool-cases (is_counted since agent s && text_eq (day_of s.created_at) day)) [
        | inl e ↦
            rw (e, sym (counted_test since agent day s) ∙ e)
              (one_day-some since agent day ss (counted s d))
        | inr e ↦
            rw (e, sym (counted_test since agent day s) ∙ e) (one_day-some since agent day ss d)
      ]

  one_day-expected :
      (since : ℕ) (agent day : Bytes) (ss : List (SessionRow C))
      → one_day since agent day ss none ≡ expected day (chosen since agent day ss)
  unfolding one_day row_of counted
  one_day-expected since agent day [] = refl
  one_day-expected since agent day (s ∷ ss) =
      elim (Bool-cases (is_counted since agent s && text_eq (day_of s.created_at) day)) [
        | inl e ↦
            rw (e, sym (counted_test since agent day s) ∙ e)
              (one_day-some since agent day ss (counted s (row_of day none)))
        | inr e ↦
            rw (e, sym (counted_test since agent day s) ∙ e) (one_day-expected since agent day ss)
      ]

  -- The one pass has for each day the number of the sessions of this day that were not created before
  -- `since`, and are of the agent, if one is given, with the sums of their counts and costs, and no row
  -- for a day without one.
  pub daily_rows_lem :
      (since : ℕ) (agent day : Bytes) (ss : List (SessionRow C))
      → lookup (daily_rows since agent ss []) day ≡ expected day (chosen since agent day ss)
  daily_rows_lem since agent day ss =
      daily_rows-one_day since agent day ss []
      ∙ (unfold lookup in one_day-expected since agent day ss)
