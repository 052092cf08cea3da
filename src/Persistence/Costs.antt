-- ===== src/Persistence/Costs.antt =====
-- The cost of a response that tells the cost of each model.
use acpp.Prelude.{Bytes, codes, ◌≡◌, refl, ap, ◌∙◌, true, false, Option, none, some}
use acpp.Db.MemStore.{UsageInfo}
use acpp.Persistence.Meta.{
  Floats, Fields, text, number, object, other, end, field, get, number_of, no_usage, costed,
  add_model, add_models,
}

module _ {C : Type 0} (f : Floats C) where
  costed_kept : (c : C) (o : Option C) → f.is_zero c ≡ false → costed f c o ≡ c
  unfolding costed
  costed_kept c none h = refl
  costed_kept c (some v) h = rw h refl

  -- A cost that is there is not changed by any model.
  models_keep_cost :
      (fs : Fields C) (info : UsageInfo C)
      → f.is_zero info.cost_usd ≡ false
      → (add_models f fs info).cost_usd ≡ info.cost_usd
  unfolding add_models add_model
  models_keep_cost end info h = refl
  models_keep_cost (field k (text t) fs) info h = models_keep_cost fs info h
  models_keep_cost (field k (number x) fs) info h = models_keep_cost fs info h
  models_keep_cost (field k other fs) info h = models_keep_cost fs info h
  models_keep_cost (field k (object m) fs) info h =
      let kept = costed_kept info.cost_usd (number_of (get m (codes "costUSD"))) h in
      models_keep_cost fs (add_model f m info) (ap f.is_zero kept ∙ h) ∙ kept

  -- When no total is told, the cost is that of the first model alone, if it is not zero, whatever the
  -- models after it cost.
  pub first_cost :
      (name : Bytes) (m fs : Fields C) (x : C)
      → number_of (get m (codes "costUSD")) ≡ some x
      → f.is_zero f.zero_cost ≡ true
      → f.is_zero (f.plus f.zero_cost x) ≡ false
      → (add_models f (field name (object m) fs) (no_usage f)).cost_usd ≡ f.plus f.zero_cost x
  unfolding add_models add_model no_usage costed
  first_cost name m fs x h z n =
      let told : (add_model f m (no_usage f)).cost_usd ≡ f.plus f.zero_cost x =
        ap (costed f f.zero_cost) h ∙ rw z refl in
      models_keep_cost fs (add_model f m (no_usage f)) (ap f.is_zero told ∙ n) ∙ told
