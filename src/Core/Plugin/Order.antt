-- ===== src/Core/Plugin/Order.antt =====
-- The orders by which plugin.py sorts.
use neuro_pipeline.Prelude.{◌≡◌, true, false, arith}
use neuro_pipeline.Prelude.Int.{ℤ, leb_ℤ}
use neuro_pipeline.Prelude.Sort.{IsOrder}
use neuro_pipeline.Core.Plugin.{by_priority, by_item, by_item_reversed}

leb_ℤ-total : (a b : ℤ) → leb_ℤ a b ≡ false → leb_ℤ b a ≡ true
leb_ℤ-total a b h = ground arith

leb_ℤ-trans : (a b c : ℤ) → leb_ℤ a b ≡ true → leb_ℤ b c ≡ true → leb_ℤ a c ≡ true
leb_ℤ-trans a b c h k = ground arith

module _ {D : Type 0} where
  pub by_priority-IsOrder : IsOrder (by_priority {D = D})
  by_priority-IsOrder = record {
    total = λ p q. leb_ℤ-total p.info.priority q.info.priority;
    trans = λ p q r. leb_ℤ-trans p.info.priority q.info.priority r.info.priority;
  }

  pub by_item_reversed-IsOrder : IsOrder (by_item_reversed {D = D})
  by_item_reversed-IsOrder = record {
    total = λ x y. leb_ℤ-total y.1.info.priority x.1.info.priority;
    trans = λ x y z h k. leb_ℤ-trans z.1.info.priority y.1.info.priority x.1.info.priority k h;
  }

  pub by_item-IsOrder : IsOrder (by_item {D = D})
  by_item-IsOrder = record {
    total = λ x y. leb_ℤ-total x.1.info.priority y.1.info.priority;
    trans = λ x y z. leb_ℤ-trans x.1.info.priority y.1.info.priority z.1.info.priority;
  }
