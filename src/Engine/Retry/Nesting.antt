-- ===== src/Engine/Retry/Nesting.antt =====
-- The observer's view of a decorator's run.
use ss_prep.Base.{ℕ, zero, suc, String, Bool, true, false, ◌==◌, Result, ok, raise}
use ss_prep.Engine.World.{World, IsTidy, IsTidy-refl, IsTidy-trans}
use ss_prep.Engine.Registry.{Child}
use ss_prep.Engine.Retry.{Retry, retry_loop, execute}

module _ (c : Child) (tidy : (w : World) → IsTidy w (c.execute w).1) where
  retry_loop-IsTidy :
      (o : String) (left : ℕ) (last : String) (w : World) → IsTidy w (retry_loop c o left last w).1
  unfolding retry_loop
  retry_loop-IsTidy o zero last w = IsTidy-refl w
  retry_loop-IsTidy o (suc left) last w =
      go (last == o) (c.execute w).0 (λ o'. retry_loop-IsTidy o left o' (c.execute w).1)
    where
      go :
          (again : Bool) (r : Result String)
          → ((o' : String) → IsTidy (c.execute w).1 (retry_loop c o left o' (c.execute w).1).1)
          → IsTidy w
              (elim again as (λ _. Result String × World) [
                | false ↦ (ok last, w)
                | true ↦ elim r [
                  | raise e ↦ (raise e, (c.execute w).1)
                  | ok o' ↦ retry_loop c o left o' (c.execute w).1
                ]
              ]).1
      go false r ih = IsTidy-refl w
      go true (raise e) ih = tidy w
      go true (ok o') ih = IsTidy-trans (tidy w) (ih o')

pub execute-IsTidy :
    (d : Retry Child)
    → ((w : World) → IsTidy w (d.inner.execute w).1)
    → (w : World) → IsTidy w (execute d w).1
unfolding execute
execute-IsTidy d tidy w = go (d.inner.execute w).0
  where
    go :
        (r : Result String)
        → IsTidy w
            (elim r as (λ _. Result String × World) [
              | raise e ↦ (raise e, (d.inner.execute w).1)
              | ok last ↦
                  retry_loop d.inner d.retry_outcome d.max_retries last (d.inner.execute w).1
            ]).1
    go (raise e) = tidy w
    go (ok last) =
        IsTidy-trans (tidy w)
          (retry_loop-IsTidy d.inner tidy d.retry_outcome d.max_retries last (d.inner.execute w).1)
