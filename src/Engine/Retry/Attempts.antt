-- ===== src/Engine/Retry/Attempts.antt =====
-- How often `RetryDecorator` runs its child.
use ss_prep.Base.{
  ℕ, zero, suc, ◌≤◌, String, ◌≡◌, ◌≢◌, refl, ◌⊎◌, inl, inr, Bool, true, false, arith, ◌==◌, eq_iff,
  Result, ok, raise,
}
use ss_prep.Engine.World.{World}
use ss_prep.Engine.Registry.{Child}
use ss_prep.Engine.Retry.{Retry, retry_loop, execute}

-- `n` runs of the child, each of which returns the outcome `o`.
pub data Repeats (c : Child) (o : String) (v : World) : ℕ → World → Type 0 where
  none_yet : {w : World} → w ≡ v → Repeats c o v zero w
  once_more :
      {n : ℕ} {w : World} (w1 : World)
      → (c.execute w).0 ≡ ok o
      → (c.execute w).1 ≡ w1
      → Repeats c o v n w1
      → Repeats c o v (suc n) w

-- The run that gives the decorator its result `r`: after `n` runs that all returned the retry
-- outcome the child runs once more, with the result `r`. `r` is not the retry outcome, unless all
-- the retries are used up.
pub record IsLastAttempt (c : Child) (o : String) (max : ℕ) (w : World) (r : Result String)
    (w' : World) : Type 0 where
  pub n : ℕ
  pub within : n ≤ max
  pub before : World
  pub repeats : Repeats c o before n w
  pub gives : (c.execute before).0 ≡ r
  pub leaves : (c.execute before).1 ≡ w'
  pub stops : (r ≢ ok o) ⊎ (n ≡ max)

abbrev Attempted : Child → String → ℕ → World → Result String × World → Type 0
Attempted c o max w (r, w') = IsLastAttempt c o max w r w'

module _ (c : Child) (o : String) where
  last_now :
      (max : ℕ) (w : World) (r : Result String) (w' : World)
      → (c.execute w).0 ≡ r
      → (c.execute w).1 ≡ w'
      → (r ≢ ok o) ⊎ (0 ≡ max)
      → IsLastAttempt c o max w r w'
  last_now max w r w' gives leaves stops = record {
    n = 0;
    within = omega arith;
    before = w;
    repeats = none_yet refl;
    gives = gives;
    leaves = leaves;
    stops = stops;
  }

  later :
      (left : ℕ) (w0 w : World) (r : Result String) (w' : World)
      → (c.execute w0).0 ≡ ok o
      → (c.execute w0).1 ≡ w
      → IsLastAttempt c o left w r w'
      → IsLastAttempt c o (suc left) w0 r w'
  later left w0 w r w' ran left_at a = record {
    n = suc a.n;
    within = omega (arith, a.within);
    before = a.before;
    repeats = once_more w ran left_at a.repeats;
    gives = a.gives;
    leaves = a.leaves;
    stops = elim a.stops [ inl other ↦ inl other | inr used ↦ inr (omega (arith, used)) ];
  }

  retry_loop-Attempted :
      (left : ℕ) (last : String) (w0 w : World)
      → (c.execute w0).0 ≡ ok last
      → (c.execute w0).1 ≡ w
      → Attempted c o left w0 (retry_loop c o left last w)
  unfolding retry_loop
  retry_loop-Attempted zero last w0 w ran left_at = last_now 0 w0 (ok last) w ran left_at (inr refl)
  retry_loop-Attempted (suc left) last w0 w ran left_at =
      go (last == o) refl (c.execute w).0 refl
        (λ o'. retry_loop-Attempted left o' w (c.execute w).1)
    where
      after : Result String → Result String × World
      after r = elim r [
        | raise e ↦ (raise e, (c.execute w).1)
        | ok o' ↦ retry_loop c o left o' (c.execute w).1
      ]

      go :
          (again : Bool)
          → (last == o) ≡ again
          → (r : Result String) → (c.execute w).0 ≡ r
          → ((o' : String)
              → (c.execute w).0 ≡ ok o'
              → (c.execute w).1 ≡ (c.execute w).1
              → Attempted c o left w (retry_loop c o left o' (c.execute w).1))
          → Attempted c o (suc left) w0 (elim again [ false ↦ (ok last, w) | true ↦ after r ])
      go false e r run ih =
          last_now (suc left) w0 (ok last) w ran left_at (inl (ground (arith, eq_iff last o)))
      go true e (raise x) run ih =
          later left w0 w (raise x) _ (ground (arith, eq_iff last o)) left_at
            (last_now left w (raise x) _ run refl (inl (cc)))
      go true e (ok o') run ih =
          later left w0 w _ _ (ground (arith, eq_iff last o)) left_at (ih o' run refl)

execute-Attempted :
    (d : Retry Child) (w : World) → Attempted d.inner d.retry_outcome d.max_retries w (execute d w)
unfolding execute
execute-Attempted d w = go (d.inner.execute w).0 refl
  where
    go :
        (r : Result String)
        → (d.inner.execute w).0 ≡ r
        → Attempted d.inner d.retry_outcome d.max_retries w (elim r [
          | raise e ↦ (raise e, (d.inner.execute w).1)
          | ok last ↦ retry_loop d.inner d.retry_outcome d.max_retries last (d.inner.execute w).1
        ])
    go (raise x) run =
        last_now d.inner d.retry_outcome d.max_retries w (raise x) _ run refl (inl (cc))
    go (ok last) run =
        retry_loop-Attempted d.inner d.retry_outcome d.max_retries last w (d.inner.execute w).1 run
          refl

-- The child runs once, and again as long as it returns the retry outcome, at most `max_retries`
-- times again; the result is that of the last run, an exception included.
pub execute-IsLastAttempt :
    (d : Retry Child) (w : World)
    → IsLastAttempt d.inner d.retry_outcome d.max_retries w (execute d w).0 (execute d w).1
execute-IsLastAttempt d w = execute-Attempted d w
