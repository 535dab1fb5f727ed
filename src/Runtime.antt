-- ===== src/Runtime.antt =====
-- RuntimeConfiguration (include/runtime.hpp, src/runtime.cpp). The number of threads of the
-- hardware, which the standard library gives, is a parameter.
pub mod Processing
pub mod Counts
mod Tests
use opera.Prelude.{
  ℕ, ◌≤◌, ◌<◌, ◌≡◌, refl, List, [], ◌∷◌, Result, ok, err, require, ◌>>=◌, ◌>>◌, ltb, leb, arith,
  >>=-eq-ok, ok-eq, subst, Bool, true, false,
}
use opera.Sequence.{add_when_different}
use opera.LookAhead.Creating.{strong}
use opera.LookAhead.Factories.{Factory, reuse_factory}

pub record RuntimeConfiguration : Type 0 where
  pub job_factory : Factory
  pub history_retention : ℕ
  pub history_purge_period : ℕ
  pub concurrency : ℕ

-- A call of a setter.
pub data Setting : Type 0 where
  job_factory_as : Factory → Setting
  history_retention_as history_purge_period_as concurrency_as : ℕ → Setting

module _ (hardware_concurrency : ℕ) where
  unfoldable pub default_configuration : RuntimeConfiguration
  default_configuration = record {
    job_factory = reuse_factory add_when_different strong;
    history_retention = 3600;
    history_purge_period = 300;
    concurrency = hardware_concurrency;
  }

  unfoldable pub set : RuntimeConfiguration → Setting → Result RuntimeConfiguration
  set c (job_factory_as factory) = ok (record c { job_factory = factory })
  set c (history_retention_as retention) =
      require (ltb c.history_purge_period retention)
      >> ok (record c { history_retention = retention })
  set c (history_purge_period_as purge_period) =
      require (ltb purge_period c.history_retention)
      >> ok (record c { history_purge_period = purge_period })
  set c (concurrency_as concurrency) =
      require (leb concurrency hardware_concurrency) >> ok (record c { concurrency = concurrency })

  unfoldable pub set_all : RuntimeConfiguration → List Setting → Result RuntimeConfiguration
  set_all c [] = ok c
  set_all c (s ∷ settings) = set c s >>= λ c'. set_all c' settings

  -- The history that is kept reaches further back than it is purged, and there are no more threads
  -- than the hardware has.
  unfoldable pub IsUsable : RuntimeConfiguration → Type 0
  IsUsable c =
      (c.history_purge_period < c.history_retention) × (c.concurrency ≤ hardware_concurrency)

  default-IsUsable : IsUsable default_configuration
  unfolding IsUsable default_configuration
  default-IsUsable = (omega arith, omega arith)

  checked-IsUsable :
      (b : Bool) (c c' : RuntimeConfiguration)
      → (b ≡ true → IsUsable c)
      → (require b >> ok c) ≡ ok c'
      → IsUsable c'
  checked-IsUsable true c c' h e = subst IsUsable (ok-eq _ _ e) (h refl)
  checked-IsUsable false c c' h e = absurd (cc)

  set-IsUsable :
      (c c' : RuntimeConfiguration) (s : Setting) → IsUsable c → set c s ≡ ok c' → IsUsable c'
  unfolding IsUsable set
  set-IsUsable c c' (job_factory_as factory) h e = subst IsUsable (ok-eq _ _ e) h
  set-IsUsable c c' (history_retention_as n) h e =
      checked-IsUsable (ltb c.history_purge_period n) _ c' (λ b. ground arith) e
  set-IsUsable c c' (history_purge_period_as n) h e =
      checked-IsUsable (ltb n c.history_retention) _ c' (λ b. ground arith) e
  set-IsUsable c c' (concurrency_as n) h e =
      checked-IsUsable (leb n hardware_concurrency) _ c' (λ b. ground arith) e

  -- Settings that are accepted one after the other leave a usable configuration usable.
  pub set_all-IsUsable :
      (c c' : RuntimeConfiguration) (settings : List Setting)
      → IsUsable c
      → set_all c settings ≡ ok c'
      → IsUsable c'
  unfolding set_all
  set_all-IsUsable c c' [] h e = subst IsUsable (ok-eq _ _ e) h
  set_all-IsUsable c c' (s ∷ settings) h e =
      let (c1, first, rest) = >>=-eq-ok (set c s) _ e in
      set_all-IsUsable c1 c' settings (set-IsUsable c c1 s h first) rest
