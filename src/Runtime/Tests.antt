-- ===== src/Runtime/Tests.antt =====
-- Settings of the configuration, on a machine of eight threads.
use opera.Prelude.{◌≡◌, refl, [], ◌∷◌, ok, err, precondition}
use opera.Runtime.{
  set_all, set, default_configuration, history_retention_as, history_purge_period_as,
}

raised : set_all 8 (default_configuration 8) (history_retention_as 10 ∷ []) ≡ err precondition
unfolding set_all set default_configuration
raised = refl

-- A shorter retention is accepted after a shorter period.
lowered :
    set_all 8 (default_configuration 8) (history_purge_period_as 5 ∷ history_retention_as 10 ∷ [])
    ≡ ok (record (default_configuration 8) { history_retention = 10; history_purge_period = 5 })
unfolding set_all set default_configuration
lowered = refl
