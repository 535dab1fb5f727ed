-- ===== src/History/Tests.antt =====
-- The searches in a history of three instances.
use opera.Prelude.{ℕ, ◌<◌, ◌≡◌, refl, ◌⊎◌, [], ◌∷◌, true, false, Error, ok, err, assertion, All}
use opera.History.{
  HumanStateInstance, HumanStateHistory, SamplesHistory, samples_at, count_until, latest_within,
  has_instances_within, remove_older_than, any_within, drop_older,
}
use opera.History.Current.{Current, samples_at-Current}
use opera.History.Latest.{IsLast, latest_within-IsLast}
use opera.History.Removal.{latest_within-remove_older_than}

-- The samples are numbers here.
abbrev history : HumanStateHistory ℕ
history = record {
  instances =
      record { timestamp = 10; samples = 1 ∷ [] }
      ∷ record { timestamp = 20; samples = 2 ∷ [] }
      ∷ record { timestamp = 30; samples = 3 ∷ [] }
      ∷ [];
}

latest_within-IsLast_example :
    ((has_instances_within history 25 ≡ false)
      × ((e : Error) × (latest_within history 25 ≡ err e))
      × All (λ k. 25 < k.timestamp) history.instances)
    ⊎ ((has_instances_within history 25 ≡ true)
        × (j : HumanStateInstance ℕ) × (latest_within history 25 ≡ ok j)
        × IsLast history.instances 25 j)
latest_within-IsLast_example = latest_within-IsLast history 25

latest_within-remove_older_than_example :
    latest_within (remove_older_than history 15) 25 ≡ latest_within history 25
unfolding has_instances_within remove_older_than any_within drop_older
latest_within-remove_older_than_example = latest_within-remove_older_than history 15 25 refl

-- The samples of one segment, from 10 and from 20 on.
abbrev samples : SamplesHistory ℕ
samples = record { entries = (10, (1 ∷ []) ∷ []) ∷ (20, (2 ∷ 3 ∷ []) ∷ []) ∷ [] }

samples_at-Current_example : Current samples 15 (samples_at samples 15)
samples_at-Current_example = samples_at-Current samples 15

-- Entries past the timestamp, and none up to it, as the comment on `at` asks for: it throws.
samples_at-before : samples_at samples 5 ≡ err assertion
unfolding samples_at count_until
samples_at-before = refl

-- Entries up to the timestamp, and none past it: the last one is returned.
samples_at-after : samples_at samples 30 ≡ ok ((2 ∷ 3 ∷ []) ∷ [])
unfolding samples_at count_until
samples_at-after = refl
