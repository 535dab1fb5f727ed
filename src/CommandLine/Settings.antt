-- ===== src/CommandLine/Settings.antt =====
-- What `acquire` (src/command_line_interface.cpp) makes of the arguments.
use opera.Prelude.{
  ℕ, suc, ◌≡◌, ◌<◌, ◌≤◌, ◌%◌, ◌^◌, Bool, ltb, if◌then◌else◌, Bool-cases, inl, inr, arith, refl, ◌∙◌,
  ◌⊎◌, false, List, [], ◌∷◌, ◌++◌, true, Option, none, some, Result, ok, length,
}
use opera.Prelude.Texts.{Text, bytes, text_eq, text_lt}
use opera.CommandLine.{
  ArgumentPack, Effect, use_scheduler, set_theme, set_verbosity, Scheduler, immediate, blocking,
  nonblocking, Theme, plain, light, dark, pos, int_bound, Conversions, construct, empty, peek, pop,
}
use opera.CommandLine.Decimals.{decimal}
use opera.CommandLine.Parsers.{
  verbosity, short_id, long_id, has_short_id, requires_value, short_argument, long_argument,
  is_consumable, value_processor, create_processor, consume, first_consumable,
}
use opera.CommandLine.Acquisition.{
  Outcome, refuse, value_invalid, pack_lt, contains, insert, process_all, after_consume, round,
  acquire_loop, acquire,
}

-- What can be set; each is optional.
pub record LogSettings : Type 0 where
  pub scheduler_set : Option Scheduler
  pub theme_set : Option Theme
  pub verbosity_set : Option ℕ

unfoldable pub scheduler_text : Scheduler → Text
scheduler_text immediate = bytes "immediate"
scheduler_text blocking = bytes "blocking"
scheduler_text nonblocking = bytes "nonblocking"

unfoldable pub theme_text : Theme → Text
theme_text plain = bytes "none"
theme_text light = bytes "light"
theme_text dark = bytes "dark"

unfoldable pub scheduler_arguments : Option Scheduler → List Text → List Text
scheduler_arguments none rest = rest
scheduler_arguments (some s) rest = bytes "--scheduler" ∷ scheduler_text s ∷ rest

unfoldable pub theme_arguments : Option Theme → List Text → List Text
theme_arguments none rest = rest
theme_arguments (some t) rest = bytes "--theme" ∷ theme_text t ∷ rest

unfoldable pub verbosity_arguments : Option ℕ → List Text
verbosity_arguments none = []
verbosity_arguments (some n) = bytes "-v" ∷ decimal n ∷ []

-- The arguments for the settings, after the name of the program.
unfoldable pub arguments : LogSettings → List Text
arguments s =
    scheduler_arguments s.scheduler_set
      (theme_arguments s.theme_set (verbosity_arguments s.verbosity_set))

-- The verbosity is an int.
unfoldable pub fits_int : Option ℕ → Bool
fits_int none = true
fits_int (some n) = ltb n int_bound

theme_packs : Option Theme → List ArgumentPack
theme_packs none = []
theme_packs (some t) = record { id = bytes "theme"; processor = set_theme t ∷ [] } ∷ []

unfoldable pub scheduler_effects : Option Scheduler → List Effect
scheduler_effects none = []
scheduler_effects (some x) = use_scheduler x ∷ []

unfoldable pub theme_effects : Option Theme → List Effect
theme_effects none = []
theme_effects (some t) = set_theme t ∷ []

unfoldable pub verbosity_effects : Option ℕ → List Effect
verbosity_effects none = []
verbosity_effects (some n) = set_verbosity n ∷ []

-- The effects of the settings, the scheduler's first.
abbrev pub asked : LogSettings → List Effect
asked s =
    scheduler_effects s.scheduler_set
    ++ (theme_effects s.theme_set ++ verbosity_effects s.verbosity_set)

-- The verbosity is the last to be read: what the scheduler asks for is done by then.
abbrev answered : List Effect → Option Theme → Option ℕ → Result Outcome
answered done t v = ok (
    if fits_int v
    then record {
      accepted = true;
      effects = done ++ (theme_effects t ++ verbosity_effects v);
      messages = [];
    }
    else refuse done (value_invalid (bytes "verbosity") ∷ []))

module _ ⦃c : Conversions⦄ where
  scheduler-step :
      (fuel : ℕ) (x : Scheduler) (rest : List Text)
      → acquire_loop (suc fuel) (bytes "--scheduler" ∷ scheduler_text x ∷ rest) [] []
        ≡ acquire_loop fuel rest [] (scheduler_effects (some x))
  unfolding acquire_loop round after_consume first_consumable is_consumable consume create_processor
      value_processor contains insert pack_lt process_all peek pop empty scheduler_text
      scheduler_effects short_argument long_argument short_id long_id has_short_id requires_value
      text_eq text_lt
  scheduler-step fuel immediate rest = refl
  scheduler-step fuel blocking rest = refl
  scheduler-step fuel nonblocking rest = refl

  theme-step :
      (fuel : ℕ) (t : Theme) (rest : List Text) (done : List Effect)
      → acquire_loop (suc fuel) (bytes "--theme" ∷ theme_text t ∷ rest) [] done
        ≡ acquire_loop fuel rest (theme_packs (some t)) done
  unfolding acquire_loop round after_consume first_consumable is_consumable consume create_processor
      value_processor contains insert pack_lt process_all peek pop empty theme_text theme_packs
      short_argument long_argument short_id long_id has_short_id requires_value text_eq text_lt
  theme-step fuel plain rest done = refl
  theme-step fuel light rest done = refl
  theme-step fuel dark rest done = refl

  -- The conversion to an unsigned int keeps what std::stoi returns.
  verbosity-stoi :
      (val : Text) (n : ℕ)
      → c.stoi val ≡ some (pos n)
      → value_processor verbosity val ≡ some (set_verbosity n ∷ [])
  unfolding value_processor
  verbosity-stoi val n e =
      let small = c.stoi_pos val n e in
      let same : n % 2 ^ 32 ≡ n = omega arith in rw (e, value_processor, same) refl

  module _ (reads : (n : ℕ) → n < int_bound → c.stoi (decimal n) ≡ some (pos n))
      (throws : (n : ℕ) → int_bound ≤ n → c.stoi (decimal n) ≡ none) where
    -- The value of a number, and whether it is an int.
    verbosity_value :
        (n : ℕ)
        → ((ltb n int_bound ≡ true)
            × (value_processor verbosity (decimal n) ≡ some (set_verbosity n ∷ [])))
          ⊎ ((ltb n int_bound ≡ false) × (value_processor verbosity (decimal n) ≡ none))
    unfolding value_processor
    verbosity_value n = elim (Bool-cases (ltb n int_bound)) [
      | inl e ↦ inl (e, verbosity-stoi (decimal n) n (reads n (ground arith)))
      | inr e ↦ inr (e, rw (throws n (ground arith), value_processor) refl)
    ]

    verbosity-step :
        (fuel : ℕ) (t : Option Theme) (n : ℕ) (done : List Effect)
        → acquire_loop (suc (suc fuel)) (bytes "-v" ∷ decimal n ∷ []) (theme_packs t) done
          ≡ answered done t (some n)
    unfolding acquire_loop round after_consume first_consumable is_consumable consume
        create_processor contains insert pack_lt process_all peek pop empty theme_packs
        theme_effects verbosity_effects short_argument long_argument short_id long_id has_short_id
        requires_value text_eq text_lt fits_int refuse
    verbosity-step fuel none n done = elim (verbosity_value n) [
      | inl (e, f) ↦ rw (e, f, fits_int)
      | inr (e, f) ↦ rw (e, f, fits_int)
    ]
    verbosity-step fuel (some t) n done = elim (verbosity_value n) [
      | inl (e, f) ↦ rw (e, f, fits_int)
      | inr (e, f) ↦ rw (e, f, fits_int)
    ]

    verbosity-stage :
        (fuel : ℕ) (t : Option Theme) (v : Option ℕ) (done : List Effect)
        → acquire_loop (suc (suc fuel)) (verbosity_arguments v) (theme_packs t) done
          ≡ answered done t v
    unfolding acquire_loop empty theme_packs theme_effects verbosity_effects verbosity_arguments
        process_all fits_int
    verbosity-stage fuel none none done = refl
    verbosity-stage fuel (some t) none done = refl
    verbosity-stage fuel t (some n) done = verbosity-step fuel t n done

    acquire_settings :
        (name : Text) (s : Option Scheduler) (t : Option Theme) (v : Option ℕ)
        → acquire
            (name ∷ arguments (record { scheduler_set = s; theme_set = t; verbosity_set = v }))
          ≡ answered (scheduler_effects s) t v
    unfolding acquire construct pop peek empty arguments scheduler_arguments theme_arguments
        theme_packs scheduler_effects theme_effects
    acquire_settings name none none v = verbosity-stage (length (verbosity_arguments v)) none v []
    acquire_settings name none (some t) v =
        theme-step _ t (verbosity_arguments v) [] ∙ verbosity-stage _ (some t) v []
    acquire_settings name (some x) none v =
        scheduler-step _ x (verbosity_arguments v) ∙ verbosity-stage _ none v (use_scheduler x ∷ [])
    acquire_settings name (some x) (some t) v =
        scheduler-step _ x (bytes "--theme" ∷ theme_text t ∷ verbosity_arguments v)
        ∙ (theme-step _ t (verbosity_arguments v) (use_scheduler x ∷ [])
            ∙ verbosity-stage _ (some t) v (use_scheduler x ∷ []))

    -- Settings that are written as arguments after any name of the program, the verbosity in base
    -- ten, are read back where the verbosity is an int: the arguments are accepted without a
    -- message, and the logger is asked for exactly what is set, the scheduler first, then the theme,
    -- then the verbosity. A verbosity past INT_MAX is refused as an invalid value, with the
    -- scheduler already chosen and nothing else asked for. The conditions are that std::stoi returns
    -- the number that decimals write up to INT_MAX, and throws past it.
    pub acquire-arguments :
        (name : Text) (s : LogSettings)
        → acquire (name ∷ arguments s)
          ≡ ok (
              if fits_int s.verbosity_set
              then record { accepted = true; effects = asked s; messages = [] }
              else refuse
                  (scheduler_effects s.scheduler_set)
                  (value_invalid (bytes "verbosity") ∷ []))
    acquire-arguments name s = acquire_settings name s.scheduler_set s.theme_set s.verbosity_set
