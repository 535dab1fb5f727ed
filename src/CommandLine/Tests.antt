-- ===== src/CommandLine/Tests.antt =====
-- Runs of the command line on concrete arguments.
use opera.Prelude.{
  ℕ, ◌≡◌, refl, [], ◌∷◌, some, ok, true, false, ◌⊎◌, ◌<◌, ◌≤◌, Option, none, if◌then◌else◌, ltb,
  arith,
}
use opera.Prelude.Texts.{Text, bytes, text_eq}
use opera.CommandLine.{
  use_scheduler, blocking, immediate, dark, ℤ, pos, negsuc, int_bound, Conversions, construct,
  empty, peek, pop,
}
use opera.CommandLine.Parsers.{
  short_id, long_id, has_short_id, requires_value, short_argument, long_argument, is_consumable,
  value_processor, create_processor, consume, first_consumable,
}
use opera.CommandLine.Acquisition.{
  Outcome, refuse, value_required, value_invalid, contains, insert, pack_lt, process_all,
  after_consume, round, acquire_loop, acquire,
}
use opera.CommandLine.Decimals.{
  decimal, digits, scan, starts_with_digit, is_digit, scan-decimal, starts_with_digit-decimal,
}
use opera.CommandLine.Settings.{
  LogSettings, arguments, asked, fits_int, scheduler_effects, scheduler_arguments, scheduler_text,
  theme_arguments, theme_text, verbosity_arguments, acquire-arguments,
}
use opera.CommandLine.Refusing.{OnlyScheduler, acquire-returns}

-- A reader of the digits at the front of a text, which throws past INT_MAX.
abbrev read_int : Text → Option ℤ
read_int t =
    if starts_with_digit t
    then (if ltb (scan t 0) int_bound then some (pos (scan t 0)) else none)
    else none

read_int_pos : (t : Text) (n : ℕ) → read_int t ≡ some (pos n) → n < int_bound
read_int_pos t n h = ground arith

read_int_negsuc : (t : Text) (n : ℕ) → read_int t ≡ some (negsuc n) → n < int_bound
read_int_negsuc t n h = ground arith

abbrev by_digits : Conversions
by_digits = record { stoi = read_int; stoi_pos = read_int_pos; stoi_negsuc = read_int_negsuc }

read_int-decimal : (n : ℕ) → n < int_bound → read_int (decimal n) ≡ some (pos n)
read_int-decimal n h = ground (arith, starts_with_digit-decimal n, scan-decimal n)

read_int-over : (n : ℕ) → int_bound ≤ n → read_int (decimal n) ≡ none
read_int-over n h = ground (arith, starts_with_digit-decimal n, scan-decimal n)

abbrev chosen : LogSettings
chosen = record { scheduler_set = some blocking; theme_set = some dark; verbosity_set = some 13 }

acquire-arguments_example :
    acquire ⦃c = by_digits⦄ (bytes "opera" ∷ arguments chosen)
    ≡ ok (
        if fits_int chosen.verbosity_set
        then record { accepted = true; effects = asked chosen; messages = [] }
        else refuse
            (scheduler_effects chosen.scheduler_set)
            (value_invalid (bytes "verbosity") ∷ []))
acquire-arguments_example =
    acquire-arguments ⦃c = by_digits⦄ read_int-decimal read_int-over (bytes "opera") chosen

written : arguments chosen ≡ (
    bytes "--scheduler"
    ∷ bytes "blocking"
    ∷ bytes "--theme"
    ∷ bytes "dark"
    ∷ bytes "-v"
    ∷ bytes "13"
    ∷ [])
unfolding arguments scheduler_arguments scheduler_text theme_arguments theme_text
    verbosity_arguments decimal digits
written = refl

-- INT_MAX is read, the next number is not.
largest_int :
    (read_int (bytes "2147483647") ≡ some (pos 2147483647)) × (read_int (bytes "2147483648") ≡ none)
unfolding scan starts_with_digit is_digit
largest_int = (refl, refl)

acquire-too_large :
    acquire ⦃c = by_digits⦄
      (bytes "opera" ∷ bytes "-s" ∷ bytes "immediate" ∷ bytes "-v" ∷ bytes "2147483648" ∷ [])
    ≡ ok (refuse (use_scheduler immediate ∷ []) (value_invalid (bytes "verbosity") ∷ []))
unfolding acquire construct empty peek pop acquire_loop round after_consume first_consumable
    is_consumable consume create_processor value_processor contains insert pack_lt process_all
    short_id long_id has_short_id requires_value short_argument long_argument text_eq scan
    starts_with_digit is_digit
acquire-too_large = refl

acquire-returns_example :
    (o : Outcome) × (acquire ⦃c = by_digits⦄
        (bytes "opera" ∷ bytes "-s" ∷ bytes "immediate" ∷ bytes "-t" ∷ [])
      ≡ ok o)
    × ((o.accepted ≡ true) × (o.messages ≡ []) ⊎ (o.accepted ≡ false) × OnlyScheduler o.effects)
acquire-returns_example =
    acquire-returns ⦃c = by_digits⦄ (bytes "opera")
      (bytes "-s" ∷ bytes "immediate" ∷ bytes "-t" ∷ [])

-- The scheduler that is chosen twice is not refused, unlike the theme.
acquire-twice :
    acquire ⦃c = by_digits⦄
      (bytes "opera" ∷ bytes "-s" ∷ bytes "immediate" ∷ bytes "-s" ∷ bytes "blocking" ∷ [])
    ≡ ok (record {
      accepted = true;
      effects = use_scheduler immediate ∷ use_scheduler blocking ∷ [];
      messages = [];
    })
unfolding acquire construct empty peek pop acquire_loop round after_consume first_consumable
    is_consumable consume create_processor value_processor contains insert pack_lt process_all
    short_id long_id has_short_id requires_value short_argument long_argument text_eq
acquire-twice = refl

acquire-missing :
    acquire ⦃c = by_digits⦄ (bytes "opera" ∷ bytes "-s" ∷ bytes "immediate" ∷ bytes "-t" ∷ [])
    ≡ ok (refuse (use_scheduler immediate ∷ []) (value_required (bytes "theme") ∷ []))
unfolding acquire construct empty peek pop acquire_loop round after_consume first_consumable
    is_consumable consume create_processor value_processor contains insert pack_lt process_all
    short_id long_id has_short_id requires_value short_argument long_argument text_eq
acquire-missing = refl
