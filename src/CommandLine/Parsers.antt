-- ===== src/CommandLine/Parsers.antt =====
-- The argument parsers of src/command_line_interface.cpp.
use opera.Prelude.{
  List, [], ◌∷◌, ◌++◌, Bool, true, false, not, if◌then◌else◌, Option, none, some, Result, ok, err,
  ◌>>=◌, is_nil, ◌%◌, ◌^◌,
}
use opera.Prelude.Texts.{Text, text_eq, bytes}
use opera.CommandLine.{
  ArgumentStream, missing_value, invalid_value, Consumed, consumed, thrown, Effect, use_scheduler,
  set_theme, set_verbosity, immediate, blocking, nonblocking, plain, light, dark, pos, negsuc,
  Conversions, empty, peek, pop,
}

-- The four parsers, one for each class.
pub data ArgumentParser : Type 0 where
  help scheduler theme verbosity : ArgumentParser

-- The parsers of the constructor of CommandLineInterface.
abbrev pub parsers : List ArgumentParser
parsers = help ∷ scheduler ∷ theme ∷ verbosity ∷ []

unfoldable pub short_id : ArgumentParser → Text
short_id help = bytes "h"
short_id scheduler = bytes "s"
short_id theme = bytes "t"
short_id verbosity = bytes "v"

unfoldable pub long_id : ArgumentParser → Text
long_id help = bytes "help"
long_id scheduler = bytes "scheduler"
long_id theme = bytes "theme"
long_id verbosity = bytes "verbosity"

unfoldable pub has_short_id : ArgumentParser → Bool
has_short_id p = not (is_nil (short_id p))

-- ValuedArgumentParserBase and UnvaluedArgumentParserBase
unfoldable pub requires_value : ArgumentParser → Bool
requires_value help = false
requires_value scheduler = true
requires_value theme = true
requires_value verbosity = true

unfoldable pub short_argument : ArgumentParser → Text
short_argument p = bytes "-" ++ short_id p

unfoldable pub long_argument : ArgumentParser → Text
long_argument p = bytes "--" ++ long_id p

unfoldable pub is_consumable : ArgumentParser → ArgumentStream → Result Bool
is_consumable p stream = do
  arg ← peek stream
  if has_short_id p
      then (if text_eq arg (short_argument p) then ok true else ok (text_eq arg (long_argument p)))
      else ok (text_eq arg (long_argument p))

module _ ⦃c : Conversions⦄ where
  -- What the value asks for; `none` is an exception. The verbosity is converted to an unsigned int
  -- of 32 bits.
  unfoldable pub value_processor : ArgumentParser → Text → Option (List Effect)
  value_processor help val = some []
  value_processor scheduler val =
      if text_eq val (bytes "immediate")
      then some (use_scheduler immediate ∷ [])
      else if text_eq val (bytes "blocking")
      then some (use_scheduler blocking ∷ [])
      else if text_eq val (bytes "nonblocking")
      then some (use_scheduler nonblocking ∷ [])
      else none
  value_processor theme val =
      if not (text_eq val (bytes "none"))
      then (if text_eq val (bytes "light")
          then some (set_theme light ∷ [])
          else if text_eq val (bytes "dark")
          then some (set_theme dark ∷ [])
          else none)
      else some (set_theme plain ∷ [])
  value_processor verbosity val = elim (c.stoi val) [
    | none ↦ none
    | some (pos n) ↦ some (set_verbosity (n % 2 ^ 32) ∷ [])
    | some (negsuc n) ↦ none
  ]

  -- `create_processor`: every exception of the value is an invalid value.
  unfoldable pub create_processor : ArgumentParser → ArgumentStream → Consumed
  create_processor p stream =
      if requires_value p
      then (if empty stream then thrown (missing_value (long_id p)) else elim (pop stream) [
        | err e ↦ thrown (invalid_value (long_id p))
        | ok (val, rest) ↦ elim (value_processor p val) [
          | none ↦ thrown (invalid_value (long_id p))
          | some effects ↦ consumed (record { id = long_id p; processor = effects }) rest
        ]
      ])
      else consumed (record { id = long_id p; processor = [] }) stream

  unfoldable pub consume : ArgumentParser → ArgumentStream → Result Consumed
  consume p stream = pop stream >>= λ r. ok (create_processor p r.1)

  -- The first parser that recognises the argument in front.
  unfoldable pub first_consumable :
      List ArgumentParser → ArgumentStream → Result (Option ArgumentParser)
  first_consumable [] stream = ok none
  first_consumable (p ∷ ps) stream =
      let rest = first_consumable ps stream in
      is_consumable p stream >>= λ found. if found then ok (some p) else rest
