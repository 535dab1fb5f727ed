-- ===== src/CommandLine/Acquisition.antt =====
-- `acquire` of src/command_line_interface.cpp: the loop over the arguments.
use opera.Prelude.{
  ℕ, zero, suc, List, [], ◌∷◌, ◌++◌, Bool, true, false, not, ◌&&◌, ◌||◌, if◌then◌else◌, none, some,
  Result, ok, err, out_of_fuel, ◌>>=◌, length,
}
use opera.Prelude.Texts.{Text, text_eq, text_lt}
use opera.CommandLine.{
  ArgumentStream, ArgumentPack, missing_value, invalid_value, Consumed, consumed, thrown, Effect,
  Conversions, construct, empty, peek, pop,
}
use opera.CommandLine.Parsers.{help, scheduler, parsers, long_id, consume, first_consumable}

-- What is written to the standard log.
pub data Message : Type 0 where
  specified_multiple_times value_required value_invalid unrecognised : Text → Message
  supported_arguments : Message

pub record Outcome : Type 0 where
  pub accepted : Bool
  pub effects : List Effect
  pub messages : List Message

-- std::set<ArgumentPack>, ordered by the identifiers.
unfoldable pub pack_lt : ArgumentPack → ArgumentPack → Bool
pack_lt p other = text_lt p.id other.id

unfoldable pub contains : List ArgumentPack → ArgumentPack → Bool
contains [] p = false
contains (q ∷ qs) p = (not (pack_lt p q) && not (pack_lt q p)) || contains qs p

unfoldable pub insert : List ArgumentPack → ArgumentPack → List ArgumentPack
insert [] p = p ∷ []
insert (q ∷ qs) p =
    if pack_lt p q then p ∷ q ∷ qs else if pack_lt q p then q ∷ insert qs p else q ∷ qs

-- `for (auto p : packs) p.process();`
unfoldable pub process_all : List ArgumentPack → List Effect
process_all [] = []
process_all (p ∷ ps) = p.processor ++ process_all ps

-- `return false`, with what was done and is said.
unfoldable pub refuse : List Effect → List Message → Outcome
refuse done messages = record { accepted = false; effects = done; messages = messages }

-- How a round of the loop ends.
pub data Round : Type 0 where
  returns : Outcome → Round
  goes_on : ArgumentStream → List ArgumentPack → List Effect → Round

-- The body of the `try` and its handlers.
unfoldable pub after_consume : List ArgumentPack → List Effect → Consumed → Round
after_consume packs done (thrown (missing_value id)) =
    returns (refuse done (value_required id ∷ []))
after_consume packs done (thrown (invalid_value id)) = returns (refuse done (value_invalid id ∷ []))
after_consume packs done (consumed p stream) =
    if contains packs p
    then returns (refuse done (specified_multiple_times p.id ∷ []))
    else if text_eq p.id (long_id help)
    then returns (refuse (done ++ p.processor) (supported_arguments ∷ []))
    else if text_eq p.id (long_id scheduler)
    then goes_on stream packs (done ++ p.processor)
    else goes_on stream (insert packs p) done

module _ ⦃c : Conversions⦄ where
  unfoldable pub round : ArgumentStream → List ArgumentPack → List Effect → Result Round
  round stream packs done = first_consumable parsers stream >>= λ found. elim found [
    | none ↦ peek stream >>= λ arg.
        ok (returns (refuse done (unrecognised arg ∷ supported_arguments ∷ [])))
    | some p ↦ consume p stream >>= λ r. ok (after_consume packs done r)
  ]

  -- The while loop, with the rounds left, and the processing of the packs.
  unfoldable pub acquire_loop :
      ℕ → ArgumentStream → List ArgumentPack → List Effect → Result Outcome
  acquire_loop zero stream packs done = err out_of_fuel
  acquire_loop (suc fuel) stream packs done = elim (empty stream) [
    | true ↦ ok (record { accepted = true; effects = done ++ process_all packs; messages = [] })
    | false ↦ round stream packs done >>= λ r. elim r [
      | returns outcome ↦ ok outcome
      | goes_on stream' packs' done' ↦ acquire_loop fuel stream' packs' done'
    ]
  ]

  unfoldable pub acquire : List Text → Result Outcome
  acquire args = do
    stream ← construct args
    r ← pop stream
    acquire_loop (suc (length args)) r.1 [] []
