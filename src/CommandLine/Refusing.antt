-- ===== src/CommandLine/Refusing.antt =====
-- `acquire` (src/command_line_interface.cpp) returns, and what it has done when it refuses.
use opera.Prelude.{
  ℕ, zero, suc, ◌≤◌, ◌<◌, ◌≡◌, refl, ◌⊎◌, inl, inr, subst, List, [], ◌∷◌, ◌++◌, Bool, true, false,
  Bool-cases, Option, none, some, ok, arith, length, Option-cases, if◌then◌else◌,
}
use opera.Prelude.Texts.{Text, bytes, text_eq}
use opera.CommandLine.{
  ArgumentStream, ArgumentPack, Consumed, consumed, thrown, missing_value, invalid_value, Effect,
  use_scheduler, immediate, blocking, nonblocking, set_theme, set_verbosity, Conversions, construct,
  empty, peek, pop,
}
use opera.CommandLine.Parsers.{
  ArgumentParser, help, scheduler, theme, verbosity, parsers, long_id, has_short_id, requires_value,
  short_argument, long_argument, is_consumable, value_processor, create_processor, consume,
  first_consumable,
}
use opera.CommandLine.Acquisition.{
  Message, unrecognised, supported_arguments, Outcome, Round, returns, goes_on, contains, refuse,
  after_consume, round, acquire_loop, acquire,
}

-- The effects are calls that choose the scheduler.
pub OnlyScheduler : List Effect → Type 0
OnlyScheduler [] = Unit
OnlyScheduler (use_scheduler s ∷ es) = OnlyScheduler es
OnlyScheduler (set_theme t ∷ es) = ⊥
OnlyScheduler (set_verbosity n ∷ es) = ⊥

append-OnlyScheduler :
    (xs ys : List Effect) → OnlyScheduler xs → OnlyScheduler ys → OnlyScheduler (xs ++ ys)
unfolding OnlyScheduler
append-OnlyScheduler [] ys h k = k
append-OnlyScheduler (use_scheduler s ∷ xs) ys h k = append-OnlyScheduler xs ys h k
append-OnlyScheduler (set_theme t ∷ xs) ys h k = elim h [ ]
append-OnlyScheduler (set_verbosity n ∷ xs) ys h k = elim h [ ]

-- It refuses having chosen a scheduler at most, and an acceptance says nothing.
pub FairOutcome : Outcome → Type 0
FairOutcome o =
    (o.accepted ≡ true) × (o.messages ≡ []) ⊎ (o.accepted ≡ false) × OnlyScheduler o.effects

FairConsumed : ℕ → Consumed → Type 0
FairConsumed n (thrown e) = Unit
FairConsumed n (consumed p stream) =
    (length stream ≤ n)
    × (text_eq p.id (long_id help) ≡ true → OnlyScheduler p.processor)
    × (text_eq p.id (long_id scheduler) ≡ true → OnlyScheduler p.processor)

FairRound : ℕ → Round → Type 0
FairRound n (returns o) = FairOutcome o
FairRound n (goes_on stream packs done) = (length stream ≤ n) × OnlyScheduler done

-- What a value may ask of the logger.
FairValue : Option (List Effect) → Type 0
FairValue none = Unit
FairValue (some es) = OnlyScheduler es

scheduler_choice-Fair :
    (a b c : Bool)
    → FairValue (
        if a
        then some (use_scheduler immediate ∷ [])
        else if b
        then some (use_scheduler blocking ∷ [])
        else if c
        then some (use_scheduler nonblocking ∷ [])
        else none)
unfolding FairValue OnlyScheduler
scheduler_choice-Fair true b c = tt
scheduler_choice-Fair false true c = tt
scheduler_choice-Fair false false true = tt
scheduler_choice-Fair false false false = tt

refuse-Fair :
    (done : List Effect) (ms : List Message) → OnlyScheduler done → FairOutcome (refuse done ms)
unfolding FairOutcome refuse
refuse-Fair done ms h = inr (refl, h)

after_consume-Fair :
    (n : ℕ) (packs : List ArgumentPack) (done : List Effect) (r : Consumed)
    → FairConsumed n r
    → OnlyScheduler done
    → FairRound n (after_consume packs done r)
unfolding FairConsumed FairRound after_consume
after_consume-Fair n packs done (thrown (missing_value id)) h only = refuse-Fair done _ only
after_consume-Fair n packs done (thrown (invalid_value id)) h only = refuse-Fair done _ only
after_consume-Fair n packs done (consumed p stream) h only = elim (Bool-cases (contains packs p)) [
  | inl e ↦ rw e (refuse-Fair done _ only)
  | inr e ↦ elim (Bool-cases (text_eq p.id (long_id help))) [
    | inl e' ↦
        rw (e, e')
          (refuse-Fair (done ++ p.processor) _
            (append-OnlyScheduler done p.processor only (h.1 e')))
    | inr e' ↦ elim (Bool-cases (text_eq p.id (long_id scheduler))) [
      | inl e'' ↦ rw (e, e', e'') (h.0, append-OnlyScheduler done p.processor only (h.2 e''))
      | inr e'' ↦ rw (e, e', e'') (h.0, only)
    ]
  ]
]

Round-cases :
    (n : ℕ) (r : Round)
    → FairRound n r
    → ((o : Outcome) × (r ≡ returns o) × FairOutcome o)
      ⊎ ((stream : ArgumentStream) × (packs : List ArgumentPack) × (done : List Effect) × (r
            ≡ goes_on stream packs done)
          × (length stream ≤ n)
          × OnlyScheduler done)
unfolding FairRound
Round-cases n (returns o) h = inl (o, refl, h)
Round-cases n (goes_on stream packs done) h = inr (stream, packs, done, refl, h.0, h.1)

different : {A : Type 0} → false ≡ true → A
different h = cc

module _ ⦃c : Conversions⦄ where
  scheduler-Fair :
      (v : Text) (es : List Effect) → value_processor scheduler v ≡ some es → OnlyScheduler es
  unfolding value_processor FairValue
  scheduler-Fair v es h = subst FairValue h (
      scheduler_choice-Fair (text_eq v (bytes "immediate")) (text_eq v (bytes "blocking"))
        (text_eq v (bytes "nonblocking")))

  create_processor-Fair :
      (p : ArgumentParser) (stream : ArgumentStream)
      → FairConsumed (length stream) (create_processor p stream)
  unfolding create_processor requires_value long_id text_eq FairConsumed OnlyScheduler empty pop
      peek
  create_processor-Fair help stream = (omega arith, λ h. tt, λ h. tt)
  create_processor-Fair scheduler [] = tt
  create_processor-Fair theme [] = tt
  create_processor-Fair verbosity [] = tt
  create_processor-Fair scheduler (v ∷ rest) = elim (Option-cases (value_processor scheduler v)) [
    | inl e ↦ rw e tt
    | inr (es, e) ↦ rw e (omega arith, λ h. scheduler-Fair v es e, λ h. scheduler-Fair v es e)
  ]
  create_processor-Fair theme (v ∷ rest) = elim (Option-cases (value_processor theme v)) [
    | inl e ↦ rw e tt
    | inr (es, e) ↦ rw e (omega arith, λ h. different h, λ h. different h)
  ]
  create_processor-Fair verbosity (v ∷ rest) = elim (Option-cases (value_processor verbosity v)) [
    | inl e ↦ rw e tt
    | inr (es, e) ↦ rw e (omega arith, λ h. different h, λ h. different h)
  ]

  first_consumable-ok :
      (ps : List ArgumentParser) (a : Text) (xs : ArgumentStream)
      → (found : Option ArgumentParser) × (first_consumable ps (a ∷ xs) ≡ ok found)
  unfolding first_consumable is_consumable peek empty
  first_consumable-ok [] a xs = (none, refl)
  first_consumable-ok (p ∷ ps) a xs =
      let (found, e) = first_consumable-ok ps a xs in
      elim (Bool-cases (has_short_id p)) [
        | inl h ↦ elim (Bool-cases (text_eq a (short_argument p))) [
          | inl k ↦ (some p, rw (h, k))
          | inr k ↦ elim (Bool-cases (text_eq a (long_argument p))) [
            | inl l ↦ (some p, rw (h, k, l))
            | inr l ↦ (found, rw (h, k, l, e))
          ]
        ]
        | inr h ↦ elim (Bool-cases (text_eq a (long_argument p))) [
          | inl l ↦ (some p, rw (h, l))
          | inr l ↦ (found, rw (h, l, e))
        ]
      ]

  round-Fair :
      (a : Text) (xs : ArgumentStream) (packs : List ArgumentPack) (done : List Effect)
      → OnlyScheduler done
      → (r : Round) × (round (a ∷ xs) packs done ≡ ok r) × FairRound (length xs) r
  unfolding round consume pop peek empty FairRound
  round-Fair a xs packs done only =
      let (found, e) = first_consumable-ok parsers a xs in
      elim (Option-cases found) [
        | inl k ↦ (
          returns (refuse done _),
          rw (e, k),
          refuse-Fair done (unrecognised a ∷ supported_arguments ∷ []) only,
        )
        | inr (p, k) ↦ (
          after_consume packs done (create_processor p xs),
          rw (e, k),
          after_consume-Fair (length xs) packs done (create_processor p xs)
              (create_processor-Fair p xs) only,
        )
      ]

  acquire_loop-Fair :
      (fuel : ℕ) (stream : ArgumentStream) (packs : List ArgumentPack) (done : List Effect)
      → length stream < fuel
      → OnlyScheduler done
      → (o : Outcome) × (acquire_loop fuel stream packs done ≡ ok o) × FairOutcome o
  unfolding acquire_loop empty FairOutcome
  acquire_loop-Fair zero stream packs done enough only = absurd (omega (arith, enough))
  acquire_loop-Fair (suc fuel) [] packs done enough only = (_, refl, inl (refl, refl))
  acquire_loop-Fair (suc fuel) (a ∷ xs) packs done enough only =
      let (r, e, fair) = round-Fair a xs packs done only in
      elim (Round-cases (length xs) r fair) [
        | inl (o, k, h) ↦ (o, rw (e, k), h)
        | inr (stream, packs', done', k, short, only') ↦
            let (o, returned, h) =
              acquire_loop-Fair fuel stream packs' done' (omega (arith, short, enough)) only' in
            (o, rw (e, k, returned), h)
      ]

  -- `acquire` returns on any arguments that hold at least the name of the program: it accepts them
  -- and says nothing, or it refuses them, and then has chosen a scheduler at most, without any theme
  -- or verbosity being set.
  pub acquire-returns :
      (name : Text) (args : List Text)
      → (o : Outcome) × (acquire (name ∷ args) ≡ ok o)
        × ((o.accepted ≡ true) × (o.messages ≡ []) ⊎ (o.accepted ≡ false) × OnlyScheduler o.effects)
  unfolding acquire construct pop peek empty FairOutcome OnlyScheduler
  acquire-returns name args =
      acquire_loop-Fair (suc (suc (length args))) args [] [] (omega arith) tt
