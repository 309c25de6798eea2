-- ===== src/Market/Lifecycle/Runs.antt =====
-- Runs of commands through `apply_market_command` of src/popperpad/core/market.py: what holds of
-- a bounty over any number of commands.
use popper_pad.Prelude.{
  ◌+◌, ◌≡◌, refl, Bool, true, false, none, some, Option-cases, inl, inr, List, String, contains,
  arith, ◌||◌, str_eq_iff, str_eq_refl,
}
use popper_pad.Codec.{Crypto}
use popper_pad.Market.Types.{BountyPhase, BountyState, MarketPolicy}
use popper_pad.Market.Commands.{
  MarketCommand, command_id, MarketEvidence, MarketEffect, MarketDecision, Commit, committed,
}
use popper_pad.Market.Ids.{Distinct, contains-set_add}
use popper_pad.Market.Invariants.Relations.{is_terminal}
use popper_pad.Market.Commits.{apply-OnCommit}
use popper_pad.Market.Apply.{apply_market_command}
use popper_pad.Market.Lifecycle.{Move, Run}
use popper_pad.Market.Lifecycle.Steps.{apply-IsStep}
use popper_pad.Market.Conservation.{locked, inflow, outflow, inflow-append, outflow-append}
use popper_pad.Market.Conservation.Handlers.{apply-Balanced}

or_true : (b : Bool) → (b || true) ≡ true
or_true true = refl
or_true false = refl

-- No commit, no next state.
no_commit : (d : MarketDecision) → ((c : Commit) → committed d ≡ some c → ⊥) → committed d ≡ none
no_commit d k = elim (Option-cases (committed d)) [
  | inl nothing ↦ nothing
  | inr (c, e) ↦ elim (k c e) [ ]
]

Move-terminal :
    {command : MarketCommand} {p q : BountyPhase} → Move command p q → is_terminal p ≡ true → ⊥
Move-terminal (Move.opens c) h = cc h
Move-terminal (Move.submits c) h = cc h
Move-terminal (Move.verifies c) h = cc h
Move-terminal (Move.challenges c) h = cc h
Move-terminal (Move.resolves c) h = cc h
Move-terminal (Move.pays c) h = cc h
Move-terminal (Move.expires c) h = cc h
Move-terminal (Move.settles c) h = cc h
Move-terminal (Move.cancels c) h = cc h

module _ (crypto : Crypto) where
  -- A settled, expired or canceled bounty is final: no command commits anything to it.
  pub terminal-committed :
      (state : BountyState) (command : MarketCommand) (policy : MarketPolicy)
      (evidence : MarketEvidence)
      → is_terminal state.phase ≡ true
      → committed (apply_market_command crypto state command policy evidence) ≡ none
  terminal-committed state command policy evidence terminal =
      no_commit _
        λ c e. Move-terminal (apply-IsStep crypto state command policy evidence c e).move terminal

  -- The id of a command that commits is new.
  apply-is_new :
      (state : BountyState) (command : MarketCommand) (policy : MarketPolicy)
      (evidence : MarketEvidence) (c : Commit)
      → committed (apply_market_command crypto state command policy evidence) ≡ some c
      → contains state.processed_command_ids (command_id command) ≡ false
  apply-is_new state command policy evidence c e =
      (apply-OnCommit crypto
          {P = λ c. contains state.processed_command_ids (command_id command) ≡ false} state command
          policy evidence (λ a. record { holds = λ c e. a.is_new })).holds
        c e

  -- A command whose id was processed commits nothing, whatever else it says.
  pub replay-committed :
      (state : BountyState) (command : MarketCommand) (policy : MarketPolicy)
      (evidence : MarketEvidence)
      → contains state.processed_command_ids (command_id command) ≡ true
      → committed (apply_market_command crypto state command policy evidence) ≡ none
  replay-committed state command policy evidence old =
      no_commit _ λ c e. cc (old, apply-is_new state command policy evidence c e)

  -- Over a run, what was locked and what came in is what is locked and what went out.
  pub Run-Balanced :
      {s t : BountyState} {ids : List String} {es : List MarketEffect}
      → Run crypto s ids es t
      → locked s + inflow es ≡ locked t + outflow es
  Run-Balanced Run.idle = refl
  Run-Balanced (Run.refused command policy evidence none_made run) = Run-Balanced run
  Run-Balanced (Run.commits {es = es} command policy evidence c e run) = omega (
    arith,
    Run-Balanced run,
    apply-Balanced crypto _ command policy evidence c e,
    inflow-append c.effects es,
    outflow-append c.effects es,
  )

  -- An id that was processed before a run is not among the ids that the run commits.
  Run-processed :
      {s t : BountyState} {ids : List String} {es : List MarketEffect}
      → Run crypto s ids es t
      → (id : String) → contains s.processed_command_ids id ≡ true
      → contains ids id ≡ false
  Run-processed Run.idle id old = refl
  Run-processed (Run.refused command policy evidence none_made run) id old =
      Run-processed run id old
  Run-processed {s = s} (Run.commits {ids = ids} command policy evidence c e run) id old =
      let step = apply-IsStep crypto _ command policy evidence c e in
      let kept : contains c.next.processed_command_ids id ≡ true =
        rw (step.id_recorded, contains-set_add s.processed_command_ids (command_id command) id, old)
          refl in
      let fresh = apply-is_new s command policy evidence c e in
      ground (
        arith,
        Run-processed run id kept,
        str_eq_iff (command_id command) id,
        str_eq_iff id (command_id command),
        old,
        fresh,
      )

  -- Every command id is committed at most once in a run.
  pub Run-Distinct :
      {s t : BountyState} {ids : List String} {es : List MarketEffect}
      → Run crypto s ids es t
      → Distinct ids
  Run-Distinct Run.idle = tt
  Run-Distinct (Run.refused command policy evidence none_made run) = Run-Distinct run
  Run-Distinct {s = s} (Run.commits {ids = ids} command policy evidence c e run) = (
    Run-processed run (command_id command) (
        rw
          (
            (apply-IsStep crypto _ command policy evidence c e).id_recorded,
            contains-set_add s.processed_command_ids (command_id command) (command_id command),
            str_eq_refl (command_id command),
          )
          (or_true _)),
    Run-Distinct run,
  )
