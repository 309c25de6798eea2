-- ===== src/Market/Eligible.antt =====
-- The payable submissions that `_advance_bounty` of src/popperpad/core/market.py computes.
use popper_pad.Prelude.{
  ◌≡◌, refl, Bool, ◌&&◌, ◌||◌, any, keep, map, contains, List, [], ◌∷◌, String, arith, str_eq,
  Bool-cases, inl, inr, ap, ◌∙◌, some,
}
use popper_pad.Codec.{Crypto}
use popper_pad.Market.Types.{BountyPhase, BountyState, SubmissionState, MarketPolicy, is_verified}
use popper_pad.Market.Handlers.Advance.{
  le_key, insert_submission, sort_submissions, eligible, commit_payable, commit_expired,
}
use popper_pad.Market.Commands.{AdvanceBounty, MarketCommand, MarketEvidence, Commit, committed}
use popper_pad.Market.Commits.{accept-OnCommit, failure-OnCommit, apply-OnCommit}
use popper_pad.Market.Guards.Advance.{advance_bounty-OnCommit}
use popper_pad.Market.Apply.{dispatch, apply_market_command}

module _ (p : SubmissionState → Bool) where
  any-insert_submission :
      (s : SubmissionState) (ss : List SubmissionState)
      → any p (insert_submission s ss) ≡ (p s || any p ss)
  unfolding insert_submission
  any-insert_submission s [] = refl
  any-insert_submission s (t ∷ ts) = elim (Bool-cases (le_key s t)) [
    | inl below ↦ rw below refl
    | inr above ↦ rw above (ground (arith, any-insert_submission s ts))
  ]

  any-sort_submissions : (ss : List SubmissionState) → any p (sort_submissions ss) ≡ any p ss
  unfolding sort_submissions
  any-sort_submissions [] = refl
  any-sort_submissions (s ∷ ss) =
      ground (arith, any-insert_submission s (sort_submissions ss), any-sort_submissions ss)

-- A verified submission with this id.
abbrev pub is_eligible : String → SubmissionState → Bool
is_eligible id s = is_verified s.status && str_eq id s.submission_id

contains-keep :
    (ss : List SubmissionState) (id : String)
    → contains (map (λ s. s.submission_id) (keep (λ s. is_verified s.status) ss)) id
      ≡ any (is_eligible id) ss
contains-keep [] id = refl
contains-keep (s ∷ ss) id = elim (Bool-cases (is_verified s.status)) [
  | inl good ↦ rw good (ap (λ b. str_eq id s.submission_id || b) (contains-keep ss id))
  | inr other ↦ rw other (contains-keep ss id)
]

contains-eligible :
    (state : BountyState) (id : String)
    → contains (eligible state) id ≡ any (is_eligible id) state.submissions
unfolding eligible
contains-eligible state id =
    contains-keep (sort_submissions state.submissions) id
    ∙ any-sort_submissions (is_eligible id) state.submissions

-- When an advance makes a bounty payable, an id is among the payable ones exactly if a verified
-- submission of the state before has it.
pub advance-eligible :
    (crypto : Crypto) (state : BountyState) (command : AdvanceBounty) (policy : MarketPolicy)
    (evidence : MarketEvidence) (c : Commit)
    → committed
        (apply_market_command crypto state (MarketCommand.advance_bounty command) policy evidence)
      ≡ some c
    → c.next.phase ≡ BountyPhase.payable
    → (id : String)
    → contains c.next.payable_submission_ids id ≡ any (is_eligible id) state.submissions
unfolding dispatch commit_payable commit_expired
advance-eligible crypto state command policy evidence c e =
    (apply-OnCommit crypto
        {P = λ c.
          c.next.phase ≡ BountyPhase.payable
          → (id : String)
          → contains c.next.payable_submission_ids id ≡ any (is_eligible id) state.submissions}
        state (MarketCommand.advance_bounty command) policy evidence
        (λ a.
          advance_bounty-OnCommit crypto state command policy
            (λ checks left. accept-OnCommit _ _ _ (λ phase id. contains-eligible state id))
            (λ checks none_left. failure-OnCommit _ _ _ _ (λ phase id. cc phase)))).holds
      c e
