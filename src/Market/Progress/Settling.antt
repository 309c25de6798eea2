-- ===== src/Market/Progress/Settling.antt =====
-- Progress in src/popperpad/core/market.py: when a settlement of a bounty commits.
use popper_pad.Prelude.{
  ℕ, ◌+◌, ◌≡◌, refl, true, false, all, is_empty, is_nonempty, contains, none, some, List, [], ◌∷◌,
  String, arith, ℤ, pos, ltb_ℤ, Bool-cases, Option-cases, inl, inr, ◌∙◌, ap, subst, str_eq,
  str_eq_refl, eq→==, All, and-true,
}
use popper_pad.Codec.{Crypto}
use popper_pad.Market.Types.{
  BountyPhase, BountyState, SubmissionState, MarketPolicy, valid_id, is_payable_phase,
}
use popper_pad.Market.Commands.{
  Payout, SettleBounty, MarketCommand, MarketEvidence, Commit, committed, admitted, refuse_if, ◌>>◌,
  ◌>>=◌,
}
use popper_pad.Market.Lookup.{find_by, submission_key, submission}
use popper_pad.Market.Ids.{All-find_by}
use popper_pad.Market.Evidence.{validate_market_evidence, validate_command_evidence_binding}
use popper_pad.Market.Invariants.Relations.{market_state_violations, submission_by_id, check_phase}
use popper_pad.Market.Validity.{IsChecked, IsPayable, SubmissionOk}
use popper_pad.Market.Validity.Reflect.{violations-IsChecked}
use popper_pad.Market.Handlers.Settle.{
  eligible_submission, check_payouts, commit_settled, settle_bounty,
}
use popper_pad.Market.Apply.{validate_market_policy, dispatch, valid_fields, apply_market_command}
use popper_pad.Market.Progress.{apply-dispatch}

-- One payout of the whole escrow.
abbrev pub whole : BountyState → String → SubmissionState → Payout
whole state id s = record {
  recipient_ref = s.submitter_ref;
  submission_id = id;
  amount = state.escrow_locked;
}

-- The command that settles with this payout.
abbrev pub settle_whole :
    BountyState → String → String → ℤ → String → SubmissionState → SettleBounty
settle_whole state command_id settlement_ref now id s = record {
  command_id = command_id;
  settlement_ref = settlement_ref;
  payouts = whole state id s ∷ [];
  now_epoch_s = now;
}

submission_by_id-find_by :
    (ss : List SubmissionState) (id : String) (s : SubmissionState)
    → submission_by_id ss id ≡ some s
    → (t : SubmissionState) × (find_by submission_key ss id ≡ some t)
unfolding submission_by_id find_by
submission_by_id-find_by [] id s h = ground arith
submission_by_id-find_by (x ∷ xs) id s h = elim (Bool-cases (str_eq x.submission_id id)) [
  | inl same ↦ (x, rw same refl)
  | inr other ↦ elim (Option-cases (submission_by_id xs id)) [
    | inl nothing ↦ cc (rw (nothing, other, submission_by_id) at h)
    | inr (t, e) ↦ let (u, f) = submission_by_id-find_by xs id t e in (u, rw other f)
  ]
]

first_payable :
    (ss : List SubmissionState) (ids : List String)
    → is_empty ids ≡ false
    → all valid_id ids ≡ true
    → All (IsPayable ss) ids
    → (id : String) × (contains ids id ≡ true) × (valid_id id ≡ true) × IsPayable ss id
first_payable ss [] some_left valid h = cc some_left
first_payable ss (id ∷ ids) some_left valid h =
    (id, rw (str_eq_refl id) refl, (and-true _ _ valid).0, h.0)

some_payable :
    (state : BountyState)
    → check_phase BountyPhase.payable state ≡ []
    → is_empty state.payable_submission_ids ≡ false
unfolding check_phase
some_payable state h = ground arith

payable_head :
    (state : BountyState)
    → IsChecked state
    → state.phase ≡ BountyPhase.payable
    → (id : String) × (contains state.payable_submission_ids id ≡ true)
      × (valid_id id ≡ true)
      × IsPayable state.submissions id
payable_head state v phase =
    first_payable state.submissions state.payable_submission_ids
      (some_payable state (subst (λ p. check_phase p state ≡ []) phase v.phase)) v.payable_format
      v.payable

eligible_submission-some :
    (state : BountyState) (id : String) (s : SubmissionState)
    → contains state.payable_submission_ids id ≡ true
    → submission state id ≡ some s
    → eligible_submission state id ≡ some s
unfolding eligible_submission
eligible_submission-some state id s listed is_found = rw listed is_found

zero_plus : (n : ℕ) → 0 + n ≡ n
zero_plus n = omega arith

check_payouts-whole :
    (state : BountyState) (id : String) (s : SubmissionState)
    → contains state.payable_submission_ids id ≡ true
    → submission state id ≡ some s
    → check_payouts state [] 0 (whole state id s ∷ []) ≡ admitted state.escrow_locked.atoms
unfolding check_payouts
check_payouts-whole state id s listed is_found =
    rw
      (
        eligible_submission-some state id s listed is_found,
        check_payouts,
        str_eq_refl s.submitter_ref,
      )
      (ap admitted (zero_plus state.escrow_locked.atoms))

settle_bounty-whole :
    (crypto : Crypto) (state : BountyState) (command_id settlement_ref : String) (now : ℤ)
    (id : String) (s : SubmissionState)
    → is_nonempty settlement_ref ≡ true
    → state.phase ≡ BountyPhase.payable
    → contains state.payable_submission_ids id ≡ true
    → valid_id id ≡ true
    → submission state id ≡ some s
    → is_nonempty s.submitter_ref ≡ true
    → settle_bounty crypto state (settle_whole state command_id settlement_ref now id s)
      ≡ commit_settled crypto state (settle_whole state command_id settlement_ref now id s)
unfolding settle_bounty refuse_if ◌>>◌ ◌>>=◌
settle_bounty-whole crypto state command_id settlement_ref now id s given phase listed valid
      is_found named =
    let is_payable : is_payable_phase state.phase ≡ true = rw phase refl in
    rw
      (
        given,
        is_payable,
        valid,
        named,
        check_payouts-whole state id s listed is_found,
        eq→== state.escrow_locked.atoms state.escrow_locked.atoms refl,
      )
      refl

-- A settlement with these ids at this time can be committed, with payouts that exist.
abbrev pub CanSettle :
    Crypto → BountyState → MarketPolicy → MarketEvidence → String → String → ℤ → Type 0
CanSettle crypto state policy evidence command_id settlement_ref now =
    (ps : List Payout) × (c : Commit) × (committed (
        apply_market_command crypto state
          (MarketCommand.settle_bounty (record {
            command_id = command_id;
            settlement_ref = settlement_ref;
            payouts = ps;
            now_epoch_s = now;
          }))
          policy evidence)
      ≡ some c)
    × (c.next.phase ≡ BountyPhase.settled)

commit_settled-settled :
    (crypto : Crypto) (state : BountyState) (command : SettleBounty)
    → (c : Commit) × (committed (commit_settled crypto state command) ≡ some c)
      × (c.next.phase ≡ BountyPhase.settled)
unfolding commit_settled
commit_settled-settled crypto state command = (_, refl, refl)

-- A payable bounty without violations can be settled: under a valid policy and with valid evidence,
-- for every valid new command id, every settlement reference that is not empty and every time that is
-- not negative there are payouts with which a settlement commits.
pub payable-CanSettle :
    (crypto : Crypto) (state : BountyState) (policy : MarketPolicy) (evidence : MarketEvidence)
    (command_id settlement_ref : String) (now : ℤ)
    → market_state_violations state ≡ []
    → state.phase ≡ BountyPhase.payable
    → validate_market_policy policy ≡ none
    → validate_market_evidence crypto evidence ≡ none
    → valid_id command_id ≡ true
    → contains state.processed_command_ids command_id ≡ false
    → is_nonempty settlement_ref ≡ true
    → ltb_ℤ now (pos 0) ≡ false
    → CanSettle crypto state policy evidence command_id settlement_ref now
unfolding dispatch validate_command_evidence_binding valid_fields
payable-CanSettle crypto state policy evidence command_id settlement_ref now clean phase good fine
      id_ok new given time =
    let v = violations-IsChecked state clean in
    let (id, listed, valid, (s, is_listed, verified)) = payable_head state v phase in
    let (t, is_found) = submission_by_id-find_by state.submissions id s is_listed in
    let ok =
      All-find_by submission_key SubmissionOk state.submissions id {x = t} v.submissions is_found in
    let command = settle_whole state command_id settlement_ref now id t in
    let (c, e, done) = commit_settled-settled crypto state command in
    (
      command.payouts,
      c,
      ap committed (
            apply-dispatch crypto state (MarketCommand.settle_bounty command) policy evidence
              (record {
                state_valid = clean;
                policy_valid = good;
                id_valid = id_ok;
                time_valid = time;
                fields_valid = refl;
                evidence_valid = fine;
                bound = refl;
                is_new = new;
              }))
          ∙ (ap committed (
                settle_bounty-whole crypto state command_id settlement_ref now id t given phase
                  listed valid is_found ok.submitter)
              ∙ e),
      done,
    )
