-- ===== src/Market/Settlement.antt =====
-- The payouts of `_settle_bounty` of src/popperpad/core/market.py.
use popper_pad.Prelude.{
  ℕ, ◌+◌, ◌≡◌, refl, true, false, some, Option-cases, inl, inr, List, [], ◌∷◌, String, contains,
  map, All, arith, str_eq-eq, str_eq_iff,
}
use popper_pad.Codec.{Crypto}
use popper_pad.Market.Types.{BountyState, SubmissionState, MarketPolicy}
use popper_pad.Market.Commands.{
  Payout, SettleBounty, MarketCommand, MarketEvidence, Commit, committed, admitted,
}
use popper_pad.Market.Lookup.{submission}
use popper_pad.Market.Ids.{Distinct, total_of}
use popper_pad.Market.Handlers.Settle.{
  eligible_submission, check_payouts, payout_effects, commit_settled,
}
use popper_pad.Market.Commits.{accept-OnCommit, apply-OnCommit}
use popper_pad.Market.Guards.Settle.{settle_bounty-OnCommit}
use popper_pad.Market.Conservation.{outflow, outflow-payout_effects}
use popper_pad.Market.Apply.{dispatch, apply_market_command}

-- The payout goes to the submitter of a payable submission.
pub record IsDue (state : BountyState) (p : Payout) : Type 0 where
  pub payable : contains state.payable_submission_ids p.submission_id ≡ true
  pub subject : SubmissionState
  pub is_found : submission state p.submission_id ≡ some subject
  pub recipient : p.recipient_ref ≡ subject.submitter_ref

abbrev pub payout_ids : List Payout → List String
payout_ids ps = map (λ p. p.submission_id) ps

abbrev pub amounts : Payout → ℕ
amounts p = p.amount.atoms

-- The payouts of a settlement share the escrow out.
pub record IsShare (state : BountyState) (ps : List Payout) : Type 0 where
  pub exact : total_of amounts ps ≡ state.escrow_locked.atoms
  pub due : All (IsDue state) ps
  pub distinct : Distinct (payout_ids ps)

eligible_submission-found :
    (state : BountyState) (id : String) (s : SubmissionState)
    → eligible_submission state id ≡ some s
    → (contains state.payable_submission_ids id ≡ true) × (submission state id ≡ some s)
unfolding eligible_submission
eligible_submission-found state id s h = ground arith

outflow-amounts : (ps : List Payout) → outflow (payout_effects ps) ≡ total_of amounts ps
unfolding payout_effects
outflow-amounts [] = refl
outflow-amounts (p ∷ ps) = omega (arith, outflow-amounts ps)

-- What the first round of the loop has checked, with what the other rounds give.
check_payouts-head :
    (state : BountyState) (seen : List String) (start : ℕ) (p : Payout) (ps : List Payout)
    {total : ℕ}
    → check_payouts state seen start (p ∷ ps) ≡ admitted total
    → (s : SubmissionState) × (eligible_submission state p.submission_id ≡ some s)
      × (contains seen p.submission_id ≡ false)
      × (p.recipient_ref ≡ s.submitter_ref)
      × (check_payouts state (p.submission_id ∷ seen) (start + p.amount.atoms) ps ≡ admitted total)
unfolding check_payouts
check_payouts-head state seen start p ps {total} h =
    elim (Option-cases (eligible_submission state p.submission_id)) [
      | inl nothing ↦ cc (rw (nothing, check_payouts) at h)
      | inr (s, e) ↦
          let k = rw (e, check_payouts) at h in
          (
            s,
            e,
            ground (arith, k),
            ground (arith, k, str_eq-eq p.recipient_ref s.submitter_ref),
            ground (arith, k),
          )
    ]

module _ (state : BountyState) where
  check_payouts-IsDue :
      (seen : List String) (start : ℕ) (ps : List Payout) {total : ℕ}
      → check_payouts state seen start ps ≡ admitted total
      → All (IsDue state) ps
  check_payouts-IsDue seen start [] h = tt
  check_payouts-IsDue seen start (p ∷ ps) {total} h =
      let (s, e, new, to, rest) = check_payouts-head state seen start p ps {total = total} h in
      let (payable, is_found) = eligible_submission-found state p.submission_id s e in
      (
        record { payable = payable; subject = s; is_found = is_found; recipient = to },
        check_payouts-IsDue (p.submission_id ∷ seen) (start + p.amount.atoms) ps {total = total}
            rest,
      )

  check_payouts-unseen :
      (seen : List String) (start : ℕ) (ps : List Payout) (id : String) {total : ℕ}
      → check_payouts state seen start ps ≡ admitted total
      → contains seen id ≡ true
      → contains (payout_ids ps) id ≡ false
  check_payouts-unseen seen start [] id h old = refl
  check_payouts-unseen seen start (p ∷ ps) id {total} h old =
      let (s, e, new, to, rest) = check_payouts-head state seen start p ps {total = total} h in
      let kept : contains (p.submission_id ∷ seen) id ≡ true = ground (arith, old) in
      let later =
        check_payouts-unseen (p.submission_id ∷ seen) (start + p.amount.atoms) ps id {total = total}
          rest kept in
      ground (arith, later, new, old, str_eq_iff id p.submission_id, str_eq_iff p.submission_id id)

  check_payouts-Distinct :
      (seen : List String) (start : ℕ) (ps : List Payout) {total : ℕ}
      → check_payouts state seen start ps ≡ admitted total
      → Distinct (payout_ids ps)
  check_payouts-Distinct seen start [] h = tt
  check_payouts-Distinct seen start (p ∷ ps) {total} h =
      let (s, e, new, to, rest) = check_payouts-head state seen start p ps {total = total} h in
      let itself : contains (p.submission_id ∷ seen) p.submission_id ≡ true =
        ground (arith, str_eq_iff p.submission_id p.submission_id) in
      (
        check_payouts-unseen (p.submission_id ∷ seen) (start + p.amount.atoms) ps p.submission_id
            {total = total} rest itself,
        check_payouts-Distinct (p.submission_id ∷ seen) (start + p.amount.atoms) ps {total = total}
            rest,
      )

-- A settlement commits only payouts that add up to the escrow, whose submissions are all payable
-- and different from each other, and each of which goes to the submitter of its submission.
pub settlement-IsShare :
    (crypto : Crypto) (state : BountyState) (command : SettleBounty) (policy : MarketPolicy)
    (evidence : MarketEvidence) (c : Commit)
    → committed
        (apply_market_command crypto state (MarketCommand.settle_bounty command) policy evidence)
      ≡ some c
    → IsShare state command.payouts
unfolding dispatch commit_settled
settlement-IsShare crypto state command policy evidence c e =
    (apply-OnCommit crypto {P = λ c. IsShare state command.payouts} state
        (MarketCommand.settle_bounty command) policy evidence
        λ a. settle_bounty-OnCommit crypto state command λ checks. accept-OnCommit _ _ _ (record {
          exact = omega (
            arith,
            outflow-payout_effects state [] 0 command.payouts checks.total,
            outflow-amounts command.payouts,
          );
          due = check_payouts-IsDue state [] 0 command.payouts checks.total;
          distinct = check_payouts-Distinct state [] 0 command.payouts checks.total;
        })).holds
      c e
