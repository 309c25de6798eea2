-- ===== src/Mechanism.antt =====
-- src/popperpad/core/mechanism.py: margins and conditions of the economy, in exact amounts.
mod Examples
use popper_pad.Prelude.{
  ℕ, ◌+◌, ◌≡◌, refl, ◌↔◌, ◌≤◌, ◌<◌, Bool, true, false, not, ◌&&◌, ◌||◌, ltb, leb, ℤ, pos, negsuc,
  sub_ℕ, leb_ℤ, String, arith, ap, some, Bool-cases, inl, inr, ltb-false, ◌-◌,
}
use popper_pad.Values.{Amount, plus, minus}
use mathlib.Core.Option.{some-injective}

pub record TreasuryEpoch : Type 0 where
  pub name : String
  pub starting_balance : Amount
  pub inflows : Amount
  pub committed_outflows : Amount
  pub reserve_requirement : Amount

pub record ResourceBudget : Type 0 where
  pub budget_id : String
  pub funded : Amount
  pub compute : Amount
  pub storage : Amount
  pub api : Amount
  pub verifier : Amount
  pub retrieval : Amount

pub record EarnPath : Type 0 where
  pub name : String
  pub earned_credits : Amount
  pub minimum_agent_run_cost : Amount

pub record CertificateCase : Type 0 where
  pub name : String
  pub payment_offered : Amount
  pub verifier_accepted : Bool
  pub certificate_available : Bool
  pub challenge_failed : Bool

pub record TruthBoundaryInputs : Type 0 where
  pub stake_changed : Bool
  pub verifier_result_changed : Bool
  pub local_status_inputs_changed : Bool
  pub status_changed : Bool

-- An integer less a number of atoms.
abbrev pub less : ℤ → ℕ → ℤ
less (pos m) n = sub_ℕ m n
less (negsuc m) n = negsuc (m + n)

unfoldable pub treasury_margin : TreasuryEpoch → ℤ
treasury_margin e =
    less (less (pos (e.starting_balance.atoms + e.inflows.atoms)) e.committed_outflows.atoms)
      e.reserve_requirement.atoms

unfoldable pub treasury_solvent : TreasuryEpoch → Bool
treasury_solvent e = leb_ℤ (pos 0) (treasury_margin e)

unfoldable pub resource_cost : ResourceBudget → Amount
resource_cost b = record {
  atoms = b.compute.atoms + b.storage.atoms + b.api.atoms + b.verifier.atoms + b.retrieval.atoms;
}

unfoldable pub resource_budget_covered : ResourceBudget → Bool
resource_budget_covered b = leb (resource_cost b).atoms b.funded.atoms

unfoldable pub earn_margin : EarnPath → ℤ
earn_margin p = less (pos p.earned_credits.atoms) p.minimum_agent_run_cost.atoms

unfoldable pub certificate_payable : CertificateCase → Bool
certificate_payable c =
    ltb 0 c.payment_offered.atoms
    && (c.verifier_accepted && (c.certificate_available && not c.challenge_failed))

unfoldable pub truth_boundary_holds : TruthBoundaryInputs → Bool
truth_boundary_holds t =
    not t.status_changed || (t.verifier_result_changed || t.local_status_inputs_changed)

less-less : (a b c : ℕ) → (leb_ℤ (pos 0) (less (less (pos a) b) c) ≡ true) ↔ (b + c ≤ a)
less-less a b c = elim (Bool-cases (leb b a)) [
  | inl fits ↦ rw fits (λ h. ground (arith, fits), λ h. ground (arith, fits))
  | inr short ↦ rw short (λ h. ground (arith, short), λ h. ground (arith, short))
]

covered :
    (e : TreasuryEpoch)
    → e.committed_outflows.atoms + e.reserve_requirement.atoms
      ≤ e.starting_balance.atoms + e.inflows.atoms
    → (b : Amount) × (minus (plus e.starting_balance e.inflows) e.committed_outflows ≡ some b)
      × (e.reserve_requirement.atoms ≤ b.atoms)
unfolding minus plus
covered e h =
    let s = e.starting_balance.atoms + e.inflows.atoms in
    let fits : ltb s e.committed_outflows.atoms ≡ false = ground (arith, h) in
    (record { atoms = s - e.committed_outflows.atoms }, rw fits refl, omega (arith, h))

uncovered :
    (e : TreasuryEpoch)
    → (b : Amount) × (minus (plus e.starting_balance e.inflows) e.committed_outflows ≡ some b)
      × (e.reserve_requirement.atoms ≤ b.atoms)
    → e.committed_outflows.atoms + e.reserve_requirement.atoms
      ≤ e.starting_balance.atoms + e.inflows.atoms
unfolding minus plus
uncovered e (b, made, enough) =
    let s = e.starting_balance.atoms + e.inflows.atoms in
    elim (Bool-cases (ltb s e.committed_outflows.atoms)) [
      | inl short ↦ cc (rw short at made)
      | inr fits ↦
          let left = ap (λ x. x.atoms) (some-injective _ _ (rw fits at made)) in
          let below = ltb-false s e.committed_outflows.atoms fits in
          omega (arith, left, below, enough)
    ]

-- A treasury is solvent exactly if the balance that is left after its committed outflows is an amount,
-- so that `Amount.minus` raises nothing, and covers the reserve.
pub treasury_solvent-covers :
    (e : TreasuryEpoch)
    → (treasury_solvent e ≡ true) ↔ (
        (b : Amount) × (minus (plus e.starting_balance e.inflows) e.committed_outflows ≡ some b)
        × (e.reserve_requirement.atoms ≤ b.atoms))
unfolding treasury_solvent treasury_margin minus plus
treasury_solvent-covers e = (
  λ h. covered e ((less-less _ _ e.reserve_requirement.atoms).0 h),
  λ h. (less-less _ _ e.reserve_requirement.atoms).1 (uncovered e h),
)
