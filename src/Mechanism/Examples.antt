-- ===== src/Mechanism/Examples.antt =====
-- The theorem on treasuries at one epoch.
use popper_pad.Prelude.{◌≡◌, refl, ◌↔◌, ◌≤◌, true, some}
use popper_pad.Values.{Amount, plus, minus}
use popper_pad.Mechanism.{TreasuryEpoch, treasury_solvent, treasury_margin, treasury_solvent-covers}

abbrev epoch : TreasuryEpoch
epoch = record {
  name = "q1";
  starting_balance = record { atoms = 100 };
  inflows = record { atoms = 50 };
  committed_outflows = record { atoms = 60 };
  reserve_requirement = record { atoms = 90 };
}

epoch-solvent : treasury_solvent epoch ≡ true
unfolding treasury_solvent treasury_margin
epoch-solvent = refl

treasury_solvent-covers_example : (treasury_solvent epoch ≡ true) ↔ (
    (b : Amount) × (minus (plus epoch.starting_balance epoch.inflows) epoch.committed_outflows
      ≡ some b)
    × (90 ≤ b.atoms))
treasury_solvent-covers_example = treasury_solvent-covers epoch
