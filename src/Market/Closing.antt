-- ===== src/Market/Closing.antt =====
-- The loops of `_advance_bounty` and `_settle_bounty`: closing the open challenges one by one
-- closes each of them and nothing else; bonds that are released are zero.
use popper_pad.Prelude.{
  ℕ, ◌+◌, ◌≡◌, refl, ap, ◌∙◌, Bool, false, Bool-cases, inl, inr, List, [], ◌∷◌, map, keep, contains,
  String, str_eq, str_eq_refl, arith, if◌then◌else◌, or-false,
}
use mathlib.Core.Path.{ap₂}
use popper_pad.Market.Types.{SubmissionState, ChallengeState, is_open}
use popper_pad.Market.Lookup.{challenge_key, replace_by, replace_challenge}
use popper_pad.Market.Ids.{Distinct, total_of, replace_by-absent}
use popper_pad.Market.Handlers.Advance.{timed_out, close_challenges, release_bonds}

abbrev pub open_only : List ChallengeState → List ChallengeState
open_only = keep (λ c. is_open c.status)

-- A challenge after the loop of `_advance_bounty`.
abbrev pub close_one : ChallengeState → ChallengeState
close_one c = if is_open c.status then timed_out c else c

-- What the loop over the challenges `os` makes of the single challenge `c`.
close_by : List ChallengeState → ChallengeState → ChallengeState
close_by [] c = c
close_by (o ∷ os) c = close_by os (if str_eq c.challenge_id o.challenge_id then timed_out o else c)

close_challenges-cons :
    (os : List ChallengeState) (c : ChallengeState) (cs : List ChallengeState)
    → close_challenges os (c ∷ cs) ≡ close_by os c ∷ close_challenges os cs
unfolding close_challenges close_by replace_by
close_challenges-cons [] c cs = refl
close_challenges-cons (o ∷ os) c cs =
    close_challenges-cons os _ (replace_challenge cs (timed_out o))

close_challenges-nil : (os : List ChallengeState) → close_challenges os [] ≡ []
unfolding close_challenges replace_by
close_challenges-nil [] = refl
close_challenges-nil (o ∷ os) = close_challenges-nil os

close_by-absent :
    (os : List ChallengeState) (c : ChallengeState)
    → contains (map challenge_key os) c.challenge_id ≡ false
    → close_by os c ≡ c
unfolding close_by
close_by-absent [] c h = refl
close_by-absent (o ∷ os) c h =
    let (ne, rest) =
      or-false (str_eq c.challenge_id o.challenge_id)
        (contains (map challenge_key os) c.challenge_id) h in
    rw ne (close_by-absent os c rest)

-- Ids of the challenges that are kept are ids of the list.
contains-keep :
    (p : ChallengeState → Bool) (cs : List ChallengeState) (id : String)
    → contains (map challenge_key cs) id ≡ false
    → contains (map challenge_key (keep p cs)) id ≡ false
contains-keep p [] id h = refl
contains-keep p (c ∷ cs) id h =
    let (ne, rest) = or-false (str_eq id c.challenge_id) (contains (map challenge_key cs) id) h in
    ground (arith, contains-keep p cs id rest)

close_by_self :
    (os : List ChallengeState) (c : ChallengeState)
    → contains (map challenge_key os) c.challenge_id ≡ false
    → close_by (c ∷ os) c ≡ timed_out c
unfolding close_by
close_by_self os c absent = rw str_eq_refl (close_by-absent os (timed_out c) absent)

close_challenges-skip :
    (os cs : List ChallengeState) (c : ChallengeState)
    → contains (map challenge_key cs) c.challenge_id ≡ false
    → close_challenges (c ∷ os) cs ≡ close_challenges os cs
unfolding close_challenges
close_challenges-skip os cs c absent =
    ap (close_challenges os) (replace_by-absent challenge_key cs (timed_out c) absent)

-- With distinct ids the loop over the open challenges closes exactly those.
pub close_challenges-eq-map :
    (cs : List ChallengeState)
    → Distinct (map challenge_key cs)
    → close_challenges (open_only cs) cs ≡ map close_one cs
close_challenges-eq-map [] d = close_challenges-nil []
close_challenges-eq-map (c ∷ cs) d =
    let absent = contains-keep (λ c. is_open c.status) cs c.challenge_id d.0 in
    elim (Bool-cases (is_open c.status)) [
      | inl open_one ↦
          rw (open_one, close_challenges-cons)
            (ap₂ ◌∷◌ (close_by_self (open_only cs) c absent)
              (close_challenges-skip (open_only cs) cs c d.0 ∙ close_challenges-eq-map cs d.1))
      | inr closed_one ↦
          rw (closed_one, close_challenges-cons)
            (ap₂ ◌∷◌ (close_by-absent (open_only cs) c absent) (close_challenges-eq-map cs d.1))
    ]

abbrev pub deposit : ChallengeState → ℕ
deposit c = c.deposit_locked.atoms

abbrev pub bond : SubmissionState → ℕ
bond s = s.bond_locked.atoms

-- The deposits that closing takes out are those of the open challenges.
pub total_of-map-close_one :
    (cs : List ChallengeState)
    → total_of deposit (map close_one cs) + total_of deposit (open_only cs) ≡ total_of deposit cs
total_of-map-close_one [] = refl
total_of-map-close_one (c ∷ cs) = ground (arith, total_of-map-close_one cs)

pub total_of-release_bonds : (ss : List SubmissionState) → total_of bond (release_bonds ss) ≡ 0
unfolding release_bonds
total_of-release_bonds [] = refl
total_of-release_bonds (s ∷ ss) = ground (arith, total_of-release_bonds ss)

pub open_only-map-close_one : (cs : List ChallengeState) → open_only (map close_one cs) ≡ []
open_only-map-close_one [] = refl
open_only-map-close_one (c ∷ cs) = ground (arith, open_only-map-close_one cs)
