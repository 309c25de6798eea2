-- ===== src/Market/Authority/Statements.antt =====
-- Equality of the verifier statements of src/popperpad/core/market.py.
use popper_pad.Prelude.{
  ◌≡◌, refl, true, Option, none, some, List, String, arith, str_eq-eq, texts_eq, option_eq,
  and-true, ap, [], ◌∷◌,
}
use popper_pad.Market.Types.{SubmissionVerdict, ChallengeVerdict}
use popper_pad.Market.Commands.{SubmissionVerifierStatement, ChallengeVerifierStatement}
use popper_pad.Market.Evidence.{
  submission_verdict_eq, challenge_verdict_eq, submission_statement_eq, challenge_statement_eq,
}

texts_eq-eq : (xs ys : List String) → texts_eq xs ys ≡ true → xs ≡ ys
unfolding texts_eq
texts_eq-eq [] [] h = refl
texts_eq-eq [] (y ∷ ys) h = cc h
texts_eq-eq (x ∷ xs) [] h = cc h
texts_eq-eq (x ∷ xs) (y ∷ ys) h = ground (arith, str_eq-eq x y, texts_eq-eq xs ys)

option_eq-eq : (x y : Option String) → option_eq x y ≡ true → x ≡ y
unfolding option_eq
option_eq-eq none none h = refl
option_eq-eq none (some y) h = cc h
option_eq-eq (some x) none h = cc h
option_eq-eq (some x) (some y) h = ap some (str_eq-eq x y h)

submission_verdict-eq : (x y : SubmissionVerdict) → submission_verdict_eq x y ≡ true → x ≡ y
submission_verdict-eq SubmissionVerdict.accepted SubmissionVerdict.accepted h = refl
submission_verdict-eq SubmissionVerdict.rejected SubmissionVerdict.rejected h = refl
submission_verdict-eq SubmissionVerdict.accepted SubmissionVerdict.rejected h = cc h
submission_verdict-eq SubmissionVerdict.rejected SubmissionVerdict.accepted h = cc h

challenge_verdict-eq : (x y : ChallengeVerdict) → challenge_verdict_eq x y ≡ true → x ≡ y
challenge_verdict-eq ChallengeVerdict.upheld ChallengeVerdict.upheld h = refl
challenge_verdict-eq ChallengeVerdict.rejected ChallengeVerdict.rejected h = refl
challenge_verdict-eq ChallengeVerdict.upheld ChallengeVerdict.rejected h = cc h
challenge_verdict-eq ChallengeVerdict.rejected ChallengeVerdict.upheld h = cc h

pub submission_statement_eq-eq :
    (a b : SubmissionVerifierStatement) → submission_statement_eq a b ≡ true → a ≡ b
unfolding submission_statement_eq
submission_statement_eq-eq a b h =
    let (h1, k1) = and-true _ _ h in
    let (h2, k2) = and-true _ _ k1 in
    let (h3, k3) = and-true _ _ k2 in
    let (h4, k4) = and-true _ _ k3 in
    let (h5, k5) = and-true _ _ k4 in
    let (h6, k6) = and-true _ _ k5 in
    let (h7, k7) = and-true _ _ k6 in
    let (h8, k8) = and-true _ _ k7 in
    let (h9, k9) = and-true _ _ k8 in
    cc (
      str_eq-eq _ _ h1,
      str_eq-eq _ _ h2,
      str_eq-eq _ _ h3,
      str_eq-eq _ _ h4,
      option_eq-eq _ _ h5,
      str_eq-eq _ _ h6,
      str_eq-eq _ _ h7,
      texts_eq-eq _ _ h8,
      texts_eq-eq _ _ h9,
      submission_verdict-eq a.outcome b.outcome k9,
    )

pub challenge_statement_eq-eq :
    (a b : ChallengeVerifierStatement) → challenge_statement_eq a b ≡ true → a ≡ b
unfolding challenge_statement_eq
challenge_statement_eq-eq a b h =
    let (h1, k1) = and-true _ _ h in
    let (h2, k2) = and-true _ _ k1 in
    let (h3, k3) = and-true _ _ k2 in
    let (h4, k4) = and-true _ _ k3 in
    let (h5, k5) = and-true _ _ k4 in
    let (h6, k6) = and-true _ _ k5 in
    let (h7, k7) = and-true _ _ k6 in
    let (h8, k8) = and-true _ _ k7 in
    let (h9, k9) = and-true _ _ k8 in
    cc (
      str_eq-eq _ _ h1,
      str_eq-eq _ _ h2,
      str_eq-eq _ _ h3,
      str_eq-eq _ _ h4,
      option_eq-eq _ _ h5,
      str_eq-eq _ _ h6,
      str_eq-eq _ _ h7,
      str_eq-eq _ _ h8,
      texts_eq-eq _ _ h9,
      challenge_verdict-eq a.outcome b.outcome k9,
    )
