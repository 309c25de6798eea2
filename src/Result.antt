-- ===== src/Result.antt =====
-- src/popperpad/core/result.py: a decision of the functions beside the market, which is a value or a
-- rejection with a code and details.
use popper_pad.Prelude.{◌⊎◌, inl, inr, ◌≡◌, refl, ap, subst, Bool, true, false, [], ◌∷◌, String}
use popper_pad.Values.{Json, str, dict}

-- `Reject` with its details, or the value that is accepted.
pub data Checked {ℓ} (A : Type ℓ) : Type ℓ where
  ok : A → Checked A
  refused : String → Json → Checked A

-- `if test: return Reject(code, details)`
unfoldable pub refuse_when : Bool → String → Json → Checked (Unit {0})
refuse_when true code details = Checked.refused code details
refuse_when false code details = Checked.ok tt

-- The statements of a function in sequence: the first rejection is its result.
infixl 5 ◌>>=◌ ◌>>◌
unfoldable pub ◌>>=◌ {ℓ κ} : {A : Type ℓ} {B : Type κ} → Checked A → (A → Checked B) → Checked B
Checked.ok a >>= k = k a
Checked.refused code details >>= k = Checked.refused code details

unfoldable pub ◌>>◌ {κ} : {B : Type κ} → Checked (Unit {0}) → Checked B → Checked B
Checked.ok _ >> r = r
Checked.refused code details >> r = Checked.refused code details

-- `{"reason": reason}`
unfoldable pub reason : String → Json
reason r = dict (("reason", str r) ∷ [])

-- `P` holds of what is accepted.
pub record OnOk {ℓ κ} {A : Type ℓ} (P : A → Type κ) (r : Checked A) : Type (ℓ ⊔ κ) where
  pub holds : (a : A) → r ≡ Checked.ok a → P a

from_ok {ℓ} : {A : Type ℓ} → A → Checked A → A
from_ok a (Checked.ok b) = b
from_ok a (Checked.refused code details) = a

pub ok-injective {ℓ} : {A : Type ℓ} (a b : A) → Checked.ok a ≡ Checked.ok b → a ≡ b
unfolding from_ok
ok-injective a b e = ap (from_ok a) e

module _ {ℓ κ} {A : Type ℓ} {P : A → Type κ} where
  pub refused-OnOk : (code : String) (details : Json) → OnOk P (Checked.refused code details)
  refused-OnOk code details = record { holds = λ a e. cc }

  pub ok-OnOk : (a : A) → P a → OnOk P (Checked.ok a)
  ok-OnOk a h = record { holds = λ b e. subst P (ok-injective a b e) h }

  pub when-OnOk :
      (b : Bool) (code : String) (details : Json) (r : Checked A)
      → (b ≡ false → OnOk P r)
      → OnOk P (refuse_when b code details >> r)
  unfolding refuse_when ◌>>◌
  when-OnOk true code details r k = refused-OnOk code details
  when-OnOk false code details r k = k refl

  pub bind-OnOk {μ} :
      {B : Type μ} (m : Checked B) (f : B → Checked A)
      → ((b : B) → m ≡ Checked.ok b → OnOk P (f b))
      → OnOk P (m >>= f)
  unfolding ◌>>=◌
  bind-OnOk (Checked.ok b) f k = k b refl
  bind-OnOk (Checked.refused code details) f k = refused-OnOk code details

pub Checked-cases :
    (r : Checked (Unit {0}))
    → (r ≡ Checked.ok tt)
      ⊎ ((code : String) × (details : Json) × (r ≡ Checked.refused code details))
Checked-cases (Checked.ok tt) = inl refl
Checked-cases (Checked.refused code details) = inr (code, details, refl)

-- What a sequence that accepts has passed.
pub when-ok {ℓ} :
    {A : Type ℓ} (b : Bool) (code : String) (details : Json) (r : Checked A) (a : A)
    → (refuse_when b code details >> r) ≡ Checked.ok a
    → (b ≡ false) × (r ≡ Checked.ok a)
unfolding refuse_when ◌>>◌
when-ok true code details r a h = cc h
when-ok false code details r a h = (refl, h)

pub bind-ok {ℓ κ} :
    {A : Type ℓ} {B : Type κ} (m : Checked B) (f : B → Checked A) (a : A)
    → (m >>= f) ≡ Checked.ok a
    → (b : B) × (m ≡ Checked.ok b) × (f b ≡ Checked.ok a)
unfolding ◌>>=◌
bind-ok (Checked.ok b) f a h = (b, refl, h)
bind-ok (Checked.refused code details) f a h = cc h

pub when-pass {ℓ} :
    {A : Type ℓ} (b : Bool) (code : String) (details : Json) (r : Checked A)
    → b ≡ false
    → (refuse_when b code details >> r) ≡ r
unfolding refuse_when ◌>>◌
when-pass true code details r h = cc h
when-pass false code details r h = refl

pub bind-pass {ℓ κ} :
    {A : Type ℓ} {B : Type κ} (m : Checked B) (f : B → Checked A) (b : B)
    → m ≡ Checked.ok b
    → (m >>= f) ≡ f b
unfolding ◌>>=◌
bind-pass m f b h = rw h refl

pub then-ok {ℓ} :
    {A : Type ℓ} (m : Checked (Unit {0})) (r : Checked A) (a : A)
    → (m >> r) ≡ Checked.ok a
    → (m ≡ Checked.ok tt) × (r ≡ Checked.ok a)
unfolding ◌>>◌
then-ok (Checked.ok tt) r a h = (refl, h)
then-ok (Checked.refused code details) r a h = cc h

pub then-pass {ℓ} :
    {A : Type ℓ} (m : Checked (Unit {0})) (r : Checked A) → m ≡ Checked.ok tt → (m >> r) ≡ r
unfolding ◌>>◌
then-pass m r h = rw h refl

pub Checked-split {ℓ} :
    {A : Type ℓ} (r : Checked A)
    → ((a : A) × (r ≡ Checked.ok a))
      ⊎ ((code : String) × (details : Json) × (r ≡ Checked.refused code details))
Checked-split (Checked.ok a) = inl (a, refl)
Checked-split (Checked.refused code details) = inr (code, details, refl)
