-- ===== src/Values/Equality.antt =====
-- `==` on the values of src/popperpad/core/values.py.
use popper_pad.Prelude.{
  ◌≡◌, refl, ap, ◌∙◌, ==→eq, str_eq-eq, and-true, ◌==◌, eq→==, ◌&&◌, and-intro, ℤ, pos, negsuc,
  Bool, true, false, str_eq, str_eq_refl,
}
use mathlib.Core.Path.{ap₂}
use popper_pad.Values.{Json, null, bool, int, str, arr, obj, Items, nil, cons, Fields, end, field}

-- `==` of two JSON values in Python, where `True == 1` and `False == 0`.
int_of : Bool → ℤ
int_of true = pos 1
int_of false = pos 0

int_eq : ℤ → ℤ → Bool
int_eq (pos m) (pos n) = m == n
int_eq (negsuc m) (negsuc n) = m == n
int_eq _ _ = false

unfoldable mutual
  unfolding int_of int_eq

  pub json_eq : Json → Json → Bool
  json_eq null null = true
  json_eq (bool a) (bool b) = int_eq (int_of a) (int_of b)
  json_eq (bool a) (int n) = int_eq (int_of a) n
  json_eq (int m) (bool b) = int_eq m (int_of b)
  json_eq (int m) (int n) = int_eq m n
  json_eq (str s) (str t) = str_eq s t
  json_eq (arr xs) (arr ys) = items_eq xs ys
  json_eq (obj fs) (obj gs) = fields_eq fs gs
  json_eq _ _ = false

  items_eq : Items → Items → Bool
  items_eq nil nil = true
  items_eq (cons x xs) (cons y ys) = json_eq x y && items_eq xs ys
  items_eq _ _ = false

  fields_eq : Fields → Fields → Bool
  fields_eq end end = true
  fields_eq (field k v fs) (field l w gs) = str_eq k l && (json_eq v w && fields_eq fs gs)
  fields_eq _ _ = false

int_eq_refl : (n : ℤ) → int_eq n n ≡ true
unfolding int_eq
int_eq_refl (pos n) = eq→== n n refl
int_eq_refl (negsuc n) = eq→== n n refl

mutual
  unfolding json_eq

  pub json_eq_refl : (v : Json) → json_eq v v ≡ true
  json_eq_refl null = refl
  json_eq_refl (bool b) = int_eq_refl (int_of b)
  json_eq_refl (int n) = int_eq_refl n
  json_eq_refl (str s) = str_eq_refl s
  json_eq_refl (arr xs) = items_eq_refl xs
  json_eq_refl (obj fs) = fields_eq_refl fs

  items_eq_refl : (xs : Items) → items_eq xs xs ≡ true
  items_eq_refl nil = refl
  items_eq_refl (cons x xs) = and-intro _ _ (json_eq_refl x) (items_eq_refl xs)

  fields_eq_refl : (fs : Fields) → fields_eq fs fs ≡ true
  fields_eq_refl end = refl
  fields_eq_refl (field k v fs) =
      and-intro _ _ (str_eq_refl k) (and-intro _ _ (json_eq_refl v) (fields_eq_refl fs))

-- A value with its truth values as the integers that they equal in Python, so that two values are `==`
-- only if these forms are the same.
unfoldable mutual
  unfolding int_of

  pub plain : Json → Json
  plain null = null
  plain (bool b) = int (int_of b)
  plain (int n) = int n
  plain (str s) = str s
  plain (arr xs) = arr (plain_items xs)
  plain (obj fs) = obj (plain_fields fs)

  plain_items : Items → Items
  plain_items nil = nil
  plain_items (cons x xs) = cons (plain x) (plain_items xs)

  plain_fields : Fields → Fields
  plain_fields end = end
  plain_fields (field k v fs) = field k (plain v) (plain_fields fs)

int_eq-eq : (m n : ℤ) → int_eq m n ≡ true → m ≡ n
unfolding int_eq
int_eq-eq (pos m) (pos n) h = ap pos (==→eq m n h)
int_eq-eq (negsuc m) (negsuc n) h = ap negsuc (==→eq m n h)
int_eq-eq (pos m) (negsuc n) h = cc h
int_eq-eq (negsuc m) (pos n) h = cc h

mutual
  unfolding json_eq plain

  pub json_eq-plain : (v w : Json) → json_eq v w ≡ true → plain v ≡ plain w
  json_eq-plain null null h = refl
  json_eq-plain null (bool b) h = cc h
  json_eq-plain null (int n) h = cc h
  json_eq-plain null (str t) h = cc h
  json_eq-plain null (arr ys) h = cc h
  json_eq-plain null (obj gs) h = cc h
  json_eq-plain (bool a) null h = cc h
  json_eq-plain (bool a) (bool b) h = ap int (int_eq-eq (int_of a) (int_of b) h)
  json_eq-plain (bool a) (int n) h = ap int (int_eq-eq (int_of a) n h)
  json_eq-plain (bool a) (str t) h = cc h
  json_eq-plain (bool a) (arr ys) h = cc h
  json_eq-plain (bool a) (obj gs) h = cc h
  json_eq-plain (int m) null h = cc h
  json_eq-plain (int m) (bool b) h = ap int (int_eq-eq m (int_of b) h)
  json_eq-plain (int m) (int n) h = ap int (int_eq-eq m n h)
  json_eq-plain (int m) (str t) h = cc h
  json_eq-plain (int m) (arr ys) h = cc h
  json_eq-plain (int m) (obj gs) h = cc h
  json_eq-plain (str s) null h = cc h
  json_eq-plain (str s) (bool b) h = cc h
  json_eq-plain (str s) (int n) h = cc h
  json_eq-plain (str s) (str t) h = ap str (str_eq-eq s t h)
  json_eq-plain (str s) (arr ys) h = cc h
  json_eq-plain (str s) (obj gs) h = cc h
  json_eq-plain (arr xs) null h = cc h
  json_eq-plain (arr xs) (bool b) h = cc h
  json_eq-plain (arr xs) (int n) h = cc h
  json_eq-plain (arr xs) (str t) h = cc h
  json_eq-plain (arr xs) (arr ys) h = ap arr (items_eq-plain xs ys h)
  json_eq-plain (arr xs) (obj gs) h = cc h
  json_eq-plain (obj fs) null h = cc h
  json_eq-plain (obj fs) (bool b) h = cc h
  json_eq-plain (obj fs) (int n) h = cc h
  json_eq-plain (obj fs) (str t) h = cc h
  json_eq-plain (obj fs) (arr ys) h = cc h
  json_eq-plain (obj fs) (obj gs) h = ap obj (fields_eq-plain fs gs h)

  items_eq-plain : (xs ys : Items) → items_eq xs ys ≡ true → plain_items xs ≡ plain_items ys
  items_eq-plain nil nil h = refl
  items_eq-plain nil (cons y ys) h = cc h
  items_eq-plain (cons x xs) nil h = cc h
  items_eq-plain (cons x xs) (cons y ys) h =
      let (a, b) = and-true (json_eq x y) (items_eq xs ys) h in
      ap₂ cons (json_eq-plain x y a) (items_eq-plain xs ys b)

  fields_eq-plain : (fs gs : Fields) → fields_eq fs gs ≡ true → plain_fields fs ≡ plain_fields gs
  fields_eq-plain end end h = refl
  fields_eq-plain end (field k v fs) h = cc h
  fields_eq-plain (field k v fs) end h = cc h
  fields_eq-plain (field k v fs) (field l w gs) h =
      let (a, rest) = and-true (str_eq k l) _ h in
      let (b, c) = and-true (json_eq v w) (fields_eq fs gs) rest in
      ap (λ x. field x (plain v) (plain_fields fs)) (str_eq-eq k l a)
      ∙ ap₂ (field l) (json_eq-plain v w b) (fields_eq-plain fs gs c)
