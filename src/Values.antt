-- ===== src/Values.antt =====
-- src/popperpad/core/values.py: exact amounts and frozen JSON values.
pub mod Equality
use popper_pad.Prelude.{
  ℕ, ◌+◌, ◌-◌, ltb, Bool, Option, none, some, List, [], ◌∷◌, String, ℤ, pos, le_text, if◌then◌else◌,
  ltb_ℤ, pos_part,
}

-- `Amount`: its constructor refuses a negative number, so the atoms are a natural number.
pub record Amount : Type 0 where
  pub atoms : ℕ

-- `Amount(n)`, where `none` is the ValueError.
unfoldable pub amount : ℤ → Option Amount
amount n = if ltb_ℤ n (pos 0) then none else some (record { atoms = pos_part n })

-- `Amount.zero()`
abbrev pub zero_amount : Amount
zero_amount = record { atoms = 0 }

-- `Amount.plus`
unfoldable pub plus : Amount → Amount → Amount
plus a b = record { atoms = a.atoms + b.atoms }

-- `Amount.minus`, where `none` is the ValueError.
unfoldable pub minus : Amount → Amount → Option Amount
minus a b = if ltb a.atoms b.atoms then none else some (record { atoms = a.atoms - b.atoms })

-- `JsonValue`: no floats. An object holds its entries in the order of `FrozenDict`.
mutual
  pub data Json : Type 0 where
    null : Json
    bool : Bool → Json
    int : ℤ → Json
    str : String → Json
    arr : Items → Json
    obj : Fields → Json

  pub data Items : Type 0 where
    nil : Items
    cons : Json → Items → Items

  pub data Fields : Type 0 where
    end : Fields
    field : String → Json → Fields → Fields

insert_key : String → Json → List (String × Json) → List (String × Json)
insert_key k v [] = (k, v) ∷ []
insert_key k v ((j, w) ∷ m) = if le_text k j then (k, v) ∷ (j, w) ∷ m else (j, w) ∷ insert_key k v m

sort_keys : List (String × Json) → List (String × Json)
unfolding insert_key
sort_keys [] = []
sort_keys ((k, v) ∷ m) = insert_key k v (sort_keys m)

to_fields : List (String × Json) → Fields
to_fields [] = end
to_fields ((k, v) ∷ m) = field k v (to_fields m)

-- A dictionary literal frozen by `freeze_json`: its entries sorted by key.
unfoldable pub dict : List (String × Json) → Json
unfolding sort_keys to_fields
dict m = obj (to_fields (sort_keys m))

-- A tuple of JSON values.
unfoldable pub tuple : List Json → Items
tuple [] = nil
tuple (x ∷ xs) = cons x (tuple xs)

-- A tuple of texts.
unfoldable pub texts : List String → Items
texts [] = nil
texts (x ∷ xs) = cons (str x) (texts xs)

-- `None` or a text.
unfoldable pub text_or_null : Option String → Json
text_or_null none = null
text_or_null (some s) = str s

abbrev pub nat : ℕ → Json
nat n = int (pos n)
