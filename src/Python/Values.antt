-- ===== src/Python/Values.antt =====
-- Python values as the bridge meets them: parsed json, and attribute values of the Matter cache.
use matter_thread2mqtt.Prelude.{
  ℕ, ℤ, Text, List, [], ◌∷◌, Bool, Option, none, some, ◌==◌, text_eq, if◌then◌else◌,
}

-- A float is the 64-bit pattern of an IEEE double.
pub data Num : Type 0 where
  int : ℤ → Num
  float : ℕ → Num

mutual
  -- A dict in insertion order.
  pub data Fields : Type 0 where
    end : Fields
    field : Text → Value → Fields → Fields

  pub data Value : Type 0 where
    dict : Fields → Value
    list : Items → Value
    str : Text → Value
    num : Num → Value
    bool : Bool → Value
    null : Value

  pub data Items : Type 0 where
    cons : Value → Items → Items
    nil : Items

-- `d.get(k)`, with `none` for a missing key
unfoldable pub get : Text → Fields → Option Value
get k end = none
get k (field j v fs) = let rest = get k fs in if j == k then some v else rest

-- the dict that `d.pop(k, default)` leaves
unfoldable pub pop : Text → Fields → Fields
pop k end = end
pop k (field j v fs) = let rest = pop k fs in if j == k then rest else field j v rest

-- `list(d)`
unfoldable pub keys : Fields → List Text
keys end = []
keys (field j v fs) = j ∷ keys fs
