-- ===== src/Nodes/Octets.antt =====
-- `json_safe` keeps parsed json as it is.
use matter_thread2mqtt.Prelude.{◌≡◌, refl, ap, ◌∙◌}
use matter_thread2mqtt.Python.{
  int, float, Value, null, bool, num, str, list, dict, Items, nil, cons,
}
use matter_thread2mqtt.Nodes.{json_safe, json_items, raw, raw_items}

mutual
  unfolding json_safe raw

  raw_kept : (v : Value) → json_safe (raw v) ≡ v
  raw_kept null = refl
  raw_kept (bool b) = refl
  raw_kept (num (int i)) = refl
  raw_kept (num (float f)) = refl
  raw_kept (str s) = refl
  raw_kept (dict fs) = refl
  raw_kept (list vs) = ap (λ (l : Items). list l) (raw_items_kept vs)

  raw_items_kept : (vs : Items) → json_items (raw_items vs) ≡ vs
  raw_items_kept nil = refl
  raw_items_kept (cons v vs) =
      ap (λ (w : Value). cons w (json_items (raw_items vs))) (raw_kept v)
      ∙ ap (λ (l : Items). cons v l) (raw_items_kept vs)

-- A value of the initial dump, which is json, is shown as it is.
pub json_safe-raw : (v : Value) → json_safe (raw v) ≡ v
json_safe-raw v = raw_kept v
