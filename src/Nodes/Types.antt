-- ===== src/Nodes/Types.antt =====
-- `device_type_name` and `cluster_name`.
use matter_thread2mqtt.Prelude.{
  ℕ, zero, suc, ◌+◌, ◌-◌, ◌/◌, ◌%◌, ℤ, pos, negsuc, Text, List, [], ◌∷◌, ◌++◌, Option, none, some,
  ◌==◌, int_eq, ltb, length, if◌then◌else◌,
}
use matter_thread2mqtt.Python.{
  int, float, Value, num, bool, str, Outcome, ok, raise, type_error, value_error, ◌>>=◌, codes,
  show_ℤ,
}
use matter_thread2mqtt.Nodes.Ids.{NodeModel}

-- A hexadecimal digit.
abbrev pub hex_digit : ℕ → ℕ
hex_digit d = if ltb d 10 then b'0' + d else b'a' + (d - 10)

-- The hexadecimal digits of `n` in front of `acc`; a number has fewer digits than the fuel `suc n`.
unfoldable pub hex_onto : ℕ → ℕ → Text → Text
hex_onto zero n acc = acc
hex_onto (suc fuel) n acc =
    let more = hex_onto fuel (n / 16) (hex_digit (n % 16) ∷ acc) in
    if ltb n 16 then hex_digit n ∷ acc else more

unfoldable pub zeros : ℕ → Text
zeros zero = []
zeros (suc n) = b'0' ∷ zeros n

-- f"{n:04x}": the sign counts for the width.
unfoldable pub hex4 : ℤ → Text
unfolding hex_onto zeros
hex4 (pos n) = let s = hex_onto (suc n) n [] in zeros (4 - length s) ++ s
hex4 (negsuc n) = let s = hex_onto (suc (suc n)) (suc n) [] in b'-' ∷ (zeros (3 - length s) ++ s)

-- `DEVICE_TYPES`
abbrev pub device_types : List (ℤ × Text)
device_types =
    (pos 14, codes "Aggregator")
    ∷ (pos 17, codes "Power Source")
    ∷ (pos 19, codes "Bridged Node")
    ∷ (pos 21, codes "Contact Sensor")
    ∷ (pos 22, codes "Root Node")
    ∷ (pos 256, codes "On/Off Light")
    ∷ (pos 257, codes "Dimmable Light")
    ∷ (pos 259, codes "On/Off Light Switch")
    ∷ (pos 263, codes "Occupancy Sensor")
    ∷ (pos 266, codes "On/Off Plug-in Unit")
    ∷ (pos 267, codes "Dimmable Plug-in Unit")
    ∷ (pos 268, codes "Color Temperature Light")
    ∷ (pos 269, codes "Extended Color Light")
    ∷ (pos 770, codes "Temperature Sensor")
    ∷ (pos 773, codes "Pressure Sensor")
    ∷ (pos 775, codes "Humidity Sensor")
    ∷ []

unfoldable pub type_in : List (ℤ × Text) → ℤ → Option Text
type_in [] i = none
type_in ((j, s) ∷ types) i = if j == i then some s else type_in types i

unfoldable pub int_type_name : ℤ → Text
unfolding type_in hex4
int_type_name i = elim (type_in device_types i) [ some s ↦ s | none ↦ codes "0x" ++ hex4 i ]

-- The default is printed before the look-up: a float or a text has no hexadecimal format, and a
-- list or a dict none at all.
unfoldable pub device_type_name : Value → Outcome Text
unfolding int_type_name
device_type_name (num (int i)) = ok (int_type_name i)
device_type_name (bool b) = ok (int_type_name (pos (if b then 1 else 0)))
device_type_name (num (float f)) = raise value_error
device_type_name (str s) = raise value_error
device_type_name _ = raise type_error

unfoldable pub type_names : List Value → Outcome (List Text)
unfolding device_type_name
type_names [] = ok []
type_names (v ∷ vs) = do n ← device_type_name v; ns ← type_names vs; ok (n ∷ ns)

unfoldable pub cluster_name : NodeModel → ℤ → Text
unfolding show_ℤ
cluster_name model cid = elim (model.cluster_class cid) [
  | some s ↦ s
  | none ↦ codes "cluster_" ++ show_ℤ cid
]

unfoldable pub attr_name : NodeModel → ℤ → ℤ → Text
unfolding show_ℤ
attr_name model cid aid = elim (model.attribute_class cid aid) [
  | some s ↦ s
  | none ↦ codes "attr_" ++ show_ℤ aid
]
