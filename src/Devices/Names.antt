-- ===== src/Devices/Names.antt =====
-- `valid_name` and the friendly name of a device.
use matter_thread2mqtt.Prelude.{
  ℤ, Text, List, [], ◌∷◌, ◌++◌, Bool, false, ◌||◌, not, ◌==◌, text_eq, nat_eq, contains, is_empty,
  if◌then◌else◌,
}
use matter_thread2mqtt.Python.{Runtime, Value, str, codes, strip, split, show_ℤ}

-- `parts[-1]`; `split` gives at least one part.
unfoldable pub last_part : List Text → Text
last_part [] = []
last_part (p ∷ []) = p
last_part (p ∷ q ∷ ps) = last_part (q ∷ ps)

abbrev pub reserved_names : List Text
reserved_names = codes "bridge" ∷ codes "ping" ∷ codes "discover" ∷ codes "provision" ∷ []

-- The last part of a name as a request would have it.
unfoldable pub is_operation : Text → Bool
is_operation t = t == codes "set" || t == codes "get"

-- f"matter_{node_id}"
unfoldable pub fallback_name : ℤ → Text
unfolding show_ℤ
fallback_name node_id = codes "matter_" ++ show_ℤ node_id

module _ (py : Runtime) where
  unfoldable pub valid_label : Text → Bool
  unfolding contains last_part is_operation strip split
  valid_label s =
      if is_empty (strip py s) || contains reserved_names s
      then false
      else if contains s b'+' || contains s b'#'
      then false
      else not (is_operation (last_part (split b'/' s)))

  -- `valid_name`
  unfoldable pub valid_name : Value → Bool
  unfolding valid_label
  valid_name (str s) = valid_label s
  valid_name v = false

  -- `label if valid_name(label) else f"matter_{node_id}"`
  unfoldable pub friendly_name_of : Value → ℤ → Text
  unfolding valid_name fallback_name
  friendly_name_of (str s) node_id = if valid_name (str s) then s else fallback_name node_id
  friendly_name_of v node_id = fallback_name node_id
