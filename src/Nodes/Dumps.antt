-- ===== src/Nodes/Dumps.antt =====
-- `json_safe` and `dump_node`: every attribute of a node, named.
use matter_thread2mqtt.Prelude.{ℕ, ◌/◌, ◌%◌, ℤ, Text, List, [], ◌∷◌, Bool, Option, none, some}
use matter_thread2mqtt.Python.{
  Runtime, int, float, Value, null, bool, num, str, list, dict, Items, nil, cons, Fields, end,
  field, show_ℤ,
}
use matter_thread2mqtt.Nodes.Ids.{NodeModel}
use matter_thread2mqtt.Nodes.Trees.{Dict, Cluster, Endpoint, sorted, attr_tree}
use matter_thread2mqtt.Nodes.Types.{hex_digit, cluster_name, attr_name}
use matter_thread2mqtt.Nodes.Exposes.{put_field}
use matter_thread2mqtt.Nodes.Infos.{Node}

mutual
  -- A value of the typed cache of the client: enums and bitmaps are integers, a struct has the fields
  -- of its class. A dict, a text and a float come from the initial dump.
  pub data Typed : Type 0 where
    nothing : Typed
    struct : TypedFields → Typed
    sequence : TypedItems → Typed
    octets : List ℕ → Typed
    flag : Bool → Typed
    whole : ℤ → Typed
    decimal : ℕ → Typed
    text : Text → Typed
    object : Fields → Typed

  pub data TypedFields : Type 0 where
    no_fields : TypedFields
    typed_field : Text → Typed → TypedFields → TypedFields

  pub data TypedItems : Type 0 where
    no_items : TypedItems
    typed_item : Typed → TypedItems → TypedItems

-- `bytes.hex`
unfoldable pub hex : List ℕ → Text
hex [] = []
hex (b ∷ bs) = hex_digit (b / 16) ∷ hex_digit (b % 16) ∷ hex bs

unfoldable mutual
  pub json_safe : Typed → Value
  json_safe nothing = null
  json_safe (struct fs) = dict (json_fields fs)
  json_safe (sequence vs) = list (json_items vs)
  json_safe (octets bs) = str (hex bs)
  json_safe (flag b) = bool b
  json_safe (whole i) = num (int i)
  json_safe (decimal f) = num (float f)
  json_safe (text s) = str s
  json_safe (object fs) = dict fs

  pub json_fields : TypedFields → Fields
  json_fields no_fields = end
  json_fields (typed_field name v fs) = field name (json_safe v) (json_fields fs)

  pub json_items : TypedItems → Items
  json_items no_items = nil
  json_items (typed_item v vs) = cons (json_safe v) (json_items vs)

unfoldable mutual
  -- A value of the initial dump, which is parsed json, as `json_safe` meets it.
  pub raw : Value → Typed
  raw null = nothing
  raw (dict fs) = object fs
  raw (list vs) = sequence (raw_items vs)
  raw (bool b) = flag b
  raw (num (int i)) = whole i
  raw (num (float f)) = decimal f
  raw (str s) = text s

  pub raw_items : Items → TypedItems
  raw_items nil = no_items
  raw_items (cons v vs) = typed_item (raw v) (raw_items vs)

-- A loop over the items of a dict that fills another with named entries.
module _ {ℓ} {A : Type ℓ} (entry_name : ℤ → Text) (entry : ℤ → A → Value) where
  unfoldable pub fill : Fields → Dict A → Fields
  unfolding put_field
  fill out [] = out
  fill out ((k, a) ∷ d) = fill (put_field (entry_name k) (entry k a) out) d

-- The typed cache of the client: `none` where `get_attribute_value` raises a KeyError.
abbrev pub Cache : Type 0
Cache = ℤ → ℤ → ℤ → Option Typed

module _ (py : Runtime) (model : NodeModel) (cache : Cache) where
  unfoldable pub attribute_entry : ℤ → ℤ → ℤ → Value → Value
  unfolding json_safe raw
  attribute_entry ep cid aid v = json_safe (elim (cache ep cid aid) [ some t ↦ t | none ↦ raw v ])

  unfoldable pub cluster_entry : ℤ → ℤ → Cluster → Value
  unfolding fill attribute_entry attr_name sorted
  cluster_entry ep cid attrs =
      dict (fill (attr_name model cid) (attribute_entry ep cid) end (sorted attrs))

  unfoldable pub endpoint_entry : ℤ → Endpoint → Value
  unfolding fill cluster_entry cluster_name sorted
  endpoint_entry ep clusters =
      dict (fill (cluster_name model) (cluster_entry ep) end (sorted clusters))

  unfoldable pub dump_node : Node → Fields
  unfolding fill endpoint_entry show_ℤ sorted attr_tree
  dump_node node = fill show_ℤ endpoint_entry end (sorted (attr_tree py node.attributes))
