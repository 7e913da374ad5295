-- ===== src/Nodes/Properties.antt =====
-- The groups of capabilities of a node and the names of their properties: what `Device.__init__` does
-- up to `self.props`.
use matter_thread2mqtt.Prelude.{
  ℕ, ◌+◌, ℤ, pos, Text, List, [], ◌∷◌, ◌++◌, map, false, some, ◌==◌, int_eq, text_eq, ltb,
  if◌then◌else◌,
}
use matter_thread2mqtt.Python.{
  Runtime, Value, null, str, list, dict, Items, nil, cons, Fields, end, field, Outcome, ok, raise,
  type_error, ◌>>=◌, codes, show_ℤ, truthy,
}
use matter_thread2mqtt.Devices.{Cap, name, Printing, struct_field}
use matter_thread2mqtt.Nodes.Ids.{NodeModel}
use matter_thread2mqtt.Nodes.Trees.{Dict, Endpoint, find_key, sorted, dict_keys}
use matter_thread2mqtt.Nodes.Types.{type_names, cluster_name}
use matter_thread2mqtt.Nodes.Endpoints.{
  Group, value_at, cluster_at, new_cap, sensor_caps, endpoint_caps, battery_names,
}

abbrev pub elements : Items → List Value
elements nil = []
elements (cons v vs) = v ∷ elements vs

-- A text iterates over its characters, a dict over its keys: neither holds a struct.
abbrev pub letters : Text → List Value
letters [] = []
letters (c ∷ s) = str (c ∷ []) ∷ letters s

abbrev pub field_names : Fields → List Value
field_names end = []
field_names (field k v fs) = str k ∷ field_names fs

-- What `for x in v` iterates over.
unfoldable pub iterate : Value → Outcome (List Value)
iterate (list vs) = ok (elements vs)
iterate (str s) = ok (letters s)
iterate (dict fs) = ok (field_names fs)
iterate _ = raise type_error

-- `[dt for dt in dts if dt is not None]`
unfoldable pub drop_nulls : List Value → List Value
drop_nulls [] = []
drop_nulls (null ∷ vs) = drop_nulls vs
drop_nulls (v ∷ vs) = v ∷ drop_nulls vs

-- `dts` of an endpoint
unfoldable pub device_types_of : NodeModel → Endpoint → Outcome (List Value)
unfolding find_key truthy iterate drop_nulls struct_field
device_types_of model cl =
    let v = value_at (cluster_at cl model.descriptor) model.device_type_list in
    (do
      ds ← if truthy v then iterate v else ok []
      ok (drop_nulls (map (λ d. struct_field d model.device_type_tag (codes "deviceType")) ds)))

-- What the loop over the endpoints adds to `groups` and to `endpoints`.
pub record Visit : Type 0 where
  pub group : Group
  pub types : List Text
  pub clusters : List Text

module _ (py : Runtime) (pr : Printing) (model : NodeModel) where
  -- The root endpoint has only the sensors of its battery.
  unfoldable pub group_of : ℤ → Endpoint → List Value → Outcome Group
  unfolding endpoint_caps sensor_caps
  group_of ep cl dts =
      if ep == pos 0
      then ok (record {
        ep = ep;
        light = false;
        actuators = [];
        sensors = map (new_cap ep) (sensor_caps model cl (some battery_names));
      })
      else endpoint_caps py pr model ep cl dts

  unfoldable pub visit : ℤ → Endpoint → Outcome Visit
  unfolding device_types_of type_names cluster_name sorted group_of
  visit ep cl = do
    dts ← device_types_of model cl
    types ← type_names dts
    g ← group_of ep cl dts
    ok (record {
      group = g;
      types = types;
      clusters = map (cluster_name model) (dict_keys (sorted cl));
    })

  unfoldable pub visit_all : Dict Endpoint → Outcome (List Visit)
  unfolding visit
  visit_all [] = ok []
  visit_all ((ep, cl) ∷ tree) = do v ← visit ep cl; vs ← visit_all tree; ok (v ∷ vs)

abbrev pub caps_of : Group → List Cap
caps_of g = g.actuators ++ g.sensors

-- `caps`
abbrev pub all_caps : List Group → List Cap
all_caps [] = []
all_caps (g ∷ gs) = caps_of g ++ all_caps gs

-- `counts[n]`
unfoldable pub count_name : Text → List Cap → ℕ
count_name n [] = 0
count_name n (c ∷ cs) = (if name c.kind == n then 1 else 0) + count_name n cs

-- f"{c.name}_{c.ep}"
unfoldable pub suffixed : Text → ℤ → Text
unfolding show_ℤ
suffixed n ep = n ++ b'_' ∷ show_ℤ ep

-- The renaming of one capability, for all capabilities of the device.
unfoldable pub rename : List Cap → Cap → Cap
unfolding count_name suffixed
rename caps c =
    if ltb 1 (count_name (name c.kind) caps)
    then record c { prop = suffixed (name c.kind) c.ep }
    else c

-- The groups share their capabilities with `caps`, so these are renamed with them.
unfoldable pub rename_group : List Cap → Group → Group
unfolding rename
rename_group caps g = record g {
  actuators = map (rename caps) g.actuators;
  sensors = map (rename caps) g.sensors;
}

-- `d[k] = c` of a dict by text
unfoldable pub set_prop : Text → Cap → List (Text × Cap) → List (Text × Cap)
set_prop k c [] = (k, c) ∷ []
set_prop k c ((j, d) ∷ props) =
    let rest = set_prop k c props in if j == k then (j, c) ∷ props else (j, d) ∷ rest

unfoldable pub props_from : List (Text × Cap) → List Cap → List (Text × Cap)
unfolding set_prop
props_from props [] = props
props_from props (c ∷ cs) = props_from (set_prop c.prop c props) cs

-- `self.props`
unfoldable pub props_of : List Cap → List (Text × Cap)
unfolding props_from rename
props_of caps = props_from [] (map (rename caps) caps)
