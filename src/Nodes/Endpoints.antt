-- ===== src/Nodes/Endpoints.antt =====
-- The constructors of the capabilities, `sensor_caps` and `endpoint_caps`.
use matter_thread2mqtt.Prelude.{
  ℕ, ℤ, pos, Text, List, [], ◌∷◌, ◌++◌, map, Bool, true, false, ◌||◌, ◌&&◌, not, eqb, keep,
  contains, Option, none, some, int_eq, text_eq, if◌then◌else◌,
}
use matter_thread2mqtt.Python.{
  Runtime, int, float, Value, null, num, list, dict, Outcome, ok, raise, type_error, ◌>>=◌, codes,
  truthy,
}
use matter_thread2mqtt.Devices.{
  Kind, on_off_cap, level_cap, color_temp_cap, color_cap, color_mode_cap, action_cap, sensor_cap,
  Sensor, temperature, humidity, pressure, illuminance, occupancy, contact, battery, battery_low,
  sensor_name, sensor_attr, name, Cap, masked, Printing,
}
use matter_thread2mqtt.Nodes.Ids.{NodeModel}
use matter_thread2mqtt.Nodes.Trees.{Cluster, Endpoint, find_key, has_key, found_or}

-- `Cap.__init__`
abbrev pub new_cap : ℤ → Kind → Cap
new_cap ep k = record { ep = ep; kind = k; prop = name k }

abbrev pub all_sensors : List Sensor
all_sensors =
    temperature ∷ humidity ∷ pressure ∷ illuminance ∷ occupancy ∷ contact ∷ battery ∷ battery_low
    ∷ []

-- `BATTERY`
abbrev pub battery_names : List Text
battery_names = codes "battery" ∷ codes "battery_low" ∷ []

-- `LIGHT_TYPES`
abbrev pub light_types : List ℤ
light_types = pos 256 ∷ pos 257 ∷ pos 268 ∷ pos 269 ∷ []

-- `v or default`
abbrev pub or_default : Value → Value → Value
or_default v default = if truthy v then v else default

-- `cluster.get(aid)`
abbrev pub value_at : Cluster → ℤ → Value
value_at cl aid = found_or (find_key aid cl) null

-- `cl[cid]`, of a cluster that is there
abbrev pub cluster_at : Endpoint → ℤ → Cluster
cluster_at cl cid = found_or (find_key cid cl) []

-- More capabilities, if the endpoint has the cluster for them; only then are they made.
unfoldable pub with_more : List Kind → Bool → Outcome (List Kind) → Outcome (List Kind)
with_more caps true (ok more) = ok (caps ++ more)
with_more caps true (raise e) = raise e
with_more caps false more = ok caps

module _ (model : NodeModel) where
  -- The sensor's attribute is one that the endpoint reports, and `only`, if given, has its name.
  unfoldable pub reports : Endpoint → Option (List Text) → Sensor → Bool
  unfolding has_key find_key contains sensor_attr sensor_name
  reports cl only s =
      elim only [ none ↦ true | some names ↦ contains names (sensor_name s) ]
      && has_key (sensor_attr model.ids s).attribute
          (cluster_at cl (sensor_attr model.ids s).cluster)

  unfoldable pub sensor_caps : Endpoint → Option (List Text) → List Kind
  unfolding keep reports
  sensor_caps cl only = map sensor_cap (keep (reports cl only) all_sensors)

  unfoldable pub new_level : Endpoint → Kind
  unfolding find_key truthy
  new_level cl =
      level_cap
        (or_default (value_at (cluster_at cl model.level) model.min_level) (num (int (pos 1))))
        (or_default (value_at (cluster_at cl model.level) model.max_level) (num (int (pos 254))))

  unfoldable pub new_color_temp : Endpoint → Kind
  unfolding find_key
  new_color_temp cl =
      color_temp_cap (value_at (cluster_at cl model.color) model.color_temp_min)
        (value_at (cluster_at cl model.color) model.color_temp_max)

  -- `cl[COLOR].get(COLOR_CAPABILITIES) or 0`
  unfoldable pub color_caps : Endpoint → Value
  unfolding find_key truthy
  color_caps cl =
      or_default (value_at (cluster_at cl model.color) model.color_capabilities) (num (int (pos 0)))

  module _ (py : Runtime) where
    -- `bool(v & bit)`
    unfoldable pub has_bit : Value → ℕ → Outcome Bool
    unfolding masked
    has_bit v bit = do m ← masked py v bit; ok (not (eqb m 0))

    unfoldable pub new_color : Endpoint → Outcome Kind
    unfolding color_caps has_bit
    new_color cl = do
      hs ← has_bit (color_caps cl) model.hue_saturation_bit
      xy ← has_bit (color_caps cl) model.xy_bit
      ok (color_cap hs xy)

    unfoldable pub new_color_mode : Endpoint → Outcome Kind
    unfolding color_caps has_bit
    new_color_mode cl = do
      hs ← has_bit (color_caps cl) model.hue_saturation_bit
      xy ← has_bit (color_caps cl) model.xy_bit
      ct ← has_bit (color_caps cl) model.color_temperature_bit
      ok (
          color_mode_cap (
            (if hs then codes "hs" ∷ [] else [])
            ++ ((if xy then codes "xy" ∷ [] else [])
                ++ (if ct then codes "color_temp" ∷ [] else []))))

    unfoldable pub new_action : Endpoint → Outcome Kind
    unfolding find_key truthy has_bit
    new_action cl =
        let sw = cluster_at cl model.switch in
        let feat = or_default (value_at sw model.feature_map) (num (int (pos 0))) in
        (do
          latching ← has_bit feat model.latching_bit
          multi ← has_bit feat model.multi_press_bit
          long ← has_bit feat model.long_press_bit
          release ← has_bit feat model.release_bit
          ok (
              action_cap latching multi long release
                (or_default (value_at sw model.number_of_positions) (num (int (pos 2))))
                (or_default (value_at sw model.multi_press_max) (num (int (pos 2))))))

    -- The capabilities of a colour light.
    unfoldable pub color_kinds : Endpoint → Outcome (List Kind)
    unfolding color_caps has_bit new_color_temp new_color new_color_mode
    color_kinds cl = do
      ct ← has_bit (color_caps cl) model.color_temperature_bit
      hs ← has_bit (color_caps cl) model.hue_saturation_bit
      xy ← has_bit (color_caps cl) model.xy_bit
      color ← if hs || xy then (do c ← new_color cl; ok (c ∷ [])) else ok []
      mode ← new_color_mode cl
      ok ((if ct then new_color_temp cl ∷ [] else []) ++ (color ++ mode ∷ []))

    -- `act`
    unfoldable pub actuator_kinds : Endpoint → Outcome (List Kind)
    unfolding has_key color_kinds new_level with_more
    actuator_kinds cl =
        if has_key model.onoff cl
        then with_more (on_off_cap ∷ (if has_key model.level cl then new_level cl ∷ [] else []))
            (has_key model.color cl) (color_kinds cl)
        else ok []

    unfoldable pub one_action : Endpoint → Outcome (List Kind)
    unfolding new_action
    one_action cl = do a ← new_action cl; ok (a ∷ [])

    -- `sens`
    unfoldable pub sensor_kinds : Endpoint → Outcome (List Kind)
    unfolding sensor_caps has_key one_action with_more
    sensor_kinds cl = with_more (sensor_caps cl none) (has_key model.switch cl) (one_action cl)

-- An element of `LIGHT_TYPES`, which a list or a dict cannot be asked for: it is unhashable.
unfoldable pub is_light_type : Printing → Value → Outcome Bool
unfolding contains
is_light_type pr (num (int i)) = ok (contains light_types i)
is_light_type pr (num (float f)) =
    ok (elim (pr.whole_of f) [ some i ↦ contains light_types i | none ↦ false ])
is_light_type pr (list vs) = raise type_error
is_light_type pr (dict fs) = raise type_error
is_light_type pr v = ok false

-- `LIGHT_TYPES & set(device_types)`, as a test
unfoldable pub any_light : Printing → List Value → Outcome Bool
unfolding is_light_type
any_light pr [] = ok false
any_light pr (v ∷ vs) = do b ← is_light_type pr v; c ← any_light pr vs; ok (b || c)

-- An element of `groups`.
pub record Group : Type 0 where
  pub ep : ℤ
  pub light : Bool
  pub actuators : List Cap
  pub sensors : List Cap

module _ (py : Runtime) (pr : Printing) (model : NodeModel) where
  unfoldable pub is_light : Endpoint → List Value → Outcome Bool
  unfolding has_key any_light
  is_light cl device_types =
      if has_key model.level cl || has_key model.color cl
      then ok true
      else any_light pr device_types

  -- `endpoint_caps`, with its endpoint
  unfoldable pub endpoint_caps : ℤ → Endpoint → List Value → Outcome Group
  unfolding actuator_kinds sensor_kinds is_light
  endpoint_caps ep cl device_types = do
    act ← actuator_kinds model py cl
    light ← is_light cl device_types
    sens ← sensor_kinds model py cl
    ok (record {
      ep = ep;
      light = light;
      actuators = map (new_cap ep) act;
      sensors = map (new_cap ep) sens;
    })
