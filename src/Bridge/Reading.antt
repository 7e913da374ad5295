-- ===== src/Bridge/Reading.antt =====
-- `get`: live reads of a device, and its state from the cache.
use matter_thread2mqtt.Prelude.{
  ℤ, Text, List, [], ◌∷◌, ◌++◌, map, false, none, some, text_eq, contains, if◌then◌else◌,
}
use matter_thread2mqtt.Python
use matter_thread2mqtt.Python.{
  sorted_texts, Runtime, Num, int, Value, null, bool, num, str, list, dict, Fields, end, field,
  Outcome, ok, raise, codes, show_ℤ, round_num, times, num_lt, pop, keys,
}
use matter_thread2mqtt.Devices.{DataModel, AttrId, Cap, gettable, momentary, paths, read}
use matter_thread2mqtt.Bridge.State.{
  Device, unknown_property, not_readable, Effect, publish, refresh, state_payload, topic_root,
}
use matter_thread2mqtt.Bridge.Exec.{Client, Exec, ◌>>=◌, ◌>>◌, pure, lift, emit, error, call}
use matter_thread2mqtt.Bridge.Writes.{Verdict, granted, refused}
use matter_thread2mqtt.Bridge.Requests.{prop_of, get_or}

module _ (client : Client) where
  -- The cached value of an attribute now, on an endpoint of the device's node.
  cached : Device → ℤ → List Effect → AttrId → Value
  cached dev ep s a = get_or (client.attribute s dev.node_id ep a) null

-- f"{TOPIC}/{dev.friendly_name}"
abbrev pub state_topic : Device → Text
state_topic dev = topic_root ++ (codes "/" ++ dev.friendly_name)

module _ (py : Runtime) (ids : DataModel) (client : Client) where
  -- `Device.state`, of the properties that are left
  unfoldable pub state_from :
      Device → List (Text × Cap) → List Effect → Outcome (List (Text × Value))
  unfolding cached
  state_from dev [] s = ok []
  state_from dev ((prop, cap) ∷ props) s =
      let rest = state_from dev props s in
      if momentary cap.kind
      then rest
      else Python.◌>>=◌ (read py ids (cached client dev cap.ep s) cap.kind)
          (λ v. Python.◌>>=◌ rest (λ more. ok ((prop, v) ∷ more)))

  unfoldable pub publish_state : Device → Exec (Unit {0})
  unfolding state_from
  publish_state dev s =
      ((lift (state_from dev dev.props s))
          >>= (λ state. emit (publish (state_topic dev) (state_payload state) false)))
        s

-- `list(payload) or list(dev.props)`
unfoldable pub requested : Device → Fields → List Text
requested dev end = map (λ p. p.0) dev.props
requested dev (field k v fs) = k ∷ keys fs

-- `paths.extend(p for p in new if p not in paths)`; the generator sees the list grow.
unfoldable pub extend_new : List Text → List Text → List Text
unfolding contains
extend_new known [] = known
extend_new known (p ∷ new) = extend_new (if contains known p then known else known ++ p ∷ []) new

module _ (ids : DataModel) where
  -- The loop of `get` over the requested properties.
  unfoldable pub gather : Device → List Text → List Text → Verdict (List Text)
  unfolding extend_new prop_of
  gather dev [] known = granted known
  gather dev (prop ∷ props) known = elim (prop_of dev.props prop) [
    | none ↦ refused (unknown_property prop (sorted_texts (map (λ p. p.0) dev.props)))
    | some cap ↦
        let rest = gather dev props (extend_new known (paths ids cap)) in
        if gettable cap.kind then rest else refused (not_readable prop)
  ]

module _ (py : Runtime) (ids : DataModel) (client : Client) where
  unfoldable pub refresh_all : Device → List Text → Exec (Unit {0})
  refresh_all dev [] = pure tt
  refresh_all dev (p ∷ ps) = do call client (refresh dev.node_id p); refresh_all dev ps

  unfoldable pub get : Text → Device → Fields → Exec (Unit {0})
  unfolding gather requested refresh_all
  get request dev payload = elim (gather ids dev (requested dev payload) []) [
    | refused m ↦ error request m
    | granted ps ↦ do refresh_all dev ps; publish_state py ids client dev
  ]
