-- ===== src/Bridge/Callbacks.antt =====
-- The bridge's tables of devices, subscriptions and scheduled publications, and the callbacks that
-- change them. Each runs without an await, so the cache stays as it is meanwhile.
use matter_thread2mqtt.Prelude.{
  ℤ, Text, List, [], ◌∷◌, ◌++◌, map, Bool, true, false, not, Option, none, some, ◌==◌, int_eq,
  contains, keep, find, if◌then◌else◌,
}
use matter_thread2mqtt.Python.{Runtime, Value, Outcome, ok, raise, codes}
use matter_thread2mqtt.Devices.{DataModel, SwitchEvent, Printing, action}
use matter_thread2mqtt.Bridge.State.{
  Device, Effect, publish, state_payload, availability_payload, devices_payload, action_payload,
  topic_root,
}
use matter_thread2mqtt.Bridge.Exec.{Client}
use matter_thread2mqtt.Bridge.Reading.{state_from, state_topic}

-- `devices` are the values of a dict by node id, `attr_unsubs` the keys of the dict of unsubscribe
-- functions. `timers` is no field of the bridge but what the event loop has yet to call: the nodes
-- of the `_flush_state` calls that `call_later` put there.
pub record Tables : Type 0 where
  pub devices : List Device
  pub attr_unsubs : List ℤ
  pub pending_state : List ℤ
  pub timers : List ℤ

-- A publication, a subscription for the attribute updates of a node or its end, the subscriptions
-- for node events of a new client.
pub data Act : Type 0 where
  out : Effect → Act
  subscribe unsubscribe : ℤ → Act
  subscribe_node_events : Act

abbrev pub Result : Type 0
Result = Outcome (Unit {0}) × Tables × List Act

abbrev pub node_ids : List Device → List ℤ
node_ids ds = map (λ d. d.node_id) ds

-- `devices[dev.node_id] = dev`: a key that is there keeps its place.
unfoldable pub put : Device → List Device → List Device
put d [] = d ∷ []
put d (e ∷ ds) = let rest = put d ds in if e.node_id == d.node_id then d ∷ ds else e ∷ rest

-- The dict comprehension of `rebuild`.
unfoldable pub table_from : List Device → List Device → List Device
unfolding put
table_from table [] = table
table_from table (d ∷ ds) = table_from (put d table) ds

-- The loop that subscribes to the nodes without a subscription.
unfoldable pub subscribe_from : List ℤ → List ℤ → List ℤ × List Act
unfolding contains
subscribe_from subs [] = (subs, [])
subscribe_from subs (n ∷ ns) =
    let old = subscribe_from subs ns in
    let new = subscribe_from (subs ++ n ∷ []) ns in
    if contains subs n then old else (new.0, subscribe n ∷ new.1)

-- One of the timers for the node is gone.
unfoldable pub drop_one : ℤ → List ℤ → List ℤ
drop_one n [] = []
drop_one n (m ∷ ms) = let rest = drop_one n ms in if m == n then ms else m ∷ rest

abbrev pub availability : Device → Bool → Act
availability dev online =
    out (publish (state_topic dev ++ codes "/availability") (availability_payload online) true)

unfoldable pub on_matter_disconnect : Tables → Result
on_matter_disconnect t = (ok tt, t, map (λ d. availability d false) t.devices)

-- `add` and `discard` of the set
unfoldable pub schedule_state : ℤ → Tables → Result
unfolding contains
schedule_state n t = if contains t.pending_state n then (ok tt, t, []) else (
  ok tt,
  record t { pending_state = t.pending_state ++ n ∷ []; timers = t.timers ++ n ∷ [] },
  [],
)

unfoldable pub result_of : Tables → Outcome (List Act) → Result
result_of t (ok acts) = (ok tt, t, acts)
result_of t (raise e) = (raise e, t, [])

module _ (py : Runtime) (ids : DataModel) (client : Client) (s : List Effect) where
  -- `publish_state`, with the cache after the effects `s`
  state_act : Device → Outcome (List Act)
  unfolding state_from
  state_act dev = elim (state_from py ids client dev dev.props s) [
    | ok state ↦ ok (out (publish (state_topic dev) (state_payload state) false) ∷ [])
    | raise e ↦ raise e
  ]

  then_acts : List Act → Outcome (Unit {0}) × List Act → Outcome (Unit {0}) × List Act
  then_acts acts rest = (rest.0, acts ++ rest.1)

  -- The last loop of `rebuild`.
  unfoldable pub publish_all : List Device → Outcome (Unit {0}) × List Act
  unfolding state_act then_acts
  publish_all [] = (ok tt, [])
  publish_all (d ∷ ds) =
      let rest = publish_all ds in
      elim (state_act d) [
        | raise e ↦ (raise e, availability d d.available ∷ [])
        | ok acts ↦ then_acts (availability d d.available ∷ acts) rest
      ]

  -- `made` is `Device(n)` for each of the client's nodes, which may raise before anything is done.
  unfoldable pub rebuild : (made : Outcome (List Device)) → Tables → Result
  unfolding publish_all table_from subscribe_from keep contains
  rebuild (raise e) t = (raise e, t, [])
  rebuild (ok nodes) t =
      let devices = table_from [] nodes in
      let known = λ (n : ℤ). contains (node_ids devices) n in
      let subs = subscribe_from (keep known t.attr_unsubs) (node_ids devices) in
      let last = publish_all devices in
      (
        last.0,
        record t { devices = devices; attr_unsubs = subs.0 },
        map unsubscribe (keep (λ n. not (known n)) t.attr_unsubs)
            ++ (subs.1
                ++ (out (
                      publish (topic_root ++ codes "/bridge/devices") (devices_payload devices)
                        true)
                    ∷ last.1)),
      )

  -- The old subscriptions are forgotten first, also where the rebuild then raises.
  unfoldable pub on_matter_connect : (made : Outcome (List Device)) → Tables → Result
  unfolding rebuild
  on_matter_connect made t =
      let (r, t', acts) = rebuild made (record t { attr_unsubs = [] }) in
      (r, t', subscribe_node_events ∷ acts)

  unfoldable pub publish_found : Tables → Option Device → Result
  unfolding state_act result_of
  publish_found t none = (ok tt, t, [])
  publish_found t (some d) = result_of t (state_act d)

  -- The event loop's call of a timer, which is then gone.
  unfoldable pub flush_state : ℤ → Tables → Result
  unfolding keep find publish_found drop_one
  flush_state n t =
      publish_found
        (record t {
          pending_state = keep (λ m. not (m == n)) t.pending_state;
          timers = drop_one n t.timers;
        })
        (find (λ d. d.node_id == n) t.devices)

-- A node event of the client.
pub record NodeEvent : Type 0 where
  pub node_id : ℤ
  pub endpoint_id : ℤ
  pub cluster_id : ℤ
  pub event_id : ℤ
  pub fields : Value

unfoldable pub publish_action : Tables → Device → Outcome (Option (Text × Text)) → Result
publish_action t d (raise x) = (raise x, t, [])
publish_action t d (ok none) = (ok tt, t, [])
publish_action t d (ok (some (prop, act))) =
    (ok tt, t, out (publish (state_topic d) (action_payload prop act) false) ∷ [])

module _ (pr : Printing) (events : SwitchEvent → ℤ) (switch : ℤ) where
  -- for the device that `devices.get` finds
  unfoldable pub react : NodeEvent → Tables → Option Device → Result
  unfolding action publish_action
  react e t none = (ok tt, t, [])
  react e t (some d) =
      publish_action t d
        (action pr events switch d.props e.endpoint_id e.cluster_id e.event_id e.fields)

  unfoldable pub on_node_event : NodeEvent → Tables → Result
  unfolding find react
  on_node_event e t = react e t (find (λ d. d.node_id == e.node_id) t.devices)
