-- ===== src/System/Steps.antt =====
-- The process as one state with all that can happen next: on the mqtt thread a connection or a message,
-- on the event loop the start of a task, the connection to the Matter server, a callback of the client
-- or of a timer, or the answer that a provision waits for.
use matter_thread2mqtt.Prelude.{
  ℤ, Text, List, [], ◌∷◌, ◌++◌, Bool, true, false, Option, some, ◌≡◌, ◌&&◌, contains, int_eq,
  if◌then◌else◌,
}
use matter_thread2mqtt.Python.{Runtime, Value, dict, Outcome, ok, raise, attribute_error, codes}
use matter_thread2mqtt.Devices.{DataModel, SwitchEvent, Printing}
use matter_thread2mqtt.Bridge.{
  Device, Client, Effect, publish, availability_payload, pong_payload, topic_root, Tables, Result,
  rebuild, Task, ping, discover, provision, on_message,
}
use matter_thread2mqtt.Bridge.Provision
use matter_thread2mqtt.Bridge.Provision.{Provisions, Attempt, Answer, Move, rebuild_table, resume}
use matter_thread2mqtt.Bridge.Thread.{CertProblem}
use matter_thread2mqtt.Bridge.Responses
use matter_thread2mqtt.Bridge.Scheduling
use matter_thread2mqtt.Bridge.Scheduling.{Callback, handle, whole_after}

-- `bridge` is whether the global is set, `subscribed` whether the broker has the subscription,
-- `connected` whether the Matter client is there. `tasks` are the coroutines that `submit` has queued for
-- the event loop, `sent` is what the mqtt callbacks themselves have published.
pub record System : Type 0 where
  pub bridge : Bool
  pub subscribed : Bool
  pub connected : Bool
  pub tables : Tables
  pub provisions : Provisions
  pub tasks : List Task
  pub sent : List Effect

abbrev pub new_tables : Tables
new_tables = record { devices = []; attr_unsubs = []; pending_state = []; timers = [] }

abbrev pub new_provisions : Provisions
new_provisions = record { provisioning = false; tasks = [] }

abbrev pub initial : System
initial = record {
  bridge = false;
  subscribed = false;
  connected = false;
  tables = new_tables;
  provisions = new_provisions;
  tasks = [];
  sent = [];
}

-- `Bridge(client)`; its Matter starts without a client.
unfoldable pub new_bridge : System → System
new_bridge y = record {
  bridge = true;
  subscribed = y.subscribed;
  connected = false;
  tables = new_tables;
  provisions = new_provisions;
  tasks = [];
  sent = y.sent;
}

abbrev pub publishing : Effect → System → System
publishing e y = record y { sent = y.sent ++ e ∷ [] }

-- `on_connect`: the subscription, the retained state, and the bridge if there is none yet.
unfoldable pub on_connect : System → System
unfolding new_bridge
on_connect y =
    let u =
      publishing (publish (topic_root ++ codes "/bridge/state") (availability_payload true) true)
        (record y { subscribed = true }) in
    if y.bridge then u else new_bridge u

-- `Matter.submit`: the coroutine is queued for the event loop.
abbrev pub enqueue : Task → System → System
enqueue task y = record y { tasks = y.tasks ++ task ∷ [] }

-- What `on_message` does at last: the answer to a ping, or `bridge.matter.submit(...)`, where the
-- bridge may be None.
unfoldable pub submit : Task → System → Outcome System
submit ping y = ok (publishing (publish topic_root pong_payload false) y)
submit task y = if y.bridge then ok (enqueue task y) else raise attribute_error

-- What a waiting provision can get from outside: the output of ot-ctl, how the client's calls end.
pub record Reply : Type 0 where
  pub ot_ctl : Outcome (ℤ × Text)
  pub push : Outcome (Unit {0})
  pub commission : Outcome ℤ

-- `rebuild` as the provision sees it.
abbrev pub devices_of : Result → Outcome (List Device)
devices_of (ok u, t, acts) = ok t.devices
devices_of (raise e, t, acts) = raise e

-- Whether `self.rebuild()` was reached.
unfoldable pub is_rebuilding : List Move → Bool
is_rebuilding [] = false
is_rebuilding (rebuild_table ∷ moves) = true
is_rebuilding (m ∷ moves) = is_rebuilding moves

module _ (py : Runtime) (ids : DataModel) (client : Client) (pr : Printing)
    (events : SwitchEvent → ℤ) (switch : ℤ) where
  -- A task up to its first await. Requests leave this state alone; `nodes` are the client's made, and
  -- a payload that is no dict ends a provision at once.
  unfoldable pub started :
      Task → List Effect → (made : Outcome (List Device)) → Option CertProblem → System → System
  unfolding Responses.discover Provision.provision
  started discover s made problem y = record y {
    tables = (Responses.discover py ids client s y.connected made y.tables).1;
  }
  started (provision (dict fs)) s made problem y = record y {
    provisions = (Provision.provision py fs y.connected problem y.provisions).0;
  }
  started task s made problem y = y

  -- `rebuild` now
  abbrev pub rebuilding : List Effect → Outcome (List Device) → System → Result
  rebuilding s made y = rebuild py ids client s made y.tables

  -- A provision goes on, with the other ones waiting. Its `rebuild` changes the tables.
  unfoldable pub resumed :
      Attempt
      → List Attempt
      → Reply
      → List Effect
      → (made : Outcome (List Device)) → System
      → System
  unfolding resume rebuild is_rebuilding
  resumed task others reply s made y =
      let after =
        resume py task
          (record {
            ot_ctl = reply.ot_ctl;
            push = reply.push;
            commission = reply.commission;
            connected = y.connected;
            rebuild = devices_of (rebuilding s made y);
          })
          others in
      record y {
        provisions = after.0;
        tables = if is_rebuilding after.1 && y.connected then (rebuilding s made y).1 else y.tables;
      }

  -- The callbacks of the client's subscriptions, which need the client, and of timers that were set.
  abbrev pub CanRun : Callback py ids client pr events switch → System → Type 0
  CanRun (Scheduling.connected s made) y = ⊥
  CanRun Scheduling.disconnected y = ⊥
  CanRun (Scheduling.nodes_changed s made) y = y.connected ≡ true
  CanRun (Scheduling.attribute_updated n) y = y.connected ≡ true
  CanRun (Scheduling.timer_ran_out s n) y = contains y.tables.timers n ≡ true
  CanRun (Scheduling.node_event e) y = y.connected ≡ true

  -- What can happen next. The broker delivers messages to a subscriber only, and the event loop runs once
  -- there is a bridge.
  pub data Step (loads : Text → Option Value) (y : System) : System → Type 0 where
    mqtt_connected : Step loads y (on_connect y)
    mqtt_message :
        (topic raw : Text) (task : Task) (u : System)
        → y.subscribed ≡ true
        → on_message py loads topic raw ≡ some task
        → submit task y ≡ ok u
        → Step loads y u
    matter_connected :
        (s : List Effect) (made : Outcome (List Device))
        → y.bridge ≡ true
        → Step loads y (record y {
          connected = true;
          tables = (handle py ids client pr events switch (Scheduling.connected s made) y.tables).1;
        })
    matter_lost :
        y.bridge ≡ true
        → Step loads y (record y {
          connected = false;
          tables = (handle py ids client pr events switch Scheduling.disconnected y.tables).1;
        })
    called_back :
        (c : Callback py ids client pr events switch)
        → y.bridge ≡ true
        → CanRun c y
        → Step loads y (record y { tables = (handle py ids client pr events switch c y.tables).1 })
    task_started :
        (task : Task) (rest : List Task) (s : List Effect) (made : Outcome (List Device))
        (problem : Option CertProblem)
        → y.bridge ≡ true
        → y.tasks ≡ task ∷ rest
        → Step loads y (started task s made problem (record y { tasks = rest }))
    provision_resumed :
        (before after : List Attempt) (task : Attempt) (reply : Reply) (s : List Effect)
        (made : Outcome (List Device))
        → y.bridge ≡ true
        → y.provisions.tasks ≡ before ++ task ∷ after
        → Step loads y (resumed task (before ++ after) reply s made y)

  -- Whether each device has a subscription after a step, where there is a new client or new nodes.
  abbrev pub whole_then :
      {loads : Text → Option Value} {y u : System} → Step loads y u → Bool → Bool
  whole_then (matter_connected s made b) whole =
      whole_after py ids client pr events switch (Scheduling.connected s made) whole
  whole_then (called_back c b can) whole = whole_after py ids client pr events switch c whole
  whole_then mqtt_connected whole = whole
  whole_then (mqtt_message topic raw task u a b c) whole = whole
  whole_then (matter_lost b) whole = whole
  whole_then (task_started task rest s made problem b e) whole = whole
  whole_then (provision_resumed before after task reply s made b e) whole = whole

  -- The states of the process, in any order of events. The flag is false from a connection whose devices
  -- cannot all be made until a change of the nodes after which they can.
  pub data Reach (loads : Text → Option Value) : (whole : Bool) → System → Type 0 where
    start : Reach loads true initial
    next :
        {whole : Bool} {y u : System}
        → Reach loads whole y
        → (step : Step loads y u) → Reach loads (whole_then step whole) u
