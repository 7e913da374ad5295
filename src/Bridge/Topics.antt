-- ===== src/Bridge/Topics.antt =====
-- `on_message`: which topics are requests, and what is handed over to the matter loop.
use matter_thread2mqtt.Prelude.{
  Text, List, [], ◌∷◌, Bool, false, ◌&&◌, ◌||◌, Option, none, some, ◌==◌, text_eq, is_empty,
  if◌then◌else◌,
}
use matter_thread2mqtt.Python.{Runtime, Value, dict, end, codes, strip, split, join}
use matter_thread2mqtt.Devices.Names.{last_part, is_operation}

-- The calls that `on_message` makes.
pub data Task : Type 0 where
  ping discover : Task
  provision : Value → Task
  bridge_request : (subject : Text) → Value → Task
  device_task : (name op : Text) → Value → Task

-- `rest[:-1]`
unfoldable pub init : List Text → List Text
init [] = []
init (p ∷ []) = []
init (p ∷ q ∷ ps) = p ∷ init (q ∷ ps)

abbrev pub drop_first : List Text → List Text
drop_first [] = []
drop_first (p ∷ ps) = ps

-- `msg.topic.split("/")[1:]`
unfoldable pub rest_of : Text → List Text
unfolding split
rest_of topic = drop_first (split b'/' topic)

-- `len(rest) >= 3 and rest[:2] == ["bridge", "request"]`
unfoldable pub is_bridge_request : List Text → Bool
is_bridge_request (a ∷ b ∷ c ∷ ps) = a == codes "bridge" && b == codes "request"
is_bridge_request _ = false

-- `len(rest) >= 2 and rest[-1] in ("set", "get")`
unfoldable pub is_device_request : List Text → Bool
unfolding is_operation last_part
is_device_request (a ∷ b ∷ ps) = is_operation (last_part (a ∷ b ∷ ps))
is_device_request _ = false

-- `rest == [name]`
unfoldable pub is_only : Text → List Text → Bool
is_only name (p ∷ []) = p == name
is_only name _ = false

-- `"/".join(rest[2:])`
unfoldable pub subject_of : List Text → Text
unfolding join
subject_of (a ∷ b ∷ ps) = join b'/' ps
subject_of _ = []

-- The dispatch, for a topic that is a request.
unfoldable pub task_of : List Text → Value → Task
unfolding is_only is_bridge_request subject_of init last_part join
task_of rest payload =
    if is_only (codes "ping") rest
    then ping
    else if is_only (codes "discover") rest
    then discover
    else if is_only (codes "provision") rest
    then provision payload
    else if is_bridge_request rest
    then bridge_request (subject_of rest) payload
    else device_task (join b'/' (init rest)) (last_part rest) payload

unfoldable pub is_task : List Text → Bool
unfolding is_bridge_request is_device_request is_only
is_task rest =
    is_bridge_request rest
    || is_device_request rest
    || is_only (codes "ping") rest
    || is_only (codes "discover") rest
    || is_only (codes "provision") rest

-- The parts of a topic with the json payload, which is `none` where it does not parse.
unfoldable pub task_for : List Text → Option Value → Option Task
unfolding is_task task_of
task_for rest none = none
task_for rest (some payload) = if is_task rest then some (task_of rest payload) else none

module _ (py : Runtime) (loads : Text → Option Value) where
  -- An empty payload is an empty request; `none` is the ValueError of `json.loads`.
  unfoldable pub payload_of : Text → Option Value
  unfolding strip
  payload_of raw = if is_empty (strip py raw) then some (dict end) else loads (strip py raw)

  -- `none` if the message is ignored. `raw` is the decoded payload, `loads` is `json.loads`.
  unfoldable pub on_message : Text → Text → Option Task
  unfolding rest_of payload_of task_for
  on_message topic raw = task_for (rest_of topic) (payload_of raw)
