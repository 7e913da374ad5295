-- ===== src/Bridge/TopicParts.antt =====
-- The parts of a topic, and what `on_message` makes of them.
use matter_thread2mqtt.Prelude.{
  Text, List, [], ◌∷◌, ◌++◌, Bool, true, false, ◌&&◌, Option, none, some, ◌≡◌, refl, ◌∙◌, ap, sym,
  ◌⊎◌, inl, inr, ◌==◌, text_eq, nat_eq, eqb_list, eqb_list_iff, contains, is_empty, arith,
  Bool-cases,
}
use matter_thread2mqtt.Python.{Value, codes, split, join}
use matter_thread2mqtt.Python.TextLaws.{split-append, join-split}
use matter_thread2mqtt.Devices.Names.{last_part, is_operation, reserved_names}
use matter_thread2mqtt.Bridge.{
  topic_root, Task, bridge_request, device_task, init, rest_of, is_bridge_request,
  is_device_request, is_only, task_for,
}

-- f"mt2m/{path}"
abbrev pub topic : Text → Text
topic path = topic_root ++ b'/' ∷ path

-- A name whose first two parts are those of the bridge's own requests.
abbrev pub poses : List Text → Bool
poses (a ∷ b ∷ ps) = a == codes "bridge" && b == codes "request"
poses _ = false

pub rest_of-topic : (path : Text) → rest_of (topic path) ≡ split b'/' path
unfolding rest_of
rest_of-topic path = refl

last_part-snoc : (ps : List Text) (x : Text) → last_part (ps ++ x ∷ []) ≡ x
unfolding last_part
last_part-snoc [] x = refl
last_part-snoc (p ∷ []) x = refl
last_part-snoc (p ∷ q ∷ ps) x = last_part-snoc (q ∷ ps) x

init-snoc : (ps : List Text) (x : Text) → init (ps ++ x ∷ []) ≡ ps
unfolding init
init-snoc [] x = refl
init-snoc (p ∷ []) x = refl
init-snoc (p ∷ q ∷ ps) x = ap (λ (l : List Text). p ∷ l) (init-snoc (q ∷ ps) x)

bridge_request-snoc :
    (ps : List Text) (x : Text) → poses ps ≡ false → is_bridge_request (ps ++ x ∷ []) ≡ false
unfolding is_bridge_request
bridge_request-snoc [] x h = refl
bridge_request-snoc (a ∷ []) x h = refl
bridge_request-snoc (a ∷ b ∷ []) x h = h
bridge_request-snoc (a ∷ b ∷ c ∷ ps) x h = h

bridge_request_of_poses : (ps : List Text) → poses ps ≡ false → is_bridge_request ps ≡ false
unfolding is_bridge_request
bridge_request_of_poses [] h = refl
bridge_request_of_poses (a ∷ []) h = refl
bridge_request_of_poses (a ∷ b ∷ []) h = refl
bridge_request_of_poses (a ∷ b ∷ c ∷ ps) h = h

only-snoc :
    (name : Text) (ps : List Text) (x : Text)
    → is_empty ps ≡ false
    → is_only name (ps ++ x ∷ []) ≡ false
unfolding is_only
only-snoc name [] x h = absurd (cc)
only-snoc name (p ∷ []) x h = refl
only-snoc name (p ∷ q ∷ ps) x h = refl

device_request-snoc :
    (ps : List Text) (x : Text)
    → is_empty ps ≡ false
    → is_device_request (ps ++ x ∷ []) ≡ is_operation x
unfolding is_device_request
device_request-snoc [] x h = absurd (cc)
device_request-snoc (p ∷ []) x h = unfold last_part in refl
device_request-snoc (p ∷ q ∷ ps) x h = ap is_operation (last_part-snoc (p ∷ q ∷ ps) x)

-- What becomes of a message on `mt2m/<name>/<op>` for a last part `op`.
abbrev pub handed_over : Option Value → (Value → Task) → Option Task
handed_over o f = elim o [ some v ↦ some (f v) | none ↦ none ]

set_or_get : (op : Text) → is_operation op ≡ true → (op ≡ codes "set") ⊎ (op ≡ codes "get")
unfolding is_operation
set_or_get op h = ground (arith, eqb_list_iff op (codes "set"), eqb_list_iff op (codes "get"))

pub split_operation : (op : Text) → is_operation op ≡ true → split b'/' op ≡ op ∷ []
unfolding split
split_operation op h = elim (set_or_get op h) [ inl e ↦ rw e refl | inr e ↦ rw e refl ]

pub pieces_of :
    (name op : Text)
    → split b'/' op ≡ op ∷ []
    → rest_of (topic (name ++ b'/' ∷ op)) ≡ split b'/' name ++ op ∷ []
pieces_of name op h =
    rest_of-topic (name ++ b'/' ∷ op)
    ∙ split-append b'/' name op
    ∙ ap (λ (l : List Text). split b'/' name ++ l) h

pub task_for-snoc :
    (ps : List Text) (op : Text) (o : Option Value)
    → is_empty ps ≡ false
    → poses ps ≡ false
    → is_operation op ≡ true
    → task_for (ps ++ op ∷ []) o ≡ handed_over o (device_task (join b'/' ps) op)
unfolding task_for
task_for-snoc ps op none h k e = refl
task_for-snoc ps op (some v) h k e = ground (
  arith,
  bridge_request-snoc ps op k,
  device_request-snoc ps op h,
  only-snoc (codes "ping") ps op h,
  only-snoc (codes "discover") ps op h,
  only-snoc (codes "provision") ps op h,
  last_part-snoc ps op,
  ap (join b'/') (init-snoc ps op),
)

pub task_for_other :
    (ps : List Text) (x : Text) (o : Option Value)
    → is_empty ps ≡ false
    → poses ps ≡ false
    → is_operation x ≡ false
    → task_for (ps ++ x ∷ []) o ≡ none
unfolding task_for
task_for_other ps x none h k e = refl
task_for_other ps x (some v) h k e = ground (
  arith,
  bridge_request-snoc ps x k,
  device_request-snoc ps x h,
  only-snoc (codes "ping") ps x h,
  only-snoc (codes "discover") ps x h,
  only-snoc (codes "provision") ps x h,
)

only_name : (n : Text) (ps : List Text) → is_only n ps ≡ true → join b'/' ps ≡ n
unfolding is_only join
only_name n [] h = absurd (cc)
only_name n (p ∷ []) h = (eqb_list_iff p n).0 h
only_name n (p ∷ q ∷ ps) h = absurd (cc)

only-split : (n name : Text) → (name == n) ≡ false → is_only n (split b'/' name) ≡ false
only-split n name h = elim (Bool-cases (is_only n (split b'/' name))) [
  | inr e ↦ e
  | inl e ↦
      ground
        (arith, eqb_list_iff name n, sym (join-split b'/' name) ∙ only_name n (split b'/' name) e)
]

device_request_last :
    (ps : List Text) → is_operation (last_part ps) ≡ false → is_device_request ps ≡ false
unfolding is_device_request
device_request_last [] h = refl
device_request_last (a ∷ []) h = refl
device_request_last (a ∷ b ∷ ps) h = h

pub task_for-split :
    (name : Text) (o : Option Value)
    → poses (split b'/' name) ≡ false
    → is_operation (last_part (split b'/' name)) ≡ false
    → contains reserved_names name ≡ false
    → task_for (split b'/' name) o ≡ none
unfolding task_for contains
task_for-split name none k e c = refl
task_for-split name (some v) k e c = ground (
  arith,
  bridge_request_of_poses (split b'/' name) k,
  device_request_last (split b'/' name) e,
  only-split (codes "ping") name,
  only-split (codes "discover") name,
  only-split (codes "provision") name,
)

abbrev pub posing : Text → Text
posing subject = codes "bridge/request/" ++ subject

pub posing_parts :
    (subject : Text)
    → split b'/' (posing subject) ≡ codes "bridge" ∷ codes "request" ∷ split b'/' subject
unfolding split
posing_parts subject = refl

pub task_for_posing :
    (ps : List Text) (o : Option Value)
    → is_empty ps ≡ false
    → task_for (codes "bridge" ∷ codes "request" ∷ ps) o
      ≡ handed_over o (bridge_request (join b'/' ps))
unfolding task_for eqb_list
task_for_posing [] o h = absurd (cc)
task_for_posing (p ∷ ps) none h = refl
task_for_posing (p ∷ ps) (some v) h = refl
