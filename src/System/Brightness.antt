-- ===== src/System/Brightness.antt =====
-- From an mqtt message that sets a brightness to the command that the lamp gets.
use matter_thread2mqtt.Prelude.{
  ℤ, pos, Text, List, [], ◌∷◌, ◌++◌, Bool, true, false, ◌&&◌, not, Option, none, some, ◌≡◌, refl,
  ap, ◌∙◌, eqb_list, contains, keep, find, ltb_ℤ, text_eq, nat_eq, int_eq, arith, Bool-cases, inl,
  inr, if◌then◌else◌,
}
use matter_thread2mqtt.Python.{
  Runtime, int, Value, num, dict, bool, Fields, field, end, get, pop, ok, codes, split, round_num,
  times, num_lt,
}
use matter_thread2mqtt.Devices.{
  as_number, check_number, coerce, validate, settable, name, DataModel, level_cap, move_to_level,
  out_of_range, write, Cap,
}
use matter_thread2mqtt.Devices.Names.{is_operation}
use matter_thread2mqtt.Bridge.{
  Device, Client, Effect, send, publish, error_payload, invalid, topic_root, Message, Write,
  granted, refused, device_task, on_message, payload_of, device_request, resolve, prop_of, set,
  plan, settings, transition_of, transition_value, flag_of, flag_value, set_checked, set_with,
  send_all, collect, check_write, order_writes,
}
use matter_thread2mqtt.Bridge.Routing.{on_message-device}
use matter_thread2mqtt.Bridge.TopicParts.{topic, poses, handed_over}

-- {prop: i}
abbrev pub asked : Text → ℤ → Fields
asked prop i = field prop (num (int i)) end

-- A name that is no option of a set request.
abbrev pub is_property : Text → Bool
is_property prop =
    not (eqb_list prop (codes "transition")) && not (eqb_list prop (codes "with_on_off"))

asked-settings :
    (prop : Text) (i : ℤ) → is_property prop ≡ true → settings (asked prop i) ≡ asked prop i
unfolding pop
asked-settings prop i h = ground arith

asked-options :
    (py : Runtime) (prop : Text) (i : ℤ)
    → is_property prop ≡ true
    → (transition_value py (asked prop i) ≡ num (int (pos 0)))
      × (flag_value (asked prop i) ≡ bool true)
unfolding pop get as_number
asked-options py prop i h = (ground arith, ground arith)

-- The brightness of a lamp with these limits.
abbrev pub level_at : (ep : ℤ) → (own : Text) → (a b : ℤ) → Cap
level_at ep own a b = record { ep = ep; kind = level_cap (num (int a)) (num (int b)); prop = own }

module _ (py : Runtime) (dev : Device) (prop own : Text) (ep a b i : ℤ) where
  abbrev pub outside : Message
  outside = invalid prop (out_of_range (int i) (num (int a)) (num (int b)))

  abbrev pub inside : Bool
  inside = not (ltb_ℤ i a) && not (ltb_ℤ b i)

  abbrev pub level_write : Write
  level_write = record { cap = level_at ep own a b; value = num (int i) }

  check_write-level :
      prop_of dev.props prop ≡ some (level_at ep own a b)
      → check_write py dev prop (num (int i))
        ≡ ok (if inside then granted level_write else refused outside)
  unfolding check_write coerce validate check_number settable as_number
  check_write-level h = rw (h, check_write) (ground arith)

  order_one : order_writes py (level_write ∷ []) ≡ ok (granted (level_write ∷ []))
  unfolding order_writes name keep eqb_list contains find
  order_one = refl

  collect-level :
      prop_of dev.props prop ≡ some (level_at ep own a b)
      → collect py dev (asked prop i)
        ≡ ok (if inside then granted (level_write ∷ []) else refused outside)
  unfolding collect
  collect-level h = elim (Bool-cases inside) [
    | inl e ↦ rw (check_write-level h) (rw e refl)
    | inr e ↦ rw (check_write-level h) (rw e refl)
  ]

  plan-level :
      prop_of dev.props prop ≡ some (level_at ep own a b)
      → plan py dev (asked prop i)
        ≡ ok (if inside then granted (level_write ∷ []) else refused outside)
  unfolding plan
  plan-level h = elim (Bool-cases inside) [
    | inl e ↦ rw (collect-level h) (rw e order_one)
    | inr e ↦ rw (collect-level h) (rw e refl)
  ]

  -- What is done about the request: the command, or one error message.
  abbrev pub answer_of : Text → Effect
  answer_of request =
      if inside
      then send dev.node_id ep (move_to_level true i (pos 0))
      else publish topic_root (error_payload request outside) false

  module _ (client : Client)
      (calm : (h : List Effect) (e : Effect) → client.answer h e ≡ none) where
    set-options :
        (request : Text) (s : List Effect)
        → is_property prop ≡ true
        → set py client request dev (asked prop i) s
          ≡ set_with py client request dev (asked prop i) (int (pos 0)) true s
    unfolding set set_checked transition_of flag_of num_lt
    set-options request s h =
        let (t, w) = asked-options py prop i h in
        ap
          (λ (v : Value).
            set_checked py client request dev (settings (asked prop i)) v
              (flag_value (asked prop i)) (transition_of py v) (flag_of (flag_value (asked prop i)))
              s)
          t
        ∙ ap
            (λ (v : Value).
              set_checked py client request dev (settings (asked prop i)) (num (int (pos 0))) v
                (some (int (pos 0))) (flag_of v) s)
            w
        ∙ ap (λ (fs : Fields). set_with py client request dev fs (int (pos 0)) true s)
            (asked-settings prop i h)

    set_with-level :
        (request : Text) (s : List Effect)
        → prop_of dev.props prop ≡ some (level_at ep own a b)
        → set_with py client request dev (asked prop i) (int (pos 0)) true s
          ≡ (ok tt, s ++ answer_of request ∷ [])
    unfolding set_with send_all write round_num times
    set_with-level request s found = elim (Bool-cases inside) [
      | inl e ↦
          rw (plan-level found)
            (rw e (rw (calm s (send dev.node_id ep (move_to_level true i (pos 0)))) refl))
      | inr e ↦ rw (plan-level found) (rw e refl)
    ]

    set-level :
        (request : Text) (s : List Effect)
        → is_property prop ≡ true
        → prop_of dev.props prop ≡ some (level_at ep own a b)
        → set py client request dev (asked prop i) s ≡ (ok tt, s ++ answer_of request ∷ [])
    set-level request s h found = set-options request s h ∙ set_with-level request s found

    device_request-level :
        (ids : DataModel) (devices : List Device) (target : Text) (s : List Effect)
        → is_property prop ≡ true
        → resolve devices target ≡ some dev
        → prop_of dev.props prop ≡ some (level_at ep own a b)
        → device_request py ids client true devices target (codes "set") (dict (asked prop i)) s
          ≡ (ok tt, s ++ answer_of (target ++ (codes "/" ++ codes "set")) ∷ [])
    unfolding device_request eqb_list
    device_request-level ids devices target s h known found =
        rw known (rw (set-level (target ++ (codes "/" ++ codes "set")) s h found) refl)

    -- An integer for a property of a lamp that is a brightness with integer limits, by mqtt: a message
    -- on mt2m/<name>/set whose payload is {<property>: <number>}, where the device that `name` resolves
    -- to has the property and the Matter client does not fail, ends with exactly one effect. If the
    -- number lies within the limits, that is MoveToLevelWithOnOff with this level, without a transition,
    -- to the endpoint of the property on the device's node. Otherwise it is the error message that says
    -- so, and nothing is sent to the device.
    pub message-level :
        (ids : DataModel) (loads : Text → Option Value) (devices : List Device) (target raw : Text)
        (s : List Effect)
        → poses (split b'/' target) ≡ false
        → payload_of py loads raw ≡ some (dict (asked prop i))
        → is_property prop ≡ true
        → resolve devices target ≡ some dev
        → prop_of dev.props prop ≡ some (level_at ep own a b)
        → (on_message py loads (topic (target ++ b'/' ∷ codes "set")) raw
            ≡ some (device_task target (codes "set") (dict (asked prop i))))
          × (device_request py ids client true devices target (codes "set") (dict (asked prop i)) s
              ≡ (ok tt, s ++ answer_of (target ++ (codes "/" ++ codes "set")) ∷ []))
    unfolding is_operation eqb_list
    message-level ids loads devices target raw s free payload h known found = (
      on_message-device py loads target (codes "set") raw free refl
          ∙ ap (λ o. handed_over o (device_task target (codes "set"))) payload,
      device_request-level ids devices target s h known found,
    )
