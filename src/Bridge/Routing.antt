-- ===== src/Bridge/Routing.antt =====
-- Which mqtt topics `on_message` takes for requests: those of devices reach their device, and what
-- the bridge publishes for a device comes back to it and is ignored.
use matter_thread2mqtt.Prelude.{
  ℤ, Text, ◌∷◌, ◌++◌, true, false, Option, none, ◌≡◌, refl, ◌∙◌, ap, text_eq, nat_eq, eqb_list,
}
use matter_thread2mqtt.Python.{Runtime, Value, str, codes, split}
use matter_thread2mqtt.Python.TextLaws.{split-ne-nil, join-split}
use matter_thread2mqtt.Devices.Names.{is_operation, valid_label, valid_name, friendly_name_of}
use matter_thread2mqtt.Devices.Naming.{valid_label_iff, friendly_name_of-valid}
use matter_thread2mqtt.Bridge.{bridge_request, device_task, payload_of, task_for, on_message}
use matter_thread2mqtt.Bridge.TopicParts.{
  topic, poses, handed_over, posing, pieces_of, posing_parts, rest_of-topic, split_operation,
  task_for-snoc, task_for-split, task_for_other, task_for_posing,
}

module _ (py : Runtime) (loads : Text → Option Value) where
  -- A message on `mt2m/<name>/set` or `mt2m/<name>/get`, for any name whose first two parts are not
  -- `bridge` and `request`, is handed over as a request to exactly that name, with the json payload;
  -- it is dropped only if the payload is no json.
  pub on_message-device :
      (name op raw : Text)
      → poses (split b'/' name) ≡ false
      → is_operation op ≡ true
      → on_message py loads (topic (name ++ b'/' ∷ op)) raw
        ≡ handed_over (payload_of py loads raw) (device_task name op)
  unfolding on_message
  on_message-device name op raw h k =
      ap (λ ps. task_for ps (payload_of py loads raw)) (pieces_of name op (split_operation op k))
      ∙ task_for-snoc (split b'/' name) op (payload_of py loads raw) (split-ne-nil b'/' name) h k
      ∙ ap (λ n. handed_over (payload_of py loads raw) (device_task n op)) (join-split b'/' name)

  valid_ignored :
      (name raw : Text)
      → valid_label py name ≡ true
      → poses (split b'/' name) ≡ false
      → (on_message py loads (topic name) raw ≡ none)
        × (on_message py loads (topic (name ++ b'/' ∷ codes "availability")) raw ≡ none)
  unfolding on_message
  valid_ignored name raw h k =
      let (_, c, _, _, e) = (valid_label_iff py name).0 h in
      (
        ap (λ ps. task_for ps (payload_of py loads raw)) (rest_of-topic name)
            ∙ task_for-split name (payload_of py loads raw) k e c,
        ap (λ ps. task_for ps (payload_of py loads raw))
              (pieces_of name (codes "availability") (unfold split in refl))
            ∙ task_for_other (split b'/' name) (codes "availability") (payload_of py loads raw)
                (split-ne-nil b'/' name) k (unfold is_operation eqb_list in refl),
      )

  -- Whatever label a node carries: if the first two parts of its device's friendly name are not
  -- `bridge` and `request`, then what the bridge publishes as the device's state and availability is
  -- ignored when it comes back on the bridge's own subscription.
  pub on_message-own_topics :
      (label : Value) (node_id : ℤ) (raw : Text)
      → poses (split b'/' (friendly_name_of py label node_id)) ≡ false
      → (on_message py loads (topic (friendly_name_of py label node_id)) raw ≡ none)
        × (on_message py loads
              (topic (friendly_name_of py label node_id ++ b'/' ∷ codes "availability"))
              raw
            ≡ none)
  unfolding valid_name
  on_message-own_topics label node_id raw h =
      valid_ignored (friendly_name_of py label node_id) raw
        (friendly_name_of-valid py label node_id) h

  -- The hypothesis is needed: where a label `bridge/request/<subject>` passes `valid_name`, it is the
  -- friendly name, and the state that the bridge publishes for the device, if its payload is
  -- json, is taken for a bridge request of that subject.
  pub on_message-posing :
      (subject raw : Text) (node_id : ℤ)
      → valid_name py (str (posing subject)) ≡ true
      → (friendly_name_of py (str (posing subject)) node_id ≡ posing subject)
        × (on_message py loads (topic (posing subject)) raw
            ≡ handed_over (payload_of py loads raw) (bridge_request subject))
  unfolding friendly_name_of on_message
  on_message-posing subject raw node_id h = (
    rw h refl,
    ap (λ ps. task_for ps (payload_of py loads raw))
          (rest_of-topic (posing subject) ∙ posing_parts subject)
        ∙ task_for_posing (split b'/' subject) (payload_of py loads raw) (split-ne-nil b'/' subject)
        ∙ ap (λ n. handed_over (payload_of py loads raw) (bridge_request n))
            (join-split b'/' subject),
  )
