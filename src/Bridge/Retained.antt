-- ===== src/Bridge/Retained.antt =====
-- What mqtt keeps of the publications on retained topics, and the topics that the bridge retains.
use mathlib.Core.List.{append_cancel_left, append_cancel_right}
use matter_thread2mqtt.Prelude.{
  ℕ, Text, List, [], ◌∷◌, ◌++◌, map, Bool, true, false, Option, some, ◌≡◌, refl, ap, inl, inr,
  eqb_list, eqb_list_iff, contains, nat_eq, text_eq, int_eq, arith, Bool-cases, All, if◌then◌else◌,
}
use matter_thread2mqtt.Python.{codes}
use matter_thread2mqtt.Bridge.{
  Device, publish, Payload, availability_payload, topic_root, state_topic, Act, out, availability,
}

-- The retained message on a topic after these acts, if it was `old` before.
abbrev pub kept : Text → Option Payload → Act → Option Payload
kept topic old (out (publish t p true)) = if eqb_list t topic then some p else old
kept topic old a = old

unfoldable pub retained : Text → Option Payload → List Act → Option Payload
retained topic old [] = old
retained topic old (a ∷ acts) = retained topic (kept topic old a) acts

pub retained-append :
    (topic : Text) (old : Option Payload) (xs ys : List Act)
    → retained topic old (xs ++ ys) ≡ retained topic (retained topic old xs) ys
unfolding retained
retained-append topic old [] ys = refl
retained-append topic old (a ∷ xs) ys = retained-append topic (kept topic old a) xs ys

abbrev pub availability_topic : Device → Text
availability_topic d = state_topic d ++ codes "/availability"

abbrev pub devices_topic : Text
devices_topic = topic_root ++ codes "/bridge/devices"

availability_topic-injective :
    (d e : Device) → availability_topic d ≡ availability_topic e → d.friendly_name ≡ e.friendly_name
availability_topic-injective d e h =
    append_cancel_right d.friendly_name e.friendly_name (codes "/availability") (
      append_cancel_left (codes "mt2m/") (d.friendly_name ++ codes "/availability")
        (e.friendly_name ++ codes "/availability") h)

last_of : Text → ℕ
last_of [] = 0
last_of (c ∷ []) = c
last_of (c ∷ b ∷ s) = last_of (b ∷ s)

last_of-append : (s : Text) (c : ℕ) (u : Text) → last_of (s ++ c ∷ u) ≡ last_of (c ∷ u)
unfolding last_of
last_of-append [] c u = refl
last_of-append (x ∷ []) c u = refl
last_of-append (x ∷ y ∷ s) c u = last_of-append (y ∷ s) c u

-- The topic of the device table is no device's.
availability_topic_other : (d : Device) → eqb_list (availability_topic d) devices_topic ≡ false
unfolding last_of
availability_topic_other d =
    let e : last_of (availability_topic d) ≡ b'y' =
      last_of-append (state_topic d) b'/' (codes "availability") in
    elim (Bool-cases (eqb_list (availability_topic d) devices_topic)) [
      | inr other ↦ other
      | inl same ↦
          let f : last_of (availability_topic d) ≡ b's' =
            ap last_of ((eqb_list_iff (availability_topic d) devices_topic).0 same) in
          absurd (omega arith)
    ]

pub kept_other :
    (topic : Text) (old : Option Payload) (d : Device) (b : Bool)
    → eqb_list (availability_topic d) topic ≡ false
    → kept topic old (availability d b) ≡ old
kept_other topic old d b h = ground arith

pub kept_same :
    (old : Option Payload) (d : Device) (b : Bool)
    → kept (availability_topic d) old (availability d b) ≡ some (availability_payload b)
kept_same old d b = ground (arith, eqb_list_iff (availability_topic d) (availability_topic d))

-- None of these devices has the topic for its availability.
abbrev pub OthersThan : Text → List Device → Type 0
OthersThan topic ds = All (λ d. eqb_list (availability_topic d) topic ≡ false) ds

pub OthersThan-names :
    (d : Device) (ds : List Device)
    → contains (map (λ (e : Device). e.friendly_name) ds) d.friendly_name ≡ false
    → OthersThan (availability_topic d) ds
unfolding contains
OthersThan-names d [] h = tt
OthersThan-names d (e ∷ ds) h = (
  ground (
    arith,
    eqb_list_iff (availability_topic e) (availability_topic d),
    availability_topic-injective e d,
    eqb_list_iff d.friendly_name e.friendly_name,
  ),
  OthersThan-names d ds (ground arith),
)

pub devices_topic_free : (ds : List Device) → OthersThan devices_topic ds
devices_topic_free [] = tt
devices_topic_free (d ∷ ds) = (availability_topic_other d, devices_topic_free ds)
