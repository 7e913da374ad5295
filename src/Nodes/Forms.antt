-- ===== src/Nodes/Forms.antt =====
-- The parts of the information of a device have their documented form.
use matter_thread2mqtt.Prelude.{
  ℤ, Text, List, [], ◌∷◌, Bool, true, false, ◌≡◌, refl, ap, ◌∙◌, inl, inr, contains, eqb_list,
  nat_eq, text_eq, arith, All, All-weaken,
}
use matter_thread2mqtt.Python.{Value, dict, Fields, end, field, get, codes, show_ℤ}
use matter_thread2mqtt.Devices.{Cap}
use matter_thread2mqtt.Nodes.{
  Visit, put_field, texts, objects, definition_of, text_or_null, endpoints_from, group_entry,
}
use matter_thread2mqtt.Nodes.Shapes.{
  Shape, text, nullable, either, listing, conforms, has_entries, all_values, feature_shape,
  group_shape, definition_shape, endpoint_shape,
}
use matter_thread2mqtt.Nodes.Entries.{IsEntry}
use matter_thread2mqtt.Nodes.Reached.{IsSingle, Advertised}

listed_texts : (ts : List Text) → conforms (listing text) (texts ts) ≡ true
unfolding conforms
listed_texts [] = refl
listed_texts (t ∷ ts) = listed_texts ts

listed_objects :
    (s : Shape) (es : List Fields)
    → All (λ e. conforms s (dict e) ≡ true) es
    → conforms (listing s) (objects es) ≡ true
unfolding conforms
listed_objects s [] h = refl
listed_objects s (e ∷ es) (h, hs) = ground (arith, listed_objects s es hs)

entry-conforms : (c : Cap) (e : Fields) → IsEntry c e → conforms feature_shape (dict e) ≡ true
unfolding conforms has_entries
entry-conforms c e h =
    ground (arith, h.property, h.bits, h.endpoint, h.titled.1, h.typed.1, h.typed.2)

single-conforms :
    (props : List (Text × Cap)) (e : Fields)
    → IsSingle props e
    → conforms feature_shape (dict e) ≡ true
single-conforms props e (c, h, i) = entry-conforms c e i

group-conforms :
    (ep : ℤ) (light : Bool) (es : List Fields)
    → All (λ e. conforms feature_shape (dict e) ≡ true) es
    → conforms group_shape (dict (group_entry ep light es)) ≡ true
unfolding conforms has_entries group_entry get eqb_list contains
group-conforms ep true es h = ground (arith, listed_objects feature_shape es h)
group-conforms ep false es h = ground (arith, listed_objects feature_shape es h)

pub advertised-conforms :
    (props : List (Text × Cap)) (e : Fields)
    → Advertised props e
    → conforms (either feature_shape group_shape) (dict e) ≡ true
unfolding conforms
advertised-conforms props e (inl s) = ground (arith, single-conforms props e s)
advertised-conforms props e (inr (ep, light, es, h, ss)) =
    let g : conforms group_shape (dict e) ≡ true =
      ap (λ f. conforms group_shape (dict f)) h
      ∙ group-conforms ep light es (
          All-weaken (IsSingle props) (λ e. conforms feature_shape (dict e) ≡ true) es
            (single-conforms props) ss) in
    ground arith

-- Each endpoint is one of the documented form, and stays in the table.
put_field-conforms :
    (s : Shape) (k : Text) (v : Value) (fs : Fields)
    → conforms s v ≡ true
    → all_values (conforms s) fs ≡ true
    → all_values (conforms s) (put_field k v fs) ≡ true
unfolding put_field
put_field-conforms s k v end h hs = ground arith
put_field-conforms s k v (field j w fs) h hs = ground (arith, put_field-conforms s k v fs h)

endpoint-conforms :
    (ts us : List Text)
    → conforms endpoint_shape
        (dict (field (codes "device_types") (texts ts) (field (codes "clusters") (texts us) end)))
      ≡ true
unfolding conforms has_entries get eqb_list
endpoint-conforms ts us = ground (arith, listed_texts ts, listed_texts us)

pub endpoints_from-conforms :
    (vs : List Visit) (fs : Fields)
    → all_values (conforms endpoint_shape) fs ≡ true
    → all_values (conforms endpoint_shape) (endpoints_from fs vs) ≡ true
unfolding endpoints_from
endpoints_from-conforms [] fs h = h
endpoints_from-conforms (v ∷ vs) fs h = endpoints_from-conforms vs _ (
    put_field-conforms endpoint_shape (show_ℤ v.group.ep) _ fs
      (endpoint-conforms v.types v.clusters) h)

text_or_null-conforms : (t : Text) → conforms (nullable text) (text_or_null t) ≡ true
unfolding conforms
text_or_null-conforms [] = refl
text_or_null-conforms (c ∷ t) = refl

pub definition-conforms :
    (info : Fields) (ts : Text) (ota : Bool) (es : List Fields)
    → All (λ e. conforms (either feature_shape group_shape) (dict e) ≡ true) es
    → conforms definition_shape (dict (definition_of info (text_or_null ts) ota es)) ≡ true
unfolding conforms has_entries definition_of get eqb_list
definition-conforms info ts ota es h =
    ground (arith, text_or_null-conforms ts, listed_objects (either feature_shape group_shape) es h)
