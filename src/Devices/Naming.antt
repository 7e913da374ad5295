-- ===== src/Devices/Naming.antt =====
-- Every friendly name passes `valid_name`, and what that means for its parts.
use Prim.Native.Nat.{◌<◌}
use matter_thread2mqtt.Prelude.{
  ℕ, ℤ, ◌+◌, Text, [], ◌∷◌, true, false, not, ◌≡◌, ◌↔◌, refl, ◌∙◌, ap, text_eq, nat_eq, eqb,
  eqb_iff, eqb_list, contains, all, arith, Bool-cases, inl, inr,
}
use matter_thread2mqtt.Python.{Runtime, Value, str, split, is_space}
use matter_thread2mqtt.Python.TextLaws.{is_empty-strip, all-show_ℤ, split_single}
use matter_thread2mqtt.Devices.Names.{
  last_part, is_operation, reserved_names, valid_label, valid_name, fallback_name, friendly_name_of,
}

contains_none : (c : ℕ) (s : Text) → all (λ x. not (eqb x c)) s ≡ true → contains s c ≡ false
unfolding contains
contains_none c [] h = refl
contains_none c (x ∷ s) h = ground (arith, eqb_iff c x, eqb_iff x c, contains_none c s)

digit-ne : (c d : ℕ) → d < 10 → c < 48 → not (eqb (b'0' + d) c) ≡ true
digit-ne c d h k = ground arith

-- A character below the digits, other than the minus sign, is not in a fallback name.
absent :
    (c : ℕ) (i : ℤ)
    → c < 48
    → not (eqb b'-' c) ≡ true
    → all (λ x. not (eqb x c)) (fallback_name i) ≡ true
unfolding fallback_name
absent c i h k = ground (arith, all-show_ℤ (λ x. not (eqb x c)) (λ d lt. digit-ne c d lt h) i k)

-- The five tests of `valid_name`, one by one.
pub valid_label_iff :
    (py : Runtime) (s : Text)
    → (valid_label py s ≡ true) ↔ (
        (all (is_space py) s ≡ false)
        × (contains reserved_names s ≡ false)
        × (contains s b'+' ≡ false)
        × (contains s b'#' ≡ false)
        × (is_operation (last_part (split b'/' s)) ≡ false))
unfolding valid_label
valid_label_iff py s = ground (arith, is_empty-strip py s)

not_reserved : (i : ℤ) → contains reserved_names (fallback_name i) ≡ false
unfolding contains fallback_name eqb_list
not_reserved i = refl

not_blank : (py : Runtime) (i : ℤ) → all (is_space py) (fallback_name i) ≡ false
unfolding is_space fallback_name
not_blank py i = refl

not_operation : (i : ℤ) → is_operation (fallback_name i) ≡ false
unfolding is_operation fallback_name eqb_list
not_operation i = refl

fallback_name-valid : (py : Runtime) (i : ℤ) → valid_label py (fallback_name i) ≡ true
fallback_name-valid py i = (valid_label_iff py (fallback_name i)).1 (
  not_blank py i,
  not_reserved i,
  contains_none b'+' (fallback_name i) (absent b'+' i (omega arith) refl),
  contains_none b'#' (fallback_name i) (absent b'#' i (omega arith) refl),
  ap (λ ps. is_operation (last_part ps))
        (split_single b'/' (fallback_name i) (absent b'/' i (omega arith) refl))
      ∙ unfold last_part in not_operation i,
)

-- Whatever label a node carries, the friendly name of its device passes `valid_name`.
pub friendly_name_of-valid :
    (py : Runtime) (label : Value) (node_id : ℤ)
    → valid_name py (str (friendly_name_of py label node_id)) ≡ true
unfolding valid_name friendly_name_of
friendly_name_of-valid py (str s) node_id = elim (Bool-cases (valid_label py s)) [
  | inl good ↦ rw good good
  | inr bad ↦ rw bad (fallback_name-valid py node_id)
]
friendly_name_of-valid py v node_id = fallback_name-valid py node_id
