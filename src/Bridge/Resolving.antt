-- ===== src/Bridge/Resolving.antt =====
-- `resolve`: which device a name stands for.
use matter_thread2mqtt.Prelude.{
  Text, List, [], ◌∷◌, ◌++◌, Bool, true, not, Option, none, some, ◌≡◌, refl, ap, ◌==◌, text_eq, all,
  find, arith, Bool-cases, Option-cases, ◌⊎◌, inl, inr,
}
use matter_thread2mqtt.Python.{show_ℤ}
use matter_thread2mqtt.Bridge.{Device, is_text, resolve}

-- The first element of the list that passes the test.
pub record IsFirst (p : Device → Bool) (ds : List Device) (d : Device) : Type 0 where
  pub before : List Device
  pub after : List Device
  pub place : ds ≡ before ++ d ∷ after
  pub passes : p d ≡ true
  pub earlier_fail : all (λ x. not (p x)) before ≡ true

find-IsFirst :
    (p : Device → Bool) (ds : List Device) (d : Device) → find p ds ≡ some d → IsFirst p ds d
unfolding find
find-IsFirst p [] d h = ground arith
find-IsFirst p (x ∷ ds) d h = elim (Bool-cases (p x)) [
  | inl yes_x ↦ record {
    before = [];
    after = ds;
    place = ground arith;
    passes = ground arith;
    earlier_fail = refl;
  }
  | inr no_x ↦
      let f = find-IsFirst p ds d (ground arith) in
      record {
        before = x ∷ f.before;
        after = f.after;
        place = ap (λ (l : List Device). x ∷ l) f.place;
        passes = f.passes;
        earlier_fail = rw no_x f.earlier_fail;
      }
]

find-eq-none-all :
    (p : Device → Bool) (ds : List Device) → find p ds ≡ none → all (λ x. not (p x)) ds ≡ true
unfolding find
find-eq-none-all p [] h = refl
find-eq-none-all p (x ∷ ds) h = ground (arith, find-eq-none-all p ds)

abbrev pub by_name : Text → Device → Bool
by_name name d = d.friendly_name == name

abbrev pub by_unique_id : Text → Device → Bool
by_unique_id name d = is_text d.unique_id name

abbrev pub by_node_id : Text → Device → Bool
by_node_id name d = show_ℤ d.node_id == name

abbrev pub Nobody : (Device → Bool) → List Device → Type 0
Nobody p ds = all (λ d. not (p d)) ds ≡ true

-- What the answer to a name has to be.
abbrev pub Resolved : List Device → Text → Option Device → Type 0
Resolved ds name (some d) =
    IsFirst (by_name name) ds d
    ⊎ ((Nobody (by_name name) ds × IsFirst (by_unique_id name) ds d)
        ⊎ (Nobody (by_name name) ds
            × Nobody (by_unique_id name) ds
            × IsFirst (by_node_id name) ds d))
Resolved ds name none =
    Nobody (by_name name) ds × Nobody (by_unique_id name) ds × Nobody (by_node_id name) ds

-- A name stands for the first device that has it as its friendly name. Only if no device has, it
-- stands for the first one with that unique id, and only if there is none either, for the first one
-- whose printed node id it is. It stands for no device exactly if no device matches in any way.
pub resolve-Resolved : (ds : List Device) (name : Text) → Resolved ds name (resolve ds name)
unfolding resolve
resolve-Resolved ds name = elim (Option-cases (find (by_name name) ds)) [
  | inr (d, h) ↦ rw h (inl (find-IsFirst (by_name name) ds d h))
  | inl a ↦ elim (Option-cases (find (by_unique_id name) ds)) [
    | inr (d, h) ↦ rw a (
        rw h (
          inr
            (inl (find-eq-none-all (by_name name) ds a, find-IsFirst (by_unique_id name) ds d h))))
    | inl b ↦ elim (Option-cases (find (by_node_id name) ds)) [
      | inr (d, h) ↦ rw a (
          rw b (
            rw h (
              inr (
                inr (
                  find-eq-none-all (by_name name) ds a,
                  find-eq-none-all (by_unique_id name) ds b,
                  find-IsFirst (by_node_id name) ds d h,
                )))))
      | inl c ↦ rw a (
          rw b (
            rw c (
              find-eq-none-all (by_name name) ds a,
              find-eq-none-all (by_unique_id name) ds b,
              find-eq-none-all (by_node_id name) ds c,
            )))
    ]
  ]
]
