-- ===== src/Nodes/Basics.antt =====
-- What the loop over `BASIC_INFO_FIELDS` leaves in the information of a device.
use matter_thread2mqtt.Prelude.{
  ℤ, Text, List, [], ◌∷◌, map, Bool, true, false, not, ◌&&◌, Option, none, some, ◌≡◌, refl, ◌∙◌,
  contains, eqb_list, eqb_list_iff, nat_eq, text_eq, arith, All,
}
use matter_thread2mqtt.Python.{Value, Fields, get}
use matter_thread2mqtt.Nodes.{Cluster, find_key, put_field, with_basic}
use matter_thread2mqtt.Nodes.Entries.{get-put_field, get-put_field_same}

abbrev pub keys : List (ℤ × Text) → List Text
keys rows = map (λ (r : ℤ × Text). r.1) rows

get-row :
    (k : Text) (found : Option Value) (key : Text) (info : Fields)
    → eqb_list key k ≡ false
    → get k (elim found [ none ↦ info | some v ↦ put_field key v info ]) ≡ get k info
get-row k none key info h = refl
get-row k (some v) key info h = get-put_field k key v info h

-- The rows change their own keys only.
pub get-with_basic :
    (k : Text) (basic : Cluster) (rows : List (ℤ × Text)) (info : Fields)
    → contains (keys rows) k ≡ false
    → get k (with_basic basic rows info) ≡ get k info
unfolding with_basic contains
get-with_basic k basic [] info h = refl
get-with_basic k basic ((aid, key) ∷ rows) info h =
    let other : eqb_list key k ≡ false = ground (arith, eqb_list_iff key k) in
    let rest : contains (keys rows) k ≡ false = ground (arith) in
    get-with_basic k basic rows _ rest ∙ get-row k (find_key aid basic) key info other

-- The key of a row that is new is there if the attribute is, with its value.
get-row_same :
    (found : Option Value) (key : Text) (info : Fields)
    → get key info ≡ none
    → get key (elim found [ none ↦ info | some v ↦ put_field key v info ]) ≡ found
get-row_same none key info h = h
get-row_same (some v) key info h = get-put_field_same key v info

-- No key comes twice.
abbrev pub are_apart : List (ℤ × Text) → Bool
are_apart [] = true
are_apart ((aid, key) ∷ rows) = not (contains (keys rows) key) && are_apart rows

abbrev pub IsNew : Fields → (ℤ × Text) → Type 0
IsNew info r = get r.1 info ≡ none

row-IsNew :
    (found : Option Value) (key : Text) (info : Fields) (rows : List (ℤ × Text))
    → contains (keys rows) key ≡ false
    → All (IsNew info) rows
    → All (IsNew (elim found [ none ↦ info | some v ↦ put_field key v info ])) rows
unfolding contains
row-IsNew found key info [] h hs = tt
row-IsNew found key info ((aid, k) ∷ rows) h (new, hs) =
    let other : eqb_list key k ≡ false = ground (arith, eqb_list_iff key k, eqb_list_iff k key) in
    let rest : contains (keys rows) key ≡ false = ground (arith) in
    (get-row k found key info other ∙ new, row-IsNew found key info rows rest hs)

-- The key of the row is there if the attribute is, with its value.
abbrev pub IsRead : Cluster → Fields → (ℤ × Text) → Type 0
IsRead basic info r = get r.1 info ≡ find_key r.0 basic

pub with_basic-IsRead :
    (basic : Cluster) (rows : List (ℤ × Text)) (info : Fields)
    → are_apart rows ≡ true
    → All (IsNew info) rows
    → All (IsRead basic (with_basic basic rows info)) rows
unfolding with_basic
with_basic-IsRead basic [] info h hs = tt
with_basic-IsRead basic ((aid, key) ∷ rows) info h (new, hs) =
    let once : contains (keys rows) key ≡ false = ground (arith) in
    let rest : are_apart rows ≡ true = ground (arith) in
    (
      get-with_basic key basic rows _ once ∙ get-row_same (find_key aid basic) key info new,
      with_basic-IsRead basic rows _ rest (row-IsNew (find_key aid basic) key info rows once hs),
    )

-- Other keys leave the rows as they are.
pub put_field-IsRead :
    (basic : Cluster) (rows : List (ℤ × Text)) (k : Text) (v : Value) (info : Fields)
    → contains (keys rows) k ≡ false
    → All (IsRead basic info) rows
    → All (IsRead basic (put_field k v info)) rows
unfolding contains
put_field-IsRead basic [] k v info h hs = tt
put_field-IsRead basic ((aid, key) ∷ rows) k v info h (read, hs) =
    let other : eqb_list k key ≡ false = ground (arith, eqb_list_iff key k, eqb_list_iff k key) in
    let rest : contains (keys rows) k ≡ false = ground (arith) in
    (get-put_field key k v info other ∙ read, put_field-IsRead basic rows k v info rest hs)
