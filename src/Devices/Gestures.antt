-- ===== src/Devices/Gestures.antt =====
-- What the events of one gesture on a button amount to on mqtt.
use matter_thread2mqtt.Prelude.{
  ℕ, suc, zero, ℤ, pos, Text, List, [], ◌∷◌, ◌++◌, Bool, true, false, Option, none, some, ◌≡◌, refl,
  ap, sym, ◌∙◌, eqb_list, ◌||◌, not, if◌then◌else◌, ◌==◌, int_eq, eqb, eqb_ℤ_iff, arith, nat_eq,
}
use matter_thread2mqtt.Python.{
  int, Value, null, num, dict, end, field, Outcome, ok, raise, codes, show_ℤ, get, truthy,
}
use matter_thread2mqtt.Python
use matter_thread2mqtt.Devices.{
  Kind, action_cap, SwitchEvent, switch_latched, initial_press, long_press, short_release,
  long_release, multi_press_complete, Printing, press_name, struct_field, press_name_of, event,
}

unfoldable pub rank : SwitchEvent → ℕ
rank switch_latched = 0
rank initial_press = 1
rank long_press = 2
rank short_release = 3
rank long_release = 4
rank multi_press_complete = 5

-- `n` presses and releases
unfoldable pub clicks : ℕ → List (SwitchEvent × Value)
clicks zero = []
clicks (suc n) = (initial_press, null) ∷ (short_release, null) ∷ clicks n

unfoldable pub strokes : ℕ → List (SwitchEvent × Value)
strokes zero = []
strokes (suc n) = (initial_press, null) ∷ strokes n

abbrev pub press_count : ℕ → Value
press_count n = dict (field (codes "1") (num (int (pos n))) end)

-- The events that the Matter specification has a button send for `n` short presses in a row, with
-- and without the multi-press feature and the release feature.
unfoldable pub gesture : (multi release : Bool) → ℕ → List (SwitchEvent × Value)
unfolding clicks strokes
gesture true release n = clicks n ++ (multi_press_complete, press_count n) ∷ []
gesture false true n = clicks n
gesture false false n = strokes n

unfoldable pub singles : ℕ → List Text
singles zero = []
singles (suc n) = codes "single" ∷ singles n

-- The actions to expect of it.
unfoldable pub announced : (multi : Bool) → ℕ → List Text
unfolding singles
announced true n = press_name (pos n) ∷ []
announced false n = singles n

abbrev pub add : Option Text → List Text → List Text
add none l = l
add (some s) l = s ∷ l

event_of : ℕ → SwitchEvent
event_of n =
    if eqb n 0
    then switch_latched
    else if eqb n 1
    then initial_press
    else if eqb n 2
    then long_press
    else if eqb n 3
    then short_release
    else if eqb n 4
    then long_release
    else multi_press_complete

event_of-rank : (e : SwitchEvent) → event_of (rank e) ≡ e
unfolding event_of rank
event_of-rank switch_latched = refl
event_of-rank initial_press = refl
event_of-rank long_press = refl
event_of-rank short_release = refl
event_of-rank long_release = refl
event_of-rank multi_press_complete = refl

by_rank : (a b : SwitchEvent) → rank a ≡ rank b → a ≡ b
by_rank a b h = sym (event_of-rank a) ∙ (ap event_of h ∙ event_of-rank b)

count_lem :
    (n : ℕ)
    → struct_field (press_count n) (pos 1) (codes "totalNumberOfPressesCounted") ≡ num (int (pos n))
unfolding struct_field get show_ℤ eqb_list
count_lem n = refl

count-truthy : (n : ℕ) → truthy (num (int (pos (suc n)))) ≡ true
unfolding truthy
count-truthy n = ground arith

module _ (pr : Printing) (ids : SwitchEvent → ℤ) where
  -- The actions that a list of events is published as.
  unfoldable pub report : Kind → List (SwitchEvent × Value) → Outcome (List Text)
  unfolding event
  report k [] = ok []
  report k ((e, v) ∷ es) =
      Python.◌>>=◌ (event pr ids k (ids e) v)
        (λ a. Python.◌>>=◌ (report k es) (λ rest. ok (add a rest)))

  module _ (distinct : (a b : SwitchEvent) → ids a ≡ ids b → rank a ≡ rank b) (latching : Bool)
      (positions max_presses : Value) where
    -- Comparing ids is comparing events.
    same : (a b : SwitchEvent) → (ids a == ids b) ≡ eqb (rank a) (rank b)
    same a b = ground (
      arith,
      ap (λ e. rank e),
      ap (λ e. ids e),
      distinct a b,
      eqb_ℤ_iff (ids a) (ids b),
      by_rank a b,
    )

    abbrev button : (multi long release : Bool) → Kind
    button multi long release = action_cap latching multi long release positions max_presses

    initial_press_lem :
        (multi long release : Bool) (v : Value)
        → event pr ids (button multi long release) (ids initial_press) v
          ≡ ok (if multi || release then none else some (codes "single"))
    unfolding event rank
    initial_press_lem true true true v = simp (same) refl
    initial_press_lem true true false v = simp (same) refl
    initial_press_lem true false true v = simp (same) refl
    initial_press_lem true false false v = simp (same) refl
    initial_press_lem false true true v = simp (same) refl
    initial_press_lem false true false v = simp (same) refl
    initial_press_lem false false true v = simp (same) refl
    initial_press_lem false false false v = simp (same) refl

    short_release_lem :
        (multi long release : Bool) (v : Value)
        → event pr ids (button multi long release) (ids short_release) v
          ≡ ok (if multi || not release then none else some (codes "single"))
    unfolding event rank
    short_release_lem true true true v = simp (same) refl
    short_release_lem true true false v = simp (same) refl
    short_release_lem true false true v = simp (same) refl
    short_release_lem true false false v = simp (same) refl
    short_release_lem false true true v = simp (same) refl
    short_release_lem false true false v = simp (same) refl
    short_release_lem false false true v = simp (same) refl
    short_release_lem false false false v = simp (same) refl

    multi_press_complete_lem :
        (long release : Bool) (n : ℕ)
        → event pr ids (button true long release) (ids multi_press_complete) (press_count (suc n))
          ≡ ok (some (press_name (pos (suc n))))
    unfolding event rank press_name_of
    multi_press_complete_lem true release n = simp (same, count_lem, count-truthy) refl
    multi_press_complete_lem false release n = simp (same, count_lem, count-truthy) refl

    report-none :
        (k : Kind) (e : SwitchEvent) (v : Value) (es : List (SwitchEvent × Value)) {l : List Text}
        → event pr ids k (ids e) v ≡ ok none
        → report k es ≡ ok l
        → report k ((e, v) ∷ es) ≡ ok l
    unfolding report
    report-none k e v es h r =
        ap (λ o. Python.◌>>=◌ o (λ a. Python.◌>>=◌ (report k es) (λ rest. ok (add a rest)))) h
        ∙ ap (λ o. Python.◌>>=◌ o (λ rest. ok (add none rest))) r

    report-some :
        (k : Kind) (e : SwitchEvent) (v : Value) (es : List (SwitchEvent × Value)) {l : List Text}
        {s : Text}
        → event pr ids k (ids e) v ≡ ok (some s)
        → report k es ≡ ok l
        → report k ((e, v) ∷ es) ≡ ok (s ∷ l)
    unfolding report
    report-some k e v es {s = s} h r =
        ap (λ o. Python.◌>>=◌ o (λ a. Python.◌>>=◌ (report k es) (λ rest. ok (add a rest)))) h
        ∙ ap (λ o. Python.◌>>=◌ o (λ rest. ok (add (some s) rest))) r

    report_multi :
        (long release : Bool) (n : ℕ) (more : List (SwitchEvent × Value)) {l : List Text}
        → report (button true long release) more ≡ ok l
        → report (button true long release) (clicks n ++ more) ≡ ok l
    unfolding clicks
    report_multi long release zero more h = h
    report_multi long release (suc n) more h =
        report-none _ _ _ _ (initial_press_lem true long release null) (
          report-none _ _ _ _ (short_release_lem true long release null)
            (report_multi long release n more h))

    report-clicks :
        (long : Bool) (n : ℕ) → report (button false long true) (clicks n) ≡ ok (singles n)
    unfolding clicks singles
    report-clicks long zero = unfold report in refl
    report-clicks long (suc n) =
        report-none _ _ _ _ (initial_press_lem false long true null)
          (report-some _ _ _ _ (short_release_lem false long true null) (report-clicks long n))

    report-strokes :
        (long : Bool) (n : ℕ) → report (button false long false) (strokes n) ≡ ok (singles n)
    unfolding strokes singles
    report-strokes long zero = unfold report in refl
    report-strokes long (suc n) =
        report-some _ _ _ _ (initial_press_lem false long false null) (report-strokes long n)

    -- If the switch events have different ids, then `n + 1` presses in a row are published once,
    -- whichever features the button has: as one action that names their number if it counts presses,
    -- and as `n + 1` times `single` if not.
    pub report-gesture :
        (multi long release : Bool) (n : ℕ)
        → report (button multi long release) (gesture multi release (suc n))
          ≡ ok (announced multi (suc n))
    unfolding gesture announced
    report-gesture true long release n =
        report_multi long release (suc n) _
          (report-some _ _ _ _ (multi_press_complete_lem long release n) (unfold report in refl))
    report-gesture false long true n = report-clicks long (suc n)
    report-gesture false long false n = report-strokes long (suc n)
