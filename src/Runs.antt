-- ===== src/Runs.antt =====
-- The theorems on buttons, callbacks, provisioning and the reset script, at concrete data.
use matter_thread2mqtt.Prelude.{
  ℕ, ℤ, pos, negsuc, Text, List, [], ◌∷◌, ◌++◌, ap, true, false, ◌&&◌, none, some, ◌≡◌, ◌↔◌, ◌≤◌,
  refl, eqb, contains, int_eq, drop_while, keep, if◌then◌else◌, eqb_list,
}
use matter_thread2mqtt.Python.{
  raise, client_error, ok, codes, str, Value, dict, get, Fields, end, field, strip, splitlines,
}
use matter_thread2mqtt.Devices.{SwitchEvent, action_cap, press_name}
use matter_thread2mqtt.Devices.Gestures.{rank, gesture, announced, report, report-gesture}
use matter_thread2mqtt.Bridge.{Tables}
use matter_thread2mqtt.Bridge.Scheduling.{
  IsSound, connected, attribute_updated, handle, Reach, start, next, Reach-IsSound, burst,
  burst-timers,
}
use matter_thread2mqtt.Bridge.Provision.{Provisions, provision}
use matter_thread2mqtt.Bridge.Thread.{thread_dataset, first_dataset, dataset}
use matter_thread2mqtt.Bridge.Provision.{Answer, Move, code_of, code_text}
use matter_thread2mqtt.Bridge.Lifecycle.{provisioned, endings, idle_table, provision-Ends}
use matter_thread2mqtt.Bridge.Story.{chapter_of, opening, over}
use matter_thread2mqtt.Python
use matter_thread2mqtt.Bridge.Commissioning.{IsExclusive, Reach-IsExclusive}
use matter_thread2mqtt.Bridge.Commissioning
use matter_thread2mqtt.Bridge.Datasets.{Printed, thread_dataset-Printed}
use matter_thread2mqtt.Reset.{Port, main}
use matter_thread2mqtt.Reset.Strap.{
  Clean, closed, holds_reset, broken_at, Boots, main-Clean, main-status,
}
use matter_thread2mqtt.Samples.{py, ids, calm, number, lamp, printing}

abbrev switch_events : SwitchEvent → ℤ
unfolding rank
switch_events e = pos (rank e)

magnitude : ℤ → ℕ
magnitude (pos n) = n
magnitude (negsuc n) = n

report-gesture_example :
    report printing switch_events
      (action_cap false true false true (number 2) (number 3))
      (gesture true true 3)
    ≡ ok (announced true 3)
unfolding rank switch_events magnitude
report-gesture_example =
    report-gesture printing switch_events (λ a b h. ap magnitude h) false (number 2) (number 3) true
      false true 2

triple_press : announced true 3 ≡ codes "triple" ∷ []
unfolding announced press_name
triple_press = refl

-- The lamp is found, reports twice, and the first publication is due.
abbrev seen : Tables
unfolding handle
seen =
    (handle py ids calm printing switch_events (pos 59) (connected [] (ok (lamp ∷ [])))
      (record { devices = []; attr_unsubs = []; pending_state = []; timers = [] })).1

abbrev changed : Tables
unfolding handle seen
changed = (handle py ids calm printing switch_events (pos 59) (attribute_updated (pos 7)) seen).1

changed-Reach : Reach py ids calm printing switch_events (pos 59) true changed
unfolding changed seen
changed-Reach = next (next start (connected [] (ok (lamp ∷ []))) tt) (attribute_updated (pos 7)) tt

Reach-IsSound_example : IsSound true changed
Reach-IsSound_example =
    Reach-IsSound py ids calm printing switch_events (pos 59) true changed changed-Reach

burst-timers_example :
    (burst 3 (pos 9) changed).timers
    ≡ (if contains changed.timers (pos 9) then changed.timers else changed.timers ++ pos 9 ∷ [])
burst-timers_example = burst-timers 2 (pos 9) true changed Reach-IsSound_example

-- A chip that lands in download mode once and then boots.
abbrev stubborn : Port
stubborn = record {
  opens = true;
  cut = λ n. none;
  chunks = λ n.
      if eqb n 1
      then codes "ESP-ROM: waiting " ∷ codes "for download" ∷ []
      else codes "rst:0x1" ∷ [];
}

-- It is unplugged in the second attempt, while the reset is held.
abbrev unplugged : Port
unplugged = record stubborn { cut = λ n. if eqb n 2 then some 3 else none }

main-Clean_example :
    Clean
      (main unplugged 3).0
      (closed true true)
      (closed false (true && holds_reset (broken_at unplugged 1 3)))
main-Clean_example = main-Clean unplugged 3 true true

main-status_example :
    (((main stubborn 3).1 ≡ 0) ↔ ((stubborn.opens ≡ true) × Boots stubborn 1 3))
    × ((main stubborn 3).1 ≤ 1)
main-status_example = main-status stubborn 3

-- A provision that waits for ot-ctl when a second request comes.
abbrev code_payload : Fields
code_payload = field (codes "code") (str (codes "3497-011-2332")) end

abbrev idle_provisions : Provisions
idle_provisions = record { provisioning = false; tasks = [] }

abbrev waiting_provisions : Provisions
unfolding provision
waiting_provisions = (provision py code_payload true none idle_provisions).0

abbrev refused_provisions : Provisions
unfolding provision
refused_provisions = (provision py code_payload true none waiting_provisions).0

refused_provisions-Reach : Commissioning.Reach py refused_provisions
unfolding waiting_provisions refused_provisions
refused_provisions-Reach =
    Commissioning.next
      (Commissioning.next Commissioning.start (Commissioning.requested code_payload true none))
      (Commissioning.requested code_payload true none)

Reach-IsExclusive_example : IsExclusive refused_provisions
Reach-IsExclusive_example = Reach-IsExclusive py refused_provisions refused_provisions-Reach

-- What ot-ctl prints, with the line ends of its console.
abbrev printed : Text
printed =
    codes "  0e080000000000010000000300001035" ++ (0x0D ∷ 0x0A ∷ codes "Done" ++ 0x0D ∷ 0x0A ∷ [])

printed_dataset :
    thread_dataset py (pos 0) printed ≡ dataset (codes "0e080000000000010000000300001035")
unfolding thread_dataset first_dataset splitlines strip drop_while
printed_dataset = refl

thread_dataset-Printed_example : Printed py (pos 0) printed (thread_dataset py (pos 0) printed)
thread_dataset-Printed_example = thread_dataset-Printed py (pos 0) printed

abbrev dump_payload : Value
dump_payload = dict (field (codes "device") (str (codes "desk/lamp")) end)

-- ot-ctl prints a dataset, but the device does not answer.
abbrev silent : Answer
silent = record {
  ot_ctl = ok (pos 0, printed);
  push = ok tt;
  commission = raise (client_error 5);
  connected = true;
  rebuild = ok [];
}

abbrev ended_provision : Provisions × List Move
ended_provision = provisioned py code_payload none silent silent silent

abbrev silent_code : Text
silent_code = codes "34970112332"

provision-Ends_example :
    (ended_provision.0 ≡ idle_table)
    × (endings ended_provision.1 ≡ 1)
    × (chapter_of silent_code opening ended_provision.1 ≡ over)
unfolding code_of code_text Python.get eqb_list strip keep drop_while
provision-Ends_example = provision-Ends py code_payload none silent_code refl silent silent silent
