-- ===== src/Bridge/Provision.antt =====
-- `provision`: commissioning a device. The coroutine is cut at its awaits, between which other requests
-- run. What the subprocess, the file system and the Matter client answer are arguments.
use matter_thread2mqtt.Prelude.{
  ℤ, Text, List, [], ◌∷◌, ◌++◌, Bool, true, false, not, Option, none, some, ◌==◌, nat_eq, int_eq,
  text_eq, keep, find, is_empty, if◌then◌else◌,
}
use matter_thread2mqtt.Python
use matter_thread2mqtt.Python.{
  Runtime, int, Value, bool, num, str, Fields, Outcome, ok, raise, Exc, attribute_error, codes,
  strip, show_ℤ,
}
use matter_thread2mqtt.Devices.Names.{fallback_name}
use matter_thread2mqtt.Bridge.State.{Device}
use matter_thread2mqtt.Bridge.Thread.{
  CertProblem, DatasetError, Dataset, dataset, failed, thread_dataset,
}

-- Why a provision is refused, or fails.
pub data Refusal : Type 0 where
  expected_code not_connected already_running : Refusal

pub data Failure : Type 0 where
  certificates : CertProblem → Failure
  no_thread : DatasetError → Failure
  exception : Exc → Failure

-- The events on bridge/event, the calls of the client, the rebuild, and the error messages.
pub data Move : Type 0 where
  refuse : Refusal → Move
  step_start step_check_certs step_thread_dataset : (code : Text) → Move
  step_got_dataset step_pushed step_commissioning : (code : Text) → Move
  set_thread_operational_dataset : Text → Move
  commission_with_code : Text → Move
  step_commissioned : (code : Text) → (node : ℤ) → Move
  rebuild_table : Move
  step_done : (code : Text) → (node : ℤ) → (name : Text) → Move
  step_failed : (code : Text) → Failure → Move
  report : Failure → Move

-- What a running provision waits for.
pub data Waiting : Type 0 where
  for_ot_ctl for_dataset_push for_commissioning : Waiting

pub record Attempt : Type 0 where
  pub code : Text
  pub waiting : Waiting

-- `tasks` are the coroutines past their start that the event loop has yet to resume.
pub record Provisions : Type 0 where
  pub provisioning : Bool
  pub tasks : List Attempt

module _ (py : Runtime) where
  -- `payload.get("code")` as a text, where it is an int or a text
  unfoldable pub code_text : Option Value → Option Text
  unfolding show_ℤ
  code_text (some (num (int i))) = some (show_ℤ i)
  code_text (some (bool b)) = some (if b then codes "True" else codes "False")
  code_text (some (str s)) = some s
  code_text _ = none

  -- The code without white space around it, dashes and blanks; `none` where it is refused.
  unfoldable pub code_of : Option Text → Option Text
  unfolding keep strip
  code_of none = none
  code_of (some s) =
      if is_empty (strip py s)
      then none
      else some (keep (λ c. not (c == b' ')) (keep (λ c. not (c == b'-')) (strip py s)))

-- `except` and `finally`; `others` are the other tasks.
unfoldable pub fail : Text → Failure → List Attempt → Provisions × List Move
fail code why others =
    (record { provisioning = false; tasks = others }, step_failed code why ∷ report why ∷ [])

-- The first part, up to the first await.
unfoldable pub begin : Text → Option CertProblem → List Attempt → Provisions × List Move
unfolding fail
begin code (some problem) others =
    let (t, moves) = fail code (certificates problem) others in
    (t, step_start code ∷ step_check_certs code ∷ moves)
begin code none others = (
  record {
    provisioning = true;
    tasks = others ++ record { code = code; waiting = for_ot_ctl } ∷ [];
  },
  step_start code ∷ step_check_certs code ∷ step_thread_dataset code ∷ [],
)

unfoldable pub admit :
    Option Text → (connected : Bool) → Option CertProblem → Provisions → Provisions × List Move
unfolding begin
admit none connected problem t = (t, refuse expected_code ∷ [])
admit (some code) false problem t = (t, refuse not_connected ∷ [])
admit (some code) true problem t =
    if t.provisioning then (t, refuse already_running ∷ []) else begin code problem t.tasks

-- A provision request.
unfoldable pub provision :
    Runtime → Fields → (connected : Bool) → Option CertProblem → Provisions → Provisions × List Move
unfolding code_of code_text admit
provision py payload connected problem t =
    admit (code_of py (code_text py (Python.get (codes "code") payload))) connected problem t

-- What a resumed task gets: the result of the call that it waits for, whether the client is
-- connected then, and the devices that a rebuild finds.
pub record Answer : Type 0 where
  pub ot_ctl : Outcome (ℤ × Text)
  pub push : Outcome (Unit {0})
  pub commission : Outcome ℤ
  pub connected : Bool
  pub rebuild : Outcome (List Device)

-- Go on with the next call of the client, or fail for want of one.
unfoldable pub call_next :
    Text
    → Waiting
    → (moves calls : List Move) → (connected : Bool) → List Attempt
    → Provisions × List Move
unfolding fail
call_next code waiting moves calls false others =
    let (t, end_moves) = fail code (exception attribute_error) others in (t, moves ++ end_moves)
call_next code waiting moves calls true others = (
  record { provisioning = true; tasks = others ++ record { code = code; waiting = waiting } ∷ [] },
  moves ++ calls,
)

unfoldable pub with_dataset :
    Text → Dataset → (connected : Bool) → List Attempt → Provisions × List Move
unfolding fail call_next
with_dataset code (failed e) connected others = fail code (no_thread e) others
with_dataset code (dataset hex) connected others =
    call_next code for_dataset_push (step_got_dataset code ∷ [])
      (set_thread_operational_dataset hex ∷ []) connected others

-- The name of the new node in the table
unfoldable pub name_in : List Device → ℤ → Text
unfolding find fallback_name
name_in devices node = elim (find (λ d. d.node_id == node) devices) [
  | some d ↦ d.friendly_name
  | none ↦ fallback_name node
]

-- The end of the `try` block, after the commissioning, and `finally`.
unfoldable pub finish : Text → ℤ → Outcome (List Device) → List Attempt → Provisions × List Move
unfolding name_in fail
finish code node (raise e) others =
    let (t, moves) = fail code (exception e) others in
    (t, step_commissioned code node ∷ rebuild_table ∷ moves)
finish code node (ok devices) others = (
  record { provisioning = false; tasks = others },
  step_commissioned code node ∷ rebuild_table ∷ step_done code node (name_in devices node) ∷ [],
)

-- `rebuild` needs the client.
abbrev pub rebuilt : Bool → Outcome (List Device) → Outcome (List Device)
rebuilt true r = r
rebuilt false r = raise attribute_error

unfoldable pub after_ot_ctl :
    Runtime → Text → Outcome (ℤ × Text) → (connected : Bool) → List Attempt → Provisions × List Move
unfolding fail with_dataset thread_dataset
after_ot_ctl py code (raise e) connected others = fail code (exception e) others
after_ot_ctl py code (ok (returncode, output)) connected others =
    with_dataset code (thread_dataset py returncode output) connected others

unfoldable pub after_push :
    Text → Outcome (Unit {0}) → (connected : Bool) → List Attempt → Provisions × List Move
unfolding fail call_next
after_push code (raise e) connected others = fail code (exception e) others
after_push code (ok u) connected others =
    call_next code for_commissioning (step_pushed code ∷ step_commissioning code ∷ [])
      (commission_with_code code ∷ []) connected others

unfoldable pub after_commissioning :
    Text → Outcome ℤ → Outcome (List Device) → List Attempt → Provisions × List Move
unfolding fail finish
after_commissioning code (raise e) r others = fail code (exception e) others
after_commissioning code (ok node) r others = finish code node r others

unfoldable pub resume_at : Runtime → Text → Waiting → Answer → List Attempt → Provisions × List Move
unfolding after_ot_ctl after_push after_commissioning
resume_at py code for_ot_ctl a others = after_ot_ctl py code a.ot_ctl a.connected others
resume_at py code for_dataset_push a others = after_push code a.push a.connected others
resume_at py code for_commissioning a others =
    after_commissioning code a.commission (rebuilt a.connected a.rebuild) others

-- A task is resumed while the others still wait.
unfoldable pub resume : Runtime → Attempt → Answer → List Attempt → Provisions × List Move
unfolding resume_at
resume py task a others = resume_at py task.code task.waiting a others
