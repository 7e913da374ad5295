-- ===== src/Bridge/Commissioning.antt =====
-- Provisioning: one at a time, and the flag that says so.
use matter_thread2mqtt.Prelude.{
  List, [], ◌∷◌, ◌++◌, Bool, true, false, Option, none, some, ◌≡◌, refl, sym, ◌∙◌, arith, ℤ, Text,
}
use matter_thread2mqtt.Python.{Runtime, Fields, Outcome, ok, raise}
use matter_thread2mqtt.Bridge.Provision.{
  Move, Waiting, for_ot_ctl, for_dataset_push, for_commissioning, Attempt, Provisions, fail, begin,
  admit, provision, Answer, call_next, with_dataset, finish, after_ot_ctl, after_push,
  after_commissioning, resume_at, resume, step_got_dataset, set_thread_operational_dataset,
  step_pushed, step_commissioning, commission_with_code,
}
use matter_thread2mqtt.Bridge.Thread.{CertProblem, Dataset, dataset, failed}
use matter_thread2mqtt.Bridge.State.{Device}

-- Either no provision runs and the flag is down, or one runs and the flag is up.
pub data IsExclusive (t : Provisions) : Type 0 where
  idle : t.provisioning ≡ false → t.tasks ≡ [] → IsExclusive t
  busy : t.provisioning ≡ true → (task : Attempt) → t.tasks ≡ task ∷ [] → IsExclusive t

begin-IsExclusive :
    (code : Text) (problem : Option CertProblem) → IsExclusive (begin code problem []).0
unfolding begin fail
begin-IsExclusive code none = busy refl _ refl
begin-IsExclusive code (some p) = idle refl refl

admit-IsExclusive :
    (code : Option Text) (connected : Bool) (problem : Option CertProblem) (t : Provisions)
    → IsExclusive t
    → IsExclusive (admit code connected problem t).0
unfolding admit
admit-IsExclusive none connected problem t h = h
admit-IsExclusive (some code) false problem t h = h
admit-IsExclusive (some code) true problem t (idle down none_runs) =
    simp (down, none_runs) (begin-IsExclusive code problem)
admit-IsExclusive (some code) true problem t (busy up task runs) = simp up (busy up task runs)

call_next-IsExclusive :
    (code : Text) (w : Waiting) (moves calls : List Move) (connected : Bool)
    → IsExclusive (call_next code w moves calls connected []).0
unfolding call_next fail
call_next-IsExclusive code w moves calls false = idle refl refl
call_next-IsExclusive code w moves calls true = busy refl _ refl

with_dataset-IsExclusive :
    (code : Text) (d : Dataset) (connected : Bool)
    → IsExclusive (with_dataset code d connected []).0
unfolding with_dataset fail
with_dataset-IsExclusive code (failed e) connected = idle refl refl
with_dataset-IsExclusive code (dataset hex) connected =
    call_next-IsExclusive code for_dataset_push (step_got_dataset code ∷ [])
      (set_thread_operational_dataset hex ∷ []) connected

finish-IsExclusive :
    (code : Text) (node : ℤ) (r : Outcome (List Device)) → IsExclusive (finish code node r []).0
unfolding finish fail
finish-IsExclusive code node (ok ds) = idle refl refl
finish-IsExclusive code node (raise e) = idle refl refl

module _ (py : Runtime) where
  after_ot_ctl-IsExclusive :
      (code : Text) (o : Outcome (ℤ × Text)) (connected : Bool)
      → IsExclusive (after_ot_ctl py code o connected []).0
  unfolding after_ot_ctl fail
  after_ot_ctl-IsExclusive code (ok (c, lines)) connected =
      with_dataset-IsExclusive code _ connected
  after_ot_ctl-IsExclusive code (raise e) connected = idle refl refl

  after_push-IsExclusive :
      (code : Text) (o : Outcome (Unit {0})) (connected : Bool)
      → IsExclusive (after_push code o connected []).0
  unfolding after_push fail
  after_push-IsExclusive code (ok u) connected =
      call_next-IsExclusive code for_commissioning (step_pushed code ∷ step_commissioning code ∷ [])
        (commission_with_code code ∷ []) connected
  after_push-IsExclusive code (raise e) connected = idle refl refl

  after_commissioning-IsExclusive :
      (code : Text) (o : Outcome ℤ) (r : Outcome (List Device))
      → IsExclusive (after_commissioning code o r []).0
  unfolding after_commissioning fail
  after_commissioning-IsExclusive code (ok n) r = finish-IsExclusive code n r
  after_commissioning-IsExclusive code (raise e) r = idle refl refl

  resume_at-IsExclusive :
      (code : Text) (w : Waiting) (a : Answer) → IsExclusive (resume_at py code w a []).0
  unfolding resume_at
  resume_at-IsExclusive code for_ot_ctl a = after_ot_ctl-IsExclusive code a.ot_ctl a.connected
  resume_at-IsExclusive code for_dataset_push a = after_push-IsExclusive code a.push a.connected
  resume_at-IsExclusive code for_commissioning a =
      after_commissioning-IsExclusive code a.commission _

  resume-IsExclusive : (task : Attempt) (a : Answer) → IsExclusive (resume py task a []).0
  unfolding resume
  resume-IsExclusive task a = resume_at-IsExclusive task.code task.waiting a

  -- What the event loop can do next: a request comes in, or any one of the waiting tasks is resumed.
  pub data Step (t : Provisions) : Provisions → Type 0 where
    requested :
        (payload : Fields) (connected : Bool) (problem : Option CertProblem)
        → Step t (provision py payload connected problem t).0
    resumed :
        (before after : List Attempt) (task : Attempt) (a : Answer)
        → t.tasks ≡ before ++ task ∷ after
        → Step t (resume py task a (before ++ after)).0

  pub data Reach : Provisions → Type 0 where
    start : Reach (record { provisioning = false; tasks = [] })
    next : {t u : Provisions} → Reach t → Step t u → Reach u

  none_of : {A : Type 0} (before after : List A) (a : A) → [] ≡ before ++ a ∷ after → ⊥
  none_of [] after a h = ground arith
  none_of (x ∷ before) after a h = ground arith

  only :
      {A : Type 0} (before after : List A) (a b : A)
      → b ∷ [] ≡ before ++ a ∷ after
      → before ++ after ≡ []
  only [] after a b h = ground arith
  only (x ∷ []) after a b h = absurd (cc)
  only (x ∷ y ∷ before) after a b h = absurd (cc)

  pub Step-IsExclusive : {t u : Provisions} → Step t u → IsExclusive t → IsExclusive u
  Step-IsExclusive {t} (requested payload connected problem) h =
      unfold provision in admit-IsExclusive _ connected problem t h
  Step-IsExclusive (resumed before after task a e) (idle down none_runs) =
      absurd (none_of before after task (sym none_runs ∙ e))
  Step-IsExclusive (resumed before after task a e) (busy up other runs) =
      rw (only before after task other (sym runs ∙ e)) (resume-IsExclusive task a)

  -- However requests and the answers that running provisions wait for follow each other, and
  -- whatever fails: at most one provision runs, and the flag that turns others away is up exactly
  -- while it runs, so that a failed one never blocks the next.
  pub Reach-IsExclusive : (t : Provisions) → Reach t → IsExclusive t
  Reach-IsExclusive t start = idle refl refl
  Reach-IsExclusive t (next r s) = Step-IsExclusive s (Reach-IsExclusive _ r)
