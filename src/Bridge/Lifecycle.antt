-- ===== src/Bridge/Lifecycle.antt =====
-- Provisioning: one that is admitted comes to an end, and says once how it went.
use matter_thread2mqtt.Prelude.{
  ℕ, suc, ◌+◌, ◌≤◌, List, [], ◌∷◌, ◌++◌, Bool, true, false, Option, none, some, ◌≡◌, refl, ap, ◌∙◌,
  arith, ℤ, Text, ◌==◌, text_eq, same_refl, if◌then◌else◌,
}
use matter_thread2mqtt.Python
use matter_thread2mqtt.Python.{attribute_error, Runtime, Fields, Outcome, ok, raise, codes}
use matter_thread2mqtt.Bridge.Provision.{
  Move, Waiting, for_ot_ctl, for_dataset_push, for_commissioning, Provisions, fail, begin, admit,
  provision, Answer, call_next, with_dataset, finish, after_ot_ctl, after_push, after_commissioning,
  resume_at, resume, rebuilt, step_got_dataset, set_thread_operational_dataset, step_pushed,
  step_commissioning, commission_with_code, step_done, step_failed, report, exception, code_of,
  code_text,
}
use matter_thread2mqtt.Bridge.Story.{
  Chapter, opening, fetching, pushing, commissioning, over, astray, chapter_of, chapter_of-append,
  chapter_at,
}
use matter_thread2mqtt.Bridge.Thread.{CertProblem, Dataset, dataset, failed}
use matter_thread2mqtt.Bridge.State.{Device}

abbrev is_ending : Move → ℕ
is_ending (step_done code node name) = 1
is_ending (step_failed code why) = 1
is_ending m = 0

-- How many moves say that a provision is done or has failed.
abbrev pub endings : List Move → ℕ
endings [] = 0
endings (m ∷ ms) = is_ending m + endings ms

-- How many more answers a provision takes.
abbrev budget : Waiting → ℕ
budget for_ot_ctl = 3
budget for_dataset_push = 2
budget for_commissioning = 1

abbrev pub idle_table : Provisions
idle_table = record { provisioning = false; tasks = [] }

abbrev waiting_table : Text → Waiting → Provisions
waiting_table code w = record {
  provisioning = true;
  tasks = record { code = code; waiting = w } ∷ [];
}

endings-append : (xs ys : List Move) → endings (xs ++ ys) ≡ endings xs + endings ys
endings-append [] ys = omega arith
endings-append (x ∷ xs) ys = let h = endings-append xs ys in omega arith

-- A provision that has come from chapter `ch` on and takes at most `n` more answers: it has ended once,
-- or not yet.
data Stage (code : Text) (ch : Chapter) (n : ℕ) : Provisions × List Move → Type 0 where
  ended :
      (moves : List Move)
      → endings moves ≡ 1
      → chapter_of code ch moves ≡ over
      → Stage code ch n (idle_table, moves)
  waits :
      (w : Waiting) (moves : List Move)
      → budget w ≤ n
      → endings moves ≡ 0
      → chapter_of code ch moves ≡ chapter_at w
      → Stage code ch n (waiting_table code w, moves)

call_next-Stage :
    (n : ℕ) (code : Text) (ch : Chapter) (w : Waiting) (moves calls : List Move) (connected : Bool)
    → budget w ≤ n
    → endings moves ≡ 0
    → endings calls ≡ 0
    → chapter_of code ch (moves ++ calls) ≡ chapter_at w
    → chapter_of code ch (
        moves
        ++ step_failed code (exception attribute_error) ∷ report (exception attribute_error) ∷ [])
      ≡ over
    → Stage code ch n (call_next code w moves calls connected [])
unfolding call_next fail
call_next-Stage n code ch w moves calls true b h k e f =
    waits w (moves ++ calls) b (let e = endings-append moves calls in omega arith) e
call_next-Stage n code ch w moves calls false b h k e f =
    ended _
      (endings-append moves
          (step_failed code (exception attribute_error) ∷ report (exception attribute_error) ∷ [])
        ∙ ap (λ (k : ℕ). k + 1) h)
      f

with_dataset-Stage :
    (code : Text) (d : Dataset) (connected : Bool)
    → Stage code fetching 2 (with_dataset code d connected [])
unfolding with_dataset fail chapter_of
with_dataset-Stage code (failed e) connected = ended _ refl refl
with_dataset-Stage code (dataset hex) connected =
    call_next-Stage 2 code fetching for_dataset_push (step_got_dataset code ∷ [])
      (set_thread_operational_dataset hex ∷ []) connected (omega arith) refl refl refl refl

after_ot_ctl-Stage :
    (py : Runtime) (code : Text) (o : Outcome (ℤ × Text)) (connected : Bool)
    → Stage code fetching 2 (after_ot_ctl py code o connected [])
unfolding after_ot_ctl fail chapter_of
after_ot_ctl-Stage py code (ok (c, output)) connected = with_dataset-Stage code _ connected
after_ot_ctl-Stage py code (raise e) connected = ended _ refl refl

-- The code that is commissioned is the request's.
same_code : (code : Text) → (if code == code then commissioning else astray) ≡ commissioning
same_code code = ground (arith, same_refl code)

after_push-Stage :
    (code : Text) (o : Outcome (Unit {0})) (connected : Bool)
    → Stage code pushing 1 (after_push code o connected [])
unfolding after_push fail chapter_of
after_push-Stage code (ok u) connected =
    call_next-Stage 1 code pushing for_commissioning
      (step_pushed code ∷ step_commissioning code ∷ []) (commission_with_code code ∷ []) connected
      (omega arith) refl refl (same_code code) refl
after_push-Stage code (raise e) connected = ended _ refl refl

after_commissioning-Stage :
    (code : Text) (o : Outcome ℤ) (r : Outcome (List Device))
    → Stage code commissioning 0 (after_commissioning code o r [])
unfolding after_commissioning finish fail chapter_of
after_commissioning-Stage code (ok node) (ok ds) = ended _ refl refl
after_commissioning-Stage code (ok node) (raise e) = ended _ refl refl
after_commissioning-Stage code (raise e) r = ended _ refl refl

Stage-weaken :
    (code : Text) (ch : Chapter) (m n : ℕ) (s : Provisions × List Move)
    → m ≤ n
    → Stage code ch m s
    → Stage code ch n s
Stage-weaken code ch m n s h (ended moves e f) = ended moves e f
Stage-weaken code ch m n s h (waits w moves b e f) = waits w moves (omega arith) e f

-- More is told, from the chapter that was come to.
chapter_after :
    (code : Text) (ch mid last : Chapter) (before moves : List Move)
    → chapter_of code ch before ≡ mid
    → chapter_of code mid moves ≡ last
    → chapter_of code ch (before ++ moves) ≡ last
chapter_after code ch mid last before moves h e =
    chapter_of-append code before moves ch ∙ (ap (λ c. chapter_of code c moves) h ∙ e)

Stage-after :
    (code : Text) (ch mid : Chapter) (n : ℕ) (before : List Move) (s : Provisions × List Move)
    → endings before ≡ 0
    → chapter_of code ch before ≡ mid
    → Stage code mid n s
    → Stage code ch n (s.0, before ++ s.1)
Stage-after code ch mid n before s h g (ended moves e f) =
    ended (before ++ moves) (let k = endings-append before moves in omega arith)
      (chapter_after code ch mid over before moves g f)
Stage-after code ch mid n before s h g (waits w moves b e f) =
    waits w (before ++ moves) b (let k = endings-append before moves in omega arith)
      (chapter_after code ch mid (chapter_at w) before moves g f)

begin-Stage :
    (code : Text) (problem : Option CertProblem) → Stage code opening 3 (begin code problem [])
unfolding begin fail chapter_of
begin-Stage code none = waits for_ot_ctl _ (omega arith) refl refl
begin-Stage code (some p) = ended _ refl refl

-- No waiting provision takes no answer.
finished :
    (code : Text) (s : Provisions × List Move)
    → Stage code opening 0 s
    → (s.0 ≡ idle_table) × (endings s.1 ≡ 1) × (chapter_of code opening s.1 ≡ over)
finished code s (ended moves e f) = (refl, e, f)
finished code s (waits for_ot_ctl moves b e f) = absurd (omega arith)
finished code s (waits for_dataset_push moves b e f) = absurd (omega arith)
finished code s (waits for_commissioning moves b e f) = absurd (omega arith)

module _ (py : Runtime) where
  resume_at-Stage :
      (n : ℕ) (code : Text) (w : Waiting) (a : Answer)
      → budget w ≤ suc n
      → Stage code (chapter_at w) n (resume_at py code w a [])
  unfolding resume_at
  resume_at-Stage n code for_ot_ctl a b =
      Stage-weaken code fetching 2 n _ (omega arith)
        (after_ot_ctl-Stage py code a.ot_ctl a.connected)
  resume_at-Stage n code for_dataset_push a b =
      Stage-weaken code pushing 1 n _ (omega arith) (after_push-Stage code a.push a.connected)
  resume_at-Stage n code for_commissioning a b =
      Stage-weaken code commissioning 0 n _ (omega arith)
        (after_commissioning-Stage code a.commission (rebuilt a.connected a.rebuild))

  -- The event loop resumes the provision that waits, with an answer.
  abbrev pub answered : Answer → Provisions × List Move → Provisions × List Move
  answered a (t, moves) = elim t.tasks [
    | [] ↦ (t, moves)
    | task ∷ others ↦ let (u, more) = resume py task a others in (u, moves ++ more)
  ]

  answered-Stage :
      (code : Text) (n : ℕ) (a : Answer) (s : Provisions × List Move)
      → Stage code opening (suc n) s
      → Stage code opening n (answered a s)
  unfolding resume
  answered-Stage code n a s (ended moves e f) = ended moves e f
  answered-Stage code n a s (waits w moves b e f) =
      Stage-after code opening (chapter_at w) n moves _ e f (resume_at-Stage n code w a b)

  provision-Stage :
      (payload : Fields) (problem : Option CertProblem) (code : Text)
      → code_of py (code_text py (Python.get (codes "code") payload)) ≡ some code
      → Stage code opening 3 (provision py payload true problem idle_table)
  unfolding provision admit
  provision-Stage payload problem code h = rw h (begin-Stage code problem)

  -- A provision that is admitted while no other one runs, and what has become of it three answers later.
  abbrev pub provisioned : Fields → Option CertProblem → (a b c : Answer) → Provisions × List Move
  provisioned payload problem a b c =
      answered c (answered b (answered a (provision py payload true problem idle_table)))

  -- A provision that is admitted while no other one runs, whatever the calls that it waits for return or
  -- raise: three answers later at most, none runs, and the next one is admitted. Exactly one message on
  -- bridge/event has said that it is done or that it failed. And all that it did and said came in the
  -- order of `advance`: the certificates are checked, then the dataset is read, then pushed, then the
  -- device is commissioned with the code of the request, then the table is rebuilt, then it is
  -- done; or it failed at one of these and reported the error, and did nothing more.
  pub provision-Ends :
      (payload : Fields) (problem : Option CertProblem) (code : Text)
      → code_of py (code_text py (Python.get (codes "code") payload)) ≡ some code
      → (a b c : Answer)
      → ((provisioned payload problem a b c).0 ≡ idle_table)
        × (endings (provisioned payload problem a b c).1 ≡ 1)
        × (chapter_of code opening (provisioned payload problem a b c).1 ≡ over)
  provision-Ends payload problem code h a b c = finished code _ (
      answered-Stage code 0 c _ (
        answered-Stage code 1 b _
          (answered-Stage code 2 a _ (provision-Stage payload problem code h))))
