-- ===== src/Bridge/Story.antt =====
-- The order of what a provision does and says, as its clients may rely on it.
use matter_thread2mqtt.Prelude.{Text, List, [], ◌∷◌, ◌++◌, ◌≡◌, refl, ◌==◌, text_eq, if◌then◌else◌}
use matter_thread2mqtt.Bridge.Provision.{
  Move, step_start, step_check_certs, step_thread_dataset, step_got_dataset, step_pushed,
  step_commissioning, set_thread_operational_dataset, commission_with_code, step_commissioned,
  rebuild_table, step_done, step_failed, report, Waiting, for_ot_ctl, for_dataset_push,
  for_commissioning,
}

-- How far a provision has come; `astray` is out of order.
pub data Chapter : Type 0 where
  opening checking checked fetching fetched pushing pushed inviting : Chapter
  commissioning named rebuilding failing over astray : Chapter

-- A provision can fail wherever something that it calls can.
abbrev pub fails : Chapter → Chapter
fails checked = failing
fails fetching = failing
fails fetched = failing
fails pushing = failing
fails inviting = failing
fails commissioning = failing
fails rebuilding = failing
fails _ = astray

-- The dataset is pushed after it was read, the device is commissioned after that, with the code of the
-- request, and the table is rebuilt last; each of these is announced where the code announces it.
abbrev pub advance : (code : Text) → Chapter → Move → Chapter
advance code opening (step_start c) = checking
advance code checking (step_check_certs c) = checked
advance code checked (step_thread_dataset c) = fetching
advance code fetching (step_got_dataset c) = fetched
advance code fetched (set_thread_operational_dataset d) = pushing
advance code pushing (step_pushed c) = pushed
advance code pushed (step_commissioning c) = inviting
advance code inviting (commission_with_code c) = if c == code then commissioning else astray
advance code commissioning (step_commissioned c n) = named
advance code named rebuild_table = rebuilding
advance code rebuilding (step_done c n name) = over
advance code failing (report f) = over
advance code ch (step_failed c f) = fails ch
advance code ch m = astray

unfoldable pub chapter_of : (code : Text) → Chapter → List Move → Chapter
chapter_of code ch [] = ch
chapter_of code ch (m ∷ ms) = chapter_of code (advance code ch m) ms

pub chapter_of-append :
    (code : Text) (xs ys : List Move) (ch : Chapter)
    → chapter_of code ch (xs ++ ys) ≡ chapter_of code (chapter_of code ch xs) ys
unfolding chapter_of
chapter_of-append code [] ys ch = refl
chapter_of-append code (m ∷ xs) ys ch = chapter_of-append code xs ys (advance code ch m)

-- Where a provision is while it waits.
abbrev pub chapter_at : Waiting → Chapter
chapter_at for_ot_ctl = fetching
chapter_at for_dataset_push = pushing
chapter_at for_commissioning = commissioning
