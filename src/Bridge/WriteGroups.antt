-- ===== src/Bridge/WriteGroups.antt =====
-- The grouping of `order_writes`: each endpoint's writes, in their order.
use matter_thread2mqtt.Prelude.{
  ℤ, List, [], ◌∷◌, ◌++◌, Bool, true, ◌≡◌, ◌≢◌, refl, ◌∙◌, sym, ◌==◌, int_eq, text_eq, eqb_ℤ_iff,
  all, arith, if◌then◌else◌, keep-all, all-append, append-nil, append_assoc,
}
use matter_thread2mqtt.Bridge.{Write, Group, at, add_to_group, group_from}

-- The group of an endpoint; an endpoint that is not a key has no writes.
unfoldable pub group_at : ℤ → List Group → List Write
group_at ep [] = []
group_at ep ((e, g) ∷ gs) = let rest = group_at ep gs in if e == ep then g else rest

abbrev pub is_on : ℤ → Write → Bool
is_on ep w = w.cap.ep == ep

-- Every group holds writes of its own endpoint only, and no endpoint has two groups.
abbrev pub IsGrouped : List Group → Type 0
IsGrouped [] = Unit
IsGrouped ((e, g) ∷ gs) = (all (is_on e) g ≡ true) × (group_at e gs ≡ []) × IsGrouped gs

group_at-add_to_group :
    (ep e : ℤ) (w : Write) (gs : List Group)
    → group_at ep (add_to_group e w gs)
      ≡ (if e == ep then group_at ep gs ++ w ∷ [] else group_at ep gs)
unfolding group_at add_to_group
group_at-add_to_group ep e w [] = ground arith
group_at-add_to_group ep e w ((k, g) ∷ gs) =
    ground (arith, eqb_ℤ_iff e ep, eqb_ℤ_iff k ep, eqb_ℤ_iff k e, group_at-add_to_group ep e w gs)

add_to_group-IsGrouped :
    (w : Write) (gs : List Group) → IsGrouped gs → IsGrouped (add_to_group w.cap.ep w gs)
unfolding add_to_group group_at
add_to_group-IsGrouped w [] h = ground (arith, eqb_ℤ_iff w.cap.ep w.cap.ep)
add_to_group-IsGrouped w ((k, g) ∷ gs) (own, fresh, h) = ground (
  arith,
  eqb_ℤ_iff k w.cap.ep,
  eqb_ℤ_iff w.cap.ep k,
  all-append (is_on k) g (w ∷ []),
  group_at-add_to_group k w.cap.ep w gs,
  add_to_group-IsGrouped w gs h,
)

pub group_from-IsGrouped :
    (gs : List Group) (ws : List Write) → IsGrouped gs → IsGrouped (group_from gs ws)
unfolding group_from
group_from-IsGrouped gs [] h = h
group_from-IsGrouped gs (w ∷ ws) h =
    group_from-IsGrouped (add_to_group w.cap.ep w gs) ws (add_to_group-IsGrouped w gs h)

pub group_at-group_from :
    (ep : ℤ) (gs : List Group) (ws : List Write)
    → group_at ep (group_from gs ws) ≡ group_at ep gs ++ at ep ws
unfolding group_from at
group_at-group_from ep gs [] = sym (append-nil _)
group_at-group_from ep gs (w ∷ ws) =
    group_at-group_from ep (add_to_group w.cap.ep w gs) ws
    ∙ rw (group_at-add_to_group ep w.cap.ep w gs)
        (ground (arith, append_assoc (group_at ep gs) (w ∷ []) (at ep ws)))

-- The writes of other endpoints leave nothing at this one.
pub at-ne : (ep e : ℤ) (g : List Write) → e ≢ ep → all (is_on e) g ≡ true → at ep g ≡ []
unfolding at
at-ne ep e [] ne h = refl
at-ne ep e (w ∷ g) ne h =
    ground (arith, eqb_ℤ_iff w.cap.ep e, eqb_ℤ_iff w.cap.ep ep, at-ne ep e g ne)

pub at_self : (ep : ℤ) (g : List Write) → all (is_on ep) g ≡ true → at ep g ≡ g
unfolding at
at_self ep g h = keep-all (is_on ep) g h

pub group_at-group : (ep : ℤ) (ws : List Write) → group_at ep (group_from [] ws) ≡ at ep ws
unfolding group_at
group_at-group ep ws = group_at-group_from ep [] ws
