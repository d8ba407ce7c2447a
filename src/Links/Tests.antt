-- ===== src/Links/Tests.antt =====
-- The theorems about circular lists at concrete lists.
use sumi_os.Base.{refl, [], ◌∷◌}
use sumi_os.Links.{Links, list_add_prev, list_add_next, list_del, list_head_init}
use sumi_os.Links.Ring.{IsRing}
use sumi_os.Links.Laws.{
  list_head_init-IsRing, list_add_next-cons, list_add_prev-append, list_del-remove,
}

abbrev blank : Links
blank = record { next = λ a. 0; prev = λ a. 0 }

-- The list with head 100 and the nodes 200 and 300.
abbrev one : Links
one = list_add_next (list_head_init blank 100) 100 200

abbrev two : Links
two = list_add_prev one 100 300

one-IsRing : IsRing one 100 (200 ∷ [])
one-IsRing = list_add_next-cons 200 [] (list_head_init-IsRing blank 100) refl

two-IsRing : IsRing two 100 (200 ∷ 300 ∷ [])
two-IsRing = list_add_prev-append 300 (200 ∷ []) one-IsRing refl

list_del-remove_example : IsRing (list_del two 300) 100 (200 ∷ [])
list_del-remove_example = list_del-remove 300 (200 ∷ 300 ∷ []) two-IsRing refl
