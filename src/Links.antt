-- ===== src/Links.antt =====
-- include/sumios/list.h: doubly linked circular lists. Every `struct list_head` is named by its
-- address, and the `next` and `prev` words of all of them are two functions of the address.
pub mod Ring
pub mod Laws
pub mod Frame
mod Tests
use sumi_os.Base.{ℕ, Bool, ◌&&◌, ◌==◌, update}

pub record Links : Type 0 where
  pub next : ℕ → ℕ
  pub prev : ℕ → ℕ

-- `a->next = v` and `a->prev = v`
abbrev pub set_next : Links → ℕ → ℕ → Links
set_next s a v = record s { next = update s.next a v }

abbrev pub set_prev : Links → ℕ → ℕ → Links
set_prev s a v = record s { prev = update s.prev a v }

unfoldable pub list_add_prev : Links → ℕ → ℕ → Links
list_add_prev s entry new =
    let s1 = set_next s (s.prev entry) new in
    let s2 = set_prev s1 new (s1.prev entry) in
    let s3 = set_next s2 new entry in set_prev s3 entry new

unfoldable pub list_add_next : Links → ℕ → ℕ → Links
list_add_next s entry new =
    let s1 = set_prev s (s.next entry) new in
    let s2 = set_prev s1 new entry in
    let s3 = set_next s2 new (s2.next entry) in set_next s3 entry new

unfoldable pub list_del : Links → ℕ → Links
list_del s entry =
    let s1 = set_prev s (s.next entry) (s.prev entry) in set_next s1 (s1.prev entry) (s1.next entry)

unfoldable pub list_head_init : Links → ℕ → Links
list_head_init s entry = set_prev (set_next s entry entry) entry entry

unfoldable pub list_empty : Links → ℕ → Bool
list_empty s entry = (s.next entry == entry) && (s.prev entry == entry)
