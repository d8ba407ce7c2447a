-- ===== src/PageTable/Descend.antt =====
-- One level of the mapping keeps the tables a tree, whichever allocator gives the pages.
use sumi_os.Base.{
  ℕ, suc, ◌%◌, ◌<◌, ◌≡◌, refl, ◌≢◌, true, inl, inr, Option, some, arith, ◌==◌, ==_iff, Bool-cases,
  ◌∙◌, ap, update,
}
use sumi_os.Layout.{page_mask}
use sumi_os.PageTable.{Words, entry_in, descend}
use sumi_os.PageTable.Tree.{IsPage, HasRoom, IsTree, with_table}
use sumi_os.PageTable.Grow.{IsDescent, with_table-IsDescent}

-- What the mapping asks of an allocator: `Owns n s level` says that in state `s` it can give `n` more
-- pages, none of which is one of the tables of `level`.
pub record IsPageSource {A : Type 0} (alloc : A → Option (ℕ × A)) (Owns : ℕ → A → (ℕ → ℕ) → Type 0)
    : Type 0 where
  pub less : (n : ℕ) (s : A) (level : ℕ → ℕ) → Owns (suc n) s level → Owns n s level
  pub gives :
      (n : ℕ) (s : A) (level : ℕ → ℕ)
      → Owns (suc n) s level
      → (p : ℕ) × (s' : A) × (alloc s ≡ some (p, s'))
        × IsPage p
        × (level p ≡ 0)
        × ((l : ℕ) → Owns n s' (update level p l))

-- One level of the mapping, from a table that is not a last one: it returns the table that the entry
-- leads to, which is one level down, with at most one page used.
unfoldable pub Descends :
    {A : Type 0} (Owns : ℕ → A → (ℕ → ℕ) → Type 0)
    → (base : ℕ) (level : ℕ → ℕ) (word : Words) (t i l n : ℕ) → Option (ℕ × A × Words)
    → Type 0
Descends {A} Owns base level word t i l n o =
    (next : ℕ) × (s' : A) × (word' : Words) × (level' : ℕ → ℕ) × (o ≡ some (next, s', word'))
    × IsDescent base level word t i next level' word'
    × (level' next ≡ suc l)
    × Owns n s' level'

descend-made :
    {A : Type 0} (base : ℕ) (alloc : A → Option (ℕ × A)) (attr t i p : ℕ) (s s' : A) (word : Words)
    → (word (entry_in base t i) == 0) ≡ true
    → alloc s ≡ some (p, s')
    → IsPage p
    → descend base alloc attr t i s word
      ≡ some (
        page_mask (with_table base word attr (entry_in base t i) p (entry_in base t i)),
        s',
        with_table base word attr (entry_in base t i) p,
      )
unfolding descend with_table
descend-made base alloc attr t i p s s' word empty e page =
    let whole : (p % 4096 == 0) ≡ true = ground (arith, page) in rw empty (rw e (rw whole refl))

stay :
    (base : ℕ) (level : ℕ → ℕ) (word : Words) (t i : ℕ)
    → IsTree base level word
    → word (entry_in base t i) ≢ 0
    → IsDescent base level word t i (page_mask (word (entry_in base t i))) level word
stay base level word t i tree used = record {
  tree = tree;
  keeps_tables = λ u ne. refl;
  others = λ u j ne lt away. refl;
  same = λ used'. refl;
  empty = λ e. absurd (used e);
  in_use = used;
  leads = refl;
}

module _ {A : Type 0} {alloc : A → Option (ℕ × A)} {Owns : ℕ → A → (ℕ → ℕ) → Type 0}
    (source : IsPageSource alloc Owns) (base : ℕ) (room : HasRoom base) where
  pub descend-Descends :
      (level : ℕ → ℕ) (word : Words) (attr t i l n : ℕ) (s : A)
      → IsTree base level word
      → level t ≡ suc (suc l)
      → i < 512
      → attr < 4096
      → attr ≢ 0
      → Owns (suc n) s level
      → Descends Owns base level word t i l n (descend base alloc attr t i s word)
  unfolding Descends descend
  descend-Descends level word attr t i l n s tree at lt small some_bit owns =
      elim (Bool-cases (word (entry_in base t i) == 0)) [
        | inl empty ↦
            let (p, s', e, page, fresh, owns') = source.gives n s level owns in
            let d =
              with_table-IsDescent base level word attr t i p l room tree at lt page fresh small
                some_bit ((==_iff _ _).0 empty) in
            (
              p,
              s',
              with_table base word attr (entry_in base t i) p,
              update level p (suc l),
              descend-made base alloc attr t i p s s' word empty e page
                  ∙ ap (λ q. some (q, s', with_table base word attr (entry_in base t i) p)) d.leads,
              d,
              ground arith,
              owns' (suc l),
            )
        | inr there ↦
            let used : word (entry_in base t i) ≢ 0 = λ e. ground (arith, there, e) in
            (
              page_mask (word (entry_in base t i)),
              s,
              word,
              level,
              ground (arith, there),
              stay base level word t i tree used,
              ground (arith, tree.child t i lt (ground (arith, at)) used, at),
              source.less n s level owns,
            )
      ]
