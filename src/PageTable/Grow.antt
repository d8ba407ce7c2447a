-- ===== src/PageTable/Grow.antt =====
-- A table that is put into an empty entry keeps the tables a tree.
use sumi_os.Base.{
  ℕ, suc, ◌+◌, ◌<◌, ◌≡◌, ◌≢◌, false, inl, inr, arith, ◌==◌, ==_iff, Bool-cases, ◌∙◌, sym, ap,
  update,
}
use sumi_os.Layout.{page_mask}
use sumi_os.PageTable.{Words, entry_in}
use sumi_os.PageTable.Tree.{
  IsPage, HasRoom, IsTree, with_table, same_entry, with_table-entry, with_table-page,
  with_table-others,
}

-- From `level` and `word` the tables have only grown, and entry `i` of `t` leads to `next`.
pub record IsDescent (base : ℕ) (level : ℕ → ℕ) (word : Words) (t i next : ℕ) (level' : ℕ → ℕ)
    (word' : Words) : Type 0 where
  pub tree : IsTree base level' word'
  pub keeps_tables : (u : ℕ) → level u ≢ 0 → level' u ≡ level u
  pub others :
      (u j : ℕ)
      → level u ≢ 0
      → j < 512
      → entry_in base u j ≢ entry_in base t i
      → word' (entry_in base u j) ≡ word (entry_in base u j)
  pub same : word (entry_in base t i) ≢ 0 → word' (entry_in base t i) ≡ word (entry_in base t i)
  pub empty : word (entry_in base t i) ≡ 0 → (j : ℕ) → j < 512 → word' (entry_in base next j) ≡ 0
  pub in_use : word' (entry_in base t i) ≢ 0
  pub leads : page_mask (word' (entry_in base t i)) ≡ next

module _ (base : ℕ) (level : ℕ → ℕ) (word : Words) (attr t i p l : ℕ) (room : HasRoom base)
    (tree : IsTree base level word) (at : level t ≡ suc (suc l)) (lt : i < 512) (page : IsPage p)
    (fresh : level p ≡ 0) (small : attr < 4096) (some_bit : attr ≢ 0) where
  table : IsPage t
  table = tree.tables t (ground (arith, at))

  apart : t ≢ p
  apart e = ground (arith, at, fresh, ap level e)

  mask_sum : page_mask (p + attr) ≡ p
  mask_sum = ground (arith, page, small)

  other : {u : ℕ} → level u ≢ 0 → u ≢ p
  other ne e = ne (ap level e ∙ fresh)

  new_level : (u : ℕ) → level u ≢ 0 → update level p (suc l) u ≡ level u
  new_level u ne = ground (arith, other ne)

  new_entry : with_table base word attr (entry_in base t i) p (entry_in base t i) ≡ p + attr
  new_entry = with_table-entry base word attr t i p room table lt page apart small

  kept :
      (u j : ℕ)
      → level u ≢ 0
      → j < 512
      → (entry_in base u j == entry_in base t i) ≡ false
      → with_table base word attr (entry_in base t i) p (entry_in base u j)
        ≡ word (entry_in base u j)
  kept u j ne lt' away =
      with_table-others base word attr t i p room table lt page apart u j (tree.tables u ne) lt'
        (other ne) (λ e. ground (arith, away, e))

  above : (u : ℕ) → (u == p) ≡ false → 1 < update level p (suc l) u → 1 < level u
  above u old high = ground (arith, old, high)

  new_table :
      (u j : ℕ)
      → j < 512
      → 1 < level u
      → entry_in base u j ≡ entry_in base t i
      → update level p
            (suc l)
            (page_mask (with_table base word attr (entry_in base t i) p (entry_in base u j)))
          + 1
        ≡ update level p (suc l) u
  new_table u j lt' high e =
      let masked : page_mask (with_table base word attr (entry_in base t i) p (entry_in base u j))
          ≡ p =
        ap page_mask (ap (with_table base word attr (entry_in base t i) p) e ∙ new_entry)
        ∙ mask_sum in
      let leaf : level u ≡ level t =
        ap level
          (same_entry base u j t i room (tree.tables u (ground (arith, high))) table lt' lt e).0 in
      ap (λ c. update level p (suc l) c + 1) masked
      ∙ ground (arith, leaf, at)
      ∙ sym (new_level u (ground (arith, high)))

  old_table :
      (u j : ℕ)
      → j < 512
      → 1 < level u
      → (entry_in base u j == entry_in base t i) ≡ false
      → word (entry_in base u j) ≢ 0
      → update level p
            (suc l)
            (page_mask (with_table base word attr (entry_in base t i) p (entry_in base u j)))
          + 1
        ≡ update level p (suc l) u
  old_table u j lt' high away used =
      let c = tree.child u j lt' high used in
      ap (λ v. update level p (suc l) (page_mask v) + 1) (kept u j (ground (arith, high)) lt' away)
      ∙ ap (λ v. v + 1) (new_level (page_mask (word (entry_in base u j))) (ground (arith, c, high)))
      ∙ c
      ∙ sym (new_level u (ground (arith, high)))

  new_child :
      (u j : ℕ)
      → j < 512
      → 1 < update level p (suc l) u
      → with_table base word attr (entry_in base t i) p (entry_in base u j) ≢ 0
      → update level p
            (suc l)
            (page_mask (with_table base word attr (entry_in base t i) p (entry_in base u j)))
          + 1
        ≡ update level p (suc l) u
  new_child u j lt' high used = elim (Bool-cases (u == p)) [
    | inl new ↦ absurd (
        used (
          ap (λ q. with_table base word attr (entry_in base t i) p (entry_in base q j))
            ((==_iff u p).0 new)
          ∙ with_table-page base word attr t i p room table lt page apart j lt'))
    | inr old ↦ elim (Bool-cases (entry_in base u j == entry_in base t i)) [
      | inl same ↦ new_table u j lt' (above u old high) ((==_iff _ _).0 same)
      | inr away ↦
          old_table u j lt' (above u old high) away
            (λ e. used (kept u j (ground (arith, above u old high)) lt' away ∙ e))
    ]
  ]

  new_page : (u : ℕ) → update level p (suc l) u ≢ 0 → IsPage u
  new_page u ne = elim (Bool-cases (p == u)) [
    | inl new ↦
        (let e : p ≡ u = (==_iff p u).0 new in (ground (arith, e, page), ground (arith, e, page)))
    | inr old ↦ tree.tables u (ground (arith, old, ne))
  ]

  new_mask : page_mask (with_table base word attr (entry_in base t i) p (entry_in base t i)) ≡ p
  new_mask = ap page_mask new_entry ∙ mask_sum

  -- Each entry in use is the new one, or is as it was in a table that was there.
  data Origin (u j : ℕ) : Type 0 where
    made : u ≡ t → j ≡ i → Origin u j
    left :
        1 < level u
        → word (entry_in base u j) ≢ 0
        → with_table base word attr (entry_in base t i) p (entry_in base u j)
          ≡ word (entry_in base u j)
        → Origin u j

  origin :
      (u j : ℕ)
      → j < 512
      → 1 < update level p (suc l) u
      → with_table base word attr (entry_in base t i) p (entry_in base u j) ≢ 0
      → Origin u j
  origin u j lt' high used = elim (Bool-cases (u == p)) [
    | inl new ↦ absurd (
        used (
          ap (λ q. with_table base word attr (entry_in base t i) p (entry_in base q j))
            ((==_iff u p).0 new)
          ∙ with_table-page base word attr t i p room table lt page apart j lt'))
    | inr old ↦ elim (Bool-cases (entry_in base u j == entry_in base t i)) [
      | inl at' ↦
          let e =
            same_entry base u j t i room (tree.tables u (ground (arith, above u old high))) table
              lt' lt ((==_iff _ _).0 at') in
          made e.0 e.1
      | inr away ↦
          let k = kept u j (ground (arith, above u old high)) lt' away in
          left (above u old high) (λ e. used (k ∙ e)) k
    ]
  ]

  -- The new table has no other parent, since it was no table.
  clash :
      (u j v k : ℕ)
      → u ≡ t
      → j ≡ i
      → k < 512
      → 1 < level v
      → word (entry_in base v k) ≢ 0
      → page_mask (with_table base word attr (entry_in base t i) p (entry_in base u j))
        ≢ page_mask (word (entry_in base v k))
  clash u j v k a b lt' high used e =
      let at' : entry_in base u j ≡ entry_in base t i =
        ap (λ x. entry_in base x j) a ∙ ap (entry_in base t) b in
      let c : p ≡ page_mask (word (entry_in base v k)) =
        sym new_mask
        ∙ ap (λ x. page_mask (with_table base word attr (entry_in base t i) p x)) (sym at')
        ∙ e in
      ground (arith, ap level c, fresh, high, tree.child v k lt' high used)

  new_sole :
      (u j v k : ℕ)
      → Origin u j
      → Origin v k
      → j < 512
      → k < 512
      → page_mask (with_table base word attr (entry_in base t i) p (entry_in base u j))
        ≡ page_mask (with_table base word attr (entry_in base t i) p (entry_in base v k))
      → (u ≡ v) × (j ≡ k)
  new_sole u j v k (made a b) (made c d) lt1 lt2 e = (a ∙ sym c, b ∙ sym d)
  new_sole u j v k (made a b) (left high used same) lt1 lt2 e =
      absurd (clash u j v k a b lt2 high used (e ∙ ap page_mask same))
  new_sole u j v k (left high used same) (made a b) lt1 lt2 e =
      absurd (clash v k u j a b lt1 high used (sym e ∙ ap page_mask same))
  new_sole u j v k (left high used same) (left high' used' same') lt1 lt2 e =
      tree.sole u j v k lt1 lt2 high high' used used'
        (ap page_mask (sym same) ∙ e ∙ ap page_mask same')

  pub with_table-IsDescent :
      word (entry_in base t i) ≡ 0
      → IsDescent base level word t i p
          (update level p (suc l))
          (with_table base word attr (entry_in base t i) p)
  with_table-IsDescent empty = record {
    tree = record {
      tables = new_page;
      child = new_child;
      sole = λ u j v k lt1 lt2 h1 h2 used1 used2 e.
          new_sole u j v k (origin u j lt1 h1 used1) (origin v k lt2 h2 used2) lt1 lt2 e;
    };
    keeps_tables = new_level;
    others = λ u j ne lt' away. kept u j ne lt' (ground (arith, away));
    same = λ used. absurd (used empty);
    empty = λ e j lt'. with_table-page base word attr t i p room table lt page apart j lt';
    in_use = ground (arith, new_entry, some_bit);
    leads = new_mask;
  }
