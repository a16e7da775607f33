-- ===== src/Mm/Paging/Separation.antt =====
-- kernel/mm/paging.c: map_page keeps the tables of a directory apart.
use trade_kernel.Base.{ℕ, ◌≡◌, ◌≢◌, ◌∙◌, sym, ap, inl, inr, true, ◌==◌, ==→eq, Bool-cases, arith}
use trade_kernel.Mm.Paging.{
  Paging, success, map_page, map_entry, new_table, virtual_to_page_index, table_of,
}
use trade_kernel.Mm.Paging.Tables.{
  IsSeparated, IsFresh, map_page_cases, new_table_self, new_table_ne,
}

-- A successful map_page, given a fresh page-aligned table where it needs one, keeps the present entries of
-- the directory on different tables.
pub map_page-IsSeparated :
    (dir va pa flags table : ℕ) (s : Paging)
    → IsSeparated dir s
    → IsFresh dir table s
    → (map_page dir va pa flags table s).0 ≡ success
    → IsSeparated dir (map_page dir va pa flags table s).1
unfolding IsSeparated IsFresh map_entry
map_page-IsSeparated dir va pa flags table s sep (aligned, below, fresh) e =
    elim (map_page_cases dir va pa flags table s e) [
      | inl (nz, p, r) ↦ rw r (λ i j a b c. sep i j a b c)
      | inr (nz, p, r) ↦ rw r apart
    ]
  where
    n : Paging
    n = new_table dir va flags table s

    k : ℕ
    k = virtual_to_page_index va

    other : (i : ℕ) → i ≢ k → n.directories dir i ≡ s.directories dir i
    other i ne = new_table_ne dir va flags table i s ne

    mine : table_of (n.directories dir k) ≡ table
    mine = (new_table_self dir va flags table s aligned below).1

    away :
        (i : ℕ)
        → i ≢ k
        → (n.directories dir i).present ≡ true
        → table_of (n.directories dir i) ≢ table
    away i ne p q =
        fresh i (sym (ap (λ x. x.present) (other i ne)) ∙ p) (sym (ap table_of (other i ne)) ∙ q)

    apart :
        (i j : ℕ)
        → (n.directories dir i).present ≡ true
        → (n.directories dir j).present ≡ true
        → table_of (n.directories dir i) ≡ table_of (n.directories dir j)
        → i ≡ j
    apart i j a b c = elim (Bool-cases (i == k)) [
      | inl x ↦ elim (Bool-cases (j == k)) [
        | inl y ↦ ==→eq i k x ∙ sym (==→eq j k y)
        | inr y ↦ absurd (
            away j (λ z. ground arith) b
              (sym c ∙ ap (λ v. table_of (n.directories dir v)) (==→eq i k x) ∙ mine))
      ]
      | inr x ↦ elim (Bool-cases (j == k)) [
        | inl y ↦ absurd (
            away i (λ z. ground arith) a
              (c ∙ ap (λ v. table_of (n.directories dir v)) (==→eq j k y) ∙ mine))
        | inr y ↦
            let ni : i ≢ k = λ z. ground arith in
            let nj : j ≢ k = λ z. ground arith in
            sep i j (sym (ap (λ v. v.present) (other i ni)) ∙ a)
              (sym (ap (λ v. v.present) (other j nj)) ∙ b)
              (sym (ap table_of (other i ni)) ∙ c ∙ ap table_of (other j nj))
      ]
    ]
