-- ===== src/Mm/Paging/Mapping.antt =====
-- kernel/mm/paging.c: what map_page, unmap_page and set_page_permissions do to the later look-ups of
-- get_physical_address and is_page_accessible.
use trade_kernel.Base.{
  ℕ, ◌+◌, ◌*◌, ◌/◌, ◌%◌, ◌^◌, ◌<◌, ◌≡◌, ◌≢◌, ◌∙◌, inl, inr, refl, sym, ap, ap₂, subst, true, false,
  not, ◌&&◌, ◌||◌, ◌==◌, if◌then◌else◌, ==-refl, ne→==, ==→eq, Bool-cases, mul32, arith,
}
use trade_kernel.Mm.Paging.{
  Paging, PageTableEntry, success, failure, map_page, map_entry, new_table, unmap_page, is_mapped,
  get_physical_address, set_page_permissions, is_page_accessible, virtual_to_page_index,
  free_page_frame, directory_entry, table_of, entry_address, mapped_at, wants_present,
  wants_writable, wants_user, no_entry,
}
use trade_kernel.Mm.Paging.Tables.{
  IsSeparated, IsFresh, table_index-ne, table_of_aligned, entry_address-ne,
  get_physical_address-ext, unmapped, mapped, not_mapped, map_page_cases, map_entry_self,
  map_entry_ne, new_table_self, new_table_ne, new_table_inside, new_table_outside,
}

-- A look-up at the entry that map_entry has just written
map_entry-reads :
    (dir va pa flags table : ℕ) (s : Paging)
    → dir ≢ 0
    → pa < 2 ^ 32
    → wants_present flags ≡ true
    → (directory_entry dir va s).present ≡ true
    → table_of (directory_entry dir va s) ≡ table
    → get_physical_address dir va (map_entry table va pa flags s) ≡ pa / 4096 * 4096 + va % 4096
unfolding is_mapped map_entry
map_entry-reads dir va pa flags table s nz small f p q =
    let t = map_entry table va pa flags s in
    let e : PageTableEntry = record {
      present = wants_present flags;
      writable = wants_writable flags;
      user = wants_user flags;
      page_frame = pa / 2 ^ 12;
    } in
    let place : mapped_at dir va t ≡ entry_address table va = ap (λ x. entry_address x va) q in
    let here : t.tables (mapped_at dir va t) ≡ e =
      subst (λ a. t.tables a ≡ e) (sym place) (map_entry_self table va pa flags s) in
    let shown : (t.tables (mapped_at dir va t)).present ≡ true = ap (λ x. x.present) here ∙ f in
    let some_dir : (dir == 0) ≡ false = ne→== dir 0 nz in
    let there : is_mapped dir va t ≡ true =
      ap₂ (λ a b. a && b) (ap₂ (λ a b. not a && b) some_dir p) shown in
    let frame : (t.tables (mapped_at dir va t)).page_frame ≡ pa / 2 ^ 12 =
      ap (λ x. x.page_frame) here in
    mapped dir va t there ∙ ap (λ x. mul32 x 4096 + va % 4096) frame ∙ omega arith

-- After map_page of a present page succeeds, with kmalloc returning a page-aligned table where it needs
-- one, the address translates to the frame of the physical address with the offset of the virtual one.
pub get_physical_address-map_page :
    (dir va pa flags table : ℕ) (s : Paging)
    → table % 4096 ≡ 0
    → table < 2 ^ 32
    → pa < 2 ^ 32
    → wants_present flags ≡ true
    → (map_page dir va pa flags table s).0 ≡ success
    → get_physical_address dir va (map_page dir va pa flags table s).1
      ≡ pa / 4096 * 4096 + va % 4096
get_physical_address-map_page dir va pa flags table s h b small f e =
    elim (map_page_cases dir va pa flags table s e) [
      | inl (nz, p, r) ↦ rw r (
          map_entry-reads dir va pa flags (table_of (directory_entry dir va s)) s nz small f p refl)
      | inr (nz, p, r) ↦
          let (present, names) = new_table_self dir va flags table s h b in
          rw r (
            map_entry-reads dir va pa flags table (new_table dir va flags table s) nz small f
              present names)
    ]

-- The entry of another page is another word.
other_entry :
    (dir va va' : ℕ) (s : Paging)
    → IsSeparated dir s
    → va < 2 ^ 32
    → va' < 2 ^ 32
    → va / 4096 ≢ va' / 4096
    → (directory_entry dir va s).present ≡ true
    → (directory_entry dir va' s).present ≡ true
    → mapped_at dir va' s ≢ mapped_at dir va s
unfolding IsSeparated
other_entry dir va va' s sep b b' ne p p' =
    entry_address-ne (table_of (directory_entry dir va s)) (table_of (directory_entry dir va' s)) va
      va' (table_of_aligned (directory_entry dir va s))
      (table_of_aligned (directory_entry dir va' s))
      (elim (Bool-cases (virtual_to_page_index va' == virtual_to_page_index va)) [
        | inl i ↦ inr (table_index-ne va va' b b' ne (==→eq _ _ i))
        | inr i ↦ inl (λ t.
            let z = sep (virtual_to_page_index va') (virtual_to_page_index va) p' p t in
            ground arith)
      ])

-- The other pages of a new table are not mapped, as before.
beside :
    (dir va va' pa flags table : ℕ) (s : Paging)
    → table % 4096 ≡ 0
    → table < 2 ^ 32
    → va < 2 ^ 32
    → va' < 2 ^ 32
    → va / 4096 ≢ va' / 4096
    → (directory_entry dir va s).present ≡ false
    → virtual_to_page_index va' ≡ virtual_to_page_index va
    → get_physical_address dir va' (map_entry table va pa flags (new_table dir va flags table s))
      ≡ get_physical_address dir va' s
unfolding is_mapped map_entry
beside dir va va' pa flags table s aligned below b b' ne p i =
    let n = new_table dir va flags table s in
    let t = map_entry table va pa flags n in
    let (present, names) = new_table_self dir va flags table s aligned below in
    let names' : table_of (directory_entry dir va' n) ≡ table =
      ap (λ j. table_of (n.directories dir j)) i ∙ names in
    let place : mapped_at dir va' t ≡ entry_address table va' =
      ap (λ x. entry_address x va') names' in
    let differs : entry_address table va' ≢ entry_address table va =
      entry_address-ne table table va va' aligned aligned (inr (table_index-ne va va' b b' ne i)) in
    let clear : t.tables (entry_address table va') ≡ no_entry =
      map_entry_ne table va pa flags (entry_address table va') n differs
      ∙ new_table_inside dir va flags table va' s in
    let absent : (t.tables (mapped_at dir va' t)).present ≡ false =
      ap (λ a. (t.tables a).present) place ∙ ap (λ x. x.present) clear in
    let out : is_mapped dir va' t ≡ false = ground arith in
    let p' : (directory_entry dir va' s).present ≡ false =
      ap (λ j. (s.directories dir j).present) i ∙ p in
    unmapped dir va' t out ∙ sym (unmapped dir va' s (not_mapped dir va' s p'))

-- A successful map_page leaves the translation of every other page of the 32-bit addresses as it was, if the present
-- entries of the directory name different tables, and the table that kmalloc returns for a new entry is
-- page-aligned, below 2 ^ 32 and named by no present entry.
pub map_page-elsewhere :
    (dir va va' pa flags table : ℕ) (s : Paging)
    → IsSeparated dir s
    → IsFresh dir table s
    → va < 2 ^ 32
    → va' < 2 ^ 32
    → va / 4096 ≢ va' / 4096
    → (map_page dir va pa flags table s).0 ≡ success
    → get_physical_address dir va' (map_page dir va pa flags table s).1
      ≡ get_physical_address dir va' s
unfolding IsFresh map_entry
map_page-elsewhere dir va va' pa flags table s sep (aligned, below, fresh) b b' ne e =
    elim (map_page_cases dir va pa flags table s e) [
      | inl (nz, p, r) ↦ rw r (
          get_physical_address-ext dir va' s _ refl (λ p'.
            map_entry_ne (table_of (directory_entry dir va s)) va pa flags (mapped_at dir va' s) s
              (other_entry dir va va' s sep b b' ne p p')))
      | inr (nz, p, r) ↦ elim (Bool-cases (virtual_to_page_index va' == virtual_to_page_index va)) [
        | inl i ↦ rw r (beside dir va va' pa flags table s aligned below b b' ne p (==→eq _ _ i))
        | inr i ↦ rw r (
            get_physical_address-ext dir va' s _
              (new_table_ne dir va flags table (virtual_to_page_index va') s (λ z. ground arith))
              (λ p'.
                let out = fresh (virtual_to_page_index va') p' in
                map_entry_ne table va pa flags (mapped_at dir va' s)
                  (new_table dir va flags table s)
                  (entry_address-ne table (table_of (directory_entry dir va' s)) va va' aligned
                    (table_of_aligned (directory_entry dir va' s)) (inl out))
                ∙ new_table_outside dir va flags table (table_of (directory_entry dir va' s)) va' s
                    aligned (table_of_aligned (directory_entry dir va' s)) out))
      ]
    ]

absent_entry :
    (dir va : ℕ) (s : Paging)
    → (s.tables (mapped_at dir va s)).present ≡ false
    → is_mapped dir va s ≡ false
unfolding is_mapped
absent_entry dir va s h = ground arith

-- After unmap_page of an address, the address translates to 0, whatever kmalloc returned
-- for the list node; unmap_page fails exactly if the address was not mapped.
pub unmap_page-unmaps :
    (dir va frame : ℕ) (s : Paging)
    → ((unmap_page dir va frame s).0 ≡ (if is_mapped dir va s then success else failure))
      × (get_physical_address dir va (unmap_page dir va frame s).1 ≡ 0)
unfolding unmap_page free_page_frame
unmap_page-unmaps dir va frame s = elim (Bool-cases (is_mapped dir va s)) [
  | inl m ↦
      let absent : ((unmap_page dir va frame s).1.tables
            (mapped_at dir va (unmap_page dir va frame s).1)).present
          ≡ false =
        elim (Bool-cases (frame == 0)) [
          | inl z ↦ rw (m, z, ==-refl (mapped_at dir va s)) refl
          | inr z ↦ rw (m, z, ==-refl (mapped_at dir va s)) refl
        ] in
      (rw m refl, unmapped dir va _ (absent_entry dir va _ absent))
  | inr m ↦ rw m (refl, unmapped dir va s m)
]

-- After set_page_permissions on a mapped page, a page is accessible for exactly the rights among
-- writing and user access that were set.
pub is_page_accessible-set_page_permissions :
    (dir va flags required : ℕ) (s : Paging)
    → (set_page_permissions dir va flags s).0 ≡ success
    → is_page_accessible dir va required (set_page_permissions dir va flags s).1
      ≡ (not (wants_writable required) || wants_writable flags)
        && (not (wants_user required) || wants_user flags)
unfolding set_page_permissions is_page_accessible is_mapped
is_page_accessible-set_page_permissions dir va flags required s e =
    elim (Bool-cases (is_mapped dir va s)) [
      | inl m ↦
          let parts : (not (dir == 0) ≡ true)
              × ((directory_entry dir va s).present ≡ true)
              × ((s.tables (mapped_at dir va s)).present ≡ true) =
            ground arith in
          let a = mapped_at dir va s in
          let (x, y, z) = parts in rw (m, ==-refl a, x, y, z) (ground arith)
      | inr m ↦ absurd (ground arith)
    ]
