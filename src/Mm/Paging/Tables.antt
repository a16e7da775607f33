-- ===== src/Mm/Paging/Tables.antt =====
-- kernel/mm/paging.c: where the entries of the page tables lie, and what the parts of map_page leave in
-- them.
use trade_kernel.Base.{
  ℕ, ◌+◌, ◌/◌, ◌%◌, ◌^◌, ◌<◌, ◌≡◌, ◌≢◌, ◌⊎◌, ◌∙◌, inl, inr, refl, sym, ap, true, false, ◌&&◌, ltb,
  leb, ==-refl, ne→==, Bool-cases, bit_and-mask, mul32, arith,
}
use trade_kernel.Mm.Paging.{
  Paging, PageDirectoryEntry, success, map_page, map_entry, new_table, is_mapped,
  get_physical_address, virtual_to_page_index, virtual_to_table_index, directory_entry, table_of,
  entry_address, mapped_at, wants_present, wants_writable, wants_user, no_entry,
}

-- The present entries of a directory name different tables.
unfoldable pub IsSeparated : ℕ → Paging → Type 0
IsSeparated dir s =
    (i j : ℕ)
    → (s.directories dir i).present ≡ true
    → (s.directories dir j).present ≡ true
    → table_of (s.directories dir i) ≡ table_of (s.directories dir j)
    → i ≡ j

-- A page-aligned table that no present entry of the directory names
unfoldable pub IsFresh : ℕ → ℕ → Paging → Type 0
IsFresh dir table s =
    (table % 4096 ≡ 0)
    × (table < 2 ^ 32)
    × ((i : ℕ) → (s.directories dir i).present ≡ true → table_of (s.directories dir i) ≢ table)

pub table_index : (va : ℕ) → virtual_to_table_index va ≡ va / 4096 % 1024
unfolding virtual_to_table_index
table_index va = bit_and-mask 10 (va / 4096)

pub page_index : (va : ℕ) → virtual_to_page_index va ≡ va / 4194304 % 1024
unfolding virtual_to_page_index
page_index va = bit_and-mask 10 (va / 4194304)

-- Two pages of one table have different entries in it.
pub table_index-ne :
    (va va' : ℕ)
    → va < 2 ^ 32
    → va' < 2 ^ 32
    → va / 4096 ≢ va' / 4096
    → virtual_to_page_index va' ≡ virtual_to_page_index va
    → virtual_to_table_index va' ≢ virtual_to_table_index va
table_index-ne va va' h h' ne same eq =
    omega (arith, table_index va, table_index va', page_index va, page_index va')

pub table_of_aligned : (e : PageDirectoryEntry) → table_of e % 4096 ≡ 0
table_of_aligned e = omega arith

-- Entries of different tables, or of different places in one table, are different words.
pub entry_address-ne :
    (t t' va va' : ℕ)
    → t % 4096 ≡ 0
    → t' % 4096 ≡ 0
    → (t' ≢ t) ⊎ (virtual_to_table_index va' ≢ virtual_to_table_index va)
    → entry_address t' va' ≢ entry_address t va
entry_address-ne t t' va va' h h' (inl ne) e = ne (omega (arith, table_index va, table_index va'))
entry_address-ne t t' va va' h h' (inr ne) e = ne (omega (arith, table_index va, table_index va'))

-- An entry lies in its own table, and in no other.
entry_inside :
    (t va : ℕ) → (leb t (entry_address t va) && ltb (entry_address t va) (t + 4096)) ≡ true
entry_inside t va =
    let b : virtual_to_table_index va < 1024 = omega (arith, table_index va) in ground arith

entry_outside :
    (t t' va : ℕ)
    → t % 4096 ≡ 0
    → t' % 4096 ≡ 0
    → t' ≢ t
    → (leb t (entry_address t' va) && ltb (entry_address t' va) (t + 4096)) ≡ false
entry_outside t t' va h h' ne =
    let b : virtual_to_table_index va < 1024 = omega (arith, table_index va) in ground arith

pub unmapped :
    (dir va : ℕ) (s : Paging) → is_mapped dir va s ≡ false → get_physical_address dir va s ≡ 0
unfolding get_physical_address
unmapped dir va s h = rw h refl

pub mapped :
    (dir va : ℕ) (s : Paging)
    → is_mapped dir va s ≡ true
    → get_physical_address dir va s
      ≡ mul32 (s.tables (mapped_at dir va s)).page_frame 4096 + va % 4096
unfolding get_physical_address
mapped dir va s h = rw (h, bit_and-mask 12 va) refl

pub not_mapped :
    (dir va : ℕ) (s : Paging)
    → (directory_entry dir va s).present ≡ false
    → is_mapped dir va s ≡ false
unfolding is_mapped
not_mapped dir va s h = ground arith

-- A look-up depends on the directory entry and on the table entry it names.
pub get_physical_address-ext :
    (dir va : ℕ) (s t : Paging)
    → directory_entry dir va t ≡ directory_entry dir va s
    → ((directory_entry dir va s).present ≡ true
        → t.tables (mapped_at dir va s) ≡ s.tables (mapped_at dir va s))
    → get_physical_address dir va t ≡ get_physical_address dir va s
unfolding get_physical_address is_mapped
get_physical_address-ext dir va s t d same = elim (Bool-cases (directory_entry dir va s).present) [
  | inl p ↦ rw (d, same p)
  | inr p ↦
      unmapped dir va t (not_mapped dir va t (ap (λ e. e.present) d ∙ p))
      ∙ sym (unmapped dir va s (not_mapped dir va s p))
]

-- What map_page did when it succeeded: the table it wrote to was there, or is new.
pub map_page_cases :
    (dir va pa flags table : ℕ) (s : Paging)
    → (map_page dir va pa flags table s).0 ≡ success
    → ((dir ≢ 0)
        × ((directory_entry dir va s).present ≡ true)
        × (map_page dir va pa flags table s
            ≡ (success, map_entry (table_of (directory_entry dir va s)) va pa flags s)))
      ⊎ ((dir ≢ 0)
          × ((directory_entry dir va s).present ≡ false)
          × (map_page dir va pa flags table s
              ≡ (success, map_entry table va pa flags (new_table dir va flags table s))))
unfolding map_page
map_page_cases dir va pa flags table s e = elim (Bool-cases (directory_entry dir va s).present) [
  | inl p ↦ inl (λ z. ground arith, p, ground arith)
  | inr p ↦ inr (λ z. ground arith, p, ground arith)
]

-- What map_entry leaves at its own entry, and elsewhere
pub map_entry_self :
    (table va pa flags : ℕ) (s : Paging)
    → (map_entry table va pa flags s).tables (entry_address table va) ≡ record {
      present = wants_present flags;
      writable = wants_writable flags;
      user = wants_user flags;
      page_frame = pa / 2 ^ 12;
    }
unfolding map_entry
map_entry_self table va pa flags s = rw (==-refl (entry_address table va)) refl

pub map_entry_ne :
    (table va pa flags a : ℕ) (s : Paging)
    → a ≢ entry_address table va
    → (map_entry table va pa flags s).tables a ≡ s.tables a
unfolding map_entry
map_entry_ne table va pa flags a s ne = rw (ne→== a (entry_address table va) ne) refl

map_entry-directories :
    (table va pa flags : ℕ) (s : Paging)
    → (map_entry table va pa flags s).directories ≡ s.directories
unfolding map_entry
map_entry-directories table va pa flags s = refl

-- The directory entry of a new table, the other entries, and the words around the table
pub new_table_self :
    (dir va flags table : ℕ) (s : Paging)
    → table % 4096 ≡ 0
    → table < 2 ^ 32
    → ((directory_entry dir va (new_table dir va flags table s)).present ≡ true)
      × (table_of (directory_entry dir va (new_table dir va flags table s)) ≡ table)
unfolding new_table
new_table_self dir va flags table s h b =
    rw (==-refl dir, ==-refl (virtual_to_page_index va)) (refl, omega arith)

pub new_table_ne :
    (dir va flags table i : ℕ) (s : Paging)
    → i ≢ virtual_to_page_index va
    → (new_table dir va flags table s).directories dir i ≡ s.directories dir i
unfolding new_table
new_table_ne dir va flags table i s ne =
    rw (==-refl dir, ne→== i (virtual_to_page_index va) ne) refl

pub new_table_inside :
    (dir va flags table va' : ℕ) (s : Paging)
    → (new_table dir va flags table s).tables (entry_address table va') ≡ no_entry
unfolding new_table
new_table_inside dir va flags table va' s = rw (entry_inside table va') refl

pub new_table_outside :
    (dir va flags table table' va' : ℕ) (s : Paging)
    → table % 4096 ≡ 0
    → table' % 4096 ≡ 0
    → table' ≢ table
    → (new_table dir va flags table s).tables (entry_address table' va')
      ≡ s.tables (entry_address table' va')
unfolding new_table
new_table_outside dir va flags table table' va' s h h' ne =
    rw (entry_outside table table' va' h h' ne) refl
