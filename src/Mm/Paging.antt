-- ===== src/Mm/Paging.antt =====
-- kernel/mm/paging.c and paging.h: page directories and tables, the mapping of a page, and the allocator
-- of physical page frames. A pointer is its address, NULL is 0. The entries of a page table are words of
-- memory, found by their address, so that two pointers into one table name the same entry.
-- What kmalloc returns is an argument of the operation that calls it.
pub mod Tables
pub mod Mapping
pub mod Separation
pub mod Frames
use trade_kernel.Base.{
  ℕ, ◌+◌, ◌-◌, ◌*◌, ◌/◌, ◌%◌, ◌^◌, Bool, true, false, not, ◌||◌, ◌&&◌, List, [], ◌∷◌, ltb, leb,
  ◌==◌, if◌then◌else◌, add32, sub32, mul32, bit_and, test_bit,
}

abbrev pub page_size : ℕ
page_size = 4096

-- page_directory_entry_t, the bits the code uses
pub record PageDirectoryEntry : Type 0 where
  pub present : Bool
  pub writable : Bool
  pub user : Bool
  pub page_table : ℕ

-- page_table_entry_t, the bits the code uses
pub record PageTableEntry : Type 0 where
  pub present : Bool
  pub writable : Bool
  pub user : Bool
  pub page_frame : ℕ

-- page_frame_t; `next` is the rest of the list
pub record PageFrame : Type 0 where
  pub physical_addr : ℕ
  pub ref_count : ℕ

-- memory_stats_t
pub record MemoryStats : Type 0 where
  pub total_pages : ℕ
  pub free_pages : ℕ
  pub used_pages : ℕ
  pub kernel_pages : ℕ
  pub user_pages : ℕ
  pub page_faults : ℕ
  pub page_fault_resolved : ℕ

-- The entry `i` of the directory at `dir` is `directories dir i`.
pub record Paging : Type 0 where
  pub directories : ℕ → ℕ → PageDirectoryEntry
  pub tables : ℕ → PageTableEntry
  pub free_page_frames : List PageFrame
  pub next_page_frame : ℕ
  pub max_memory : ℕ
  pub mem_stats : MemoryStats
  pub kernel_page_directory : ℕ
  pub current_page_directory : ℕ

-- The `int` results 0 and -1
pub data Status : Type 0 where
  success failure : Status

abbrev pub no_entry : PageTableEntry
no_entry = record { present = false; writable = false; user = false; page_frame = 0 }

-- PAGE_PRESENT, PAGE_WRITABLE and PAGE_USER are the bits 0, 1 and 2.
abbrev pub wants_present : ℕ → Bool
wants_present flags = test_bit flags 0

abbrev pub wants_writable : ℕ → Bool
wants_writable flags = test_bit flags 1

abbrev pub wants_user : ℕ → Bool
wants_user flags = test_bit flags 2

unfoldable pub virtual_to_page_index : ℕ → ℕ
virtual_to_page_index virtual_addr = bit_and (virtual_addr / 2 ^ 22) 1023

unfoldable pub virtual_to_table_index : ℕ → ℕ
virtual_to_table_index virtual_addr = bit_and (virtual_addr / 2 ^ 12) 1023

-- `& ~(PAGE_SIZE - 1)` drops the twelve low bits.
unfoldable pub page_align_down : ℕ → ℕ
page_align_down addr = addr / page_size * page_size

unfoldable pub page_align_up : ℕ → ℕ
page_align_up addr = sub32 (add32 addr page_size) 1 / page_size * page_size

unfoldable pub paging_init : Paging → Paging
paging_init s = record s {
  mem_stats = record {
    total_pages = s.max_memory / page_size;
    free_pages = sub32 (s.max_memory / page_size) (s.next_page_frame / page_size);
    used_pages = 0;
    kernel_pages = 0;
    user_pages = 0;
    page_faults = 0;
    page_fault_resolved = 0;
  };
  kernel_page_directory = 0;
  current_page_directory = 0;
}

-- The load of the register is left out.
unfoldable pub switch_page_directory : ℕ → Paging → Paging
switch_page_directory dir s = if dir == 0 then s else record s { current_page_directory = dir }

-- `dir` is what kmalloc returned; memset clears the directory.
unfoldable pub create_page_directory : ℕ → Paging → ℕ × Paging
create_page_directory dir s = if dir == 0 then (0, s) else (
  dir,
  record s {
    directories = λ d i.
        if d == dir
        then record { present = false; writable = false; user = false; page_table = 0 }
        else s.directories d i;
  },
)

-- The address of the table that a directory entry names, and of an entry of a table
abbrev pub table_of : PageDirectoryEntry → ℕ
table_of e = mul32 e.page_table 4096

abbrev pub entry_address : ℕ → ℕ → ℕ
entry_address table virtual_addr = table + virtual_to_table_index virtual_addr * 4

abbrev pub directory_entry : ℕ → ℕ → Paging → PageDirectoryEntry
directory_entry dir virtual_addr s = s.directories dir (virtual_to_page_index virtual_addr)

-- The entry that every later operation reads for an address
abbrev pub mapped_at : ℕ → ℕ → Paging → ℕ
mapped_at dir virtual_addr s =
    entry_address (table_of (directory_entry dir virtual_addr s)) virtual_addr

abbrev pub store_entry : ℕ → PageTableEntry → Paging → Paging
store_entry a e s = record s { tables = λ x. if x == a then e else s.tables x }

-- memset of a new table, and its directory entry
unfoldable pub new_table : ℕ → ℕ → ℕ → ℕ → Paging → Paging
new_table dir virtual_addr flags table s = record s {
  tables = λ x. if leb table x && ltb x (table + 4096) then no_entry else s.tables x;
  directories = λ d i.
      if (d == dir) && (i == virtual_to_page_index virtual_addr)
      then record {
        present = true;
        writable = wants_writable flags;
        user = wants_user flags;
        page_table = table / 2 ^ 12;
      }
      else s.directories d i;
}

abbrev pub count_mapped : ℕ → MemoryStats → MemoryStats
count_mapped flags m =
    let n = record m { used_pages = add32 m.used_pages 1 } in
    if wants_user flags
    then record n { user_pages = add32 m.user_pages 1 }
    else record n { kernel_pages = add32 m.kernel_pages 1 }

-- The page table entry and the statistics at the end of map_page
unfoldable pub map_entry : ℕ → ℕ → ℕ → ℕ → Paging → Paging
map_entry table virtual_addr physical_addr flags s =
    let t =
      store_entry (entry_address table virtual_addr)
        (record {
          present = wants_present flags;
          writable = wants_writable flags;
          user = wants_user flags;
          page_frame = physical_addr / 2 ^ 12;
        })
        s in
    record t { mem_stats = count_mapped flags s.mem_stats }

-- `table` is what kmalloc returns where a new table is needed.
unfoldable pub map_page : ℕ → ℕ → ℕ → ℕ → ℕ → Paging → Status × Paging
map_page dir virtual_addr physical_addr flags table s =
    if dir == 0
    then (failure, s)
    else (if (directory_entry dir virtual_addr s).present
        then (
          success,
          map_entry (table_of (directory_entry dir virtual_addr s)) virtual_addr physical_addr flags
              s,
        )
        else (if table == 0 then (failure, s) else (
          success,
          map_entry table virtual_addr physical_addr flags
              (new_table dir virtual_addr flags table s),
        )))

-- An address that is mapped: `!dir`, the directory entry and the table entry are checked in this order.
unfoldable pub is_mapped : ℕ → ℕ → Paging → Bool
is_mapped dir virtual_addr s =
    not (dir == 0)
    && (directory_entry dir virtual_addr s).present
    && (s.tables (mapped_at dir virtual_addr s)).present

-- `frame` is what kmalloc returned for the list node.
unfoldable pub free_page_frame : ℕ → ℕ → Paging → Paging
free_page_frame physical_addr frame s = if frame == 0 then s else record s {
  free_page_frames = record { physical_addr = physical_addr; ref_count = 0 } ∷ s.free_page_frames;
  mem_stats = record s.mem_stats { free_pages = add32 s.mem_stats.free_pages 1 };
}

abbrev pub count_taken : MemoryStats → MemoryStats
count_taken m = record m { free_pages = sub32 m.free_pages 1 }

-- The cases of the free list; kfree of the list node is left out.
unfoldable pub allocate_from : List PageFrame → Paging → ℕ × Paging
allocate_from (f ∷ rest) s =
    (f.physical_addr, record s { free_page_frames = rest; mem_stats = count_taken s.mem_stats })
allocate_from [] s = if ltb s.max_memory (add32 s.next_page_frame page_size) then (0, s) else (
  s.next_page_frame,
  record s {
    next_page_frame = add32 s.next_page_frame page_size;
    mem_stats = count_taken s.mem_stats;
  },
)

-- The first component is the address, 0 if there is no memory.
unfoldable pub allocate_page_frame : Paging → ℕ × Paging
allocate_page_frame s = allocate_from s.free_page_frames s

-- `frame` is what kmalloc returns inside free_page_frame.
unfoldable pub unmap_page : ℕ → ℕ → ℕ → Paging → Status × Paging
unmap_page dir virtual_addr frame s =
    if not (is_mapped dir virtual_addr s)
    then (failure, s)
    else let a = mapped_at dir virtual_addr s in
      let t = free_page_frame (mul32 (s.tables a).page_frame 4096) frame s in
      let u = store_entry a (record (s.tables a) { present = false; page_frame = 0 }) t in
      (
        success,
        record u { mem_stats = record u.mem_stats { used_pages = sub32 u.mem_stats.used_pages 1 } },
      )

-- The frame's address ends in twelve zeros, so `|` with the offset is `+`.
unfoldable pub get_physical_address : ℕ → ℕ → Paging → ℕ
get_physical_address dir virtual_addr s =
    if is_mapped dir virtual_addr s
    then mul32 (s.tables (mapped_at dir virtual_addr s)).page_frame 4096 + bit_and virtual_addr 4095
    else 0

unfoldable pub set_page_permissions : ℕ → ℕ → ℕ → Paging → Status × Paging
set_page_permissions dir virtual_addr flags s =
    if not (is_mapped dir virtual_addr s)
    then (failure, s)
    else let a = mapped_at dir virtual_addr s in
      (
        success,
        store_entry a
            (record (s.tables a) { writable = wants_writable flags; user = wants_user flags }) s,
      )

unfoldable pub is_page_accessible : ℕ → ℕ → ℕ → Paging → Bool
is_page_accessible dir virtual_addr required_flags s =
    let e = s.tables (mapped_at dir virtual_addr s) in
    if not (is_mapped dir virtual_addr s)
    then false
    else (if wants_writable required_flags && not e.writable
        then false
        else (if wants_user required_flags && not e.user then false else true))
