-- ===== src/Fs/Descriptors.antt =====
-- kernel/fs/fs.c: fs_close, fs_read, fs_write, fs_seek, and the part of fs_open behind the path: the search of a free
-- descriptor and its initialisation. A descriptor number is from 0 on; the code refuses negative ones.
-- Reading and writing file contents is not implemented in the code: fs_read and fs_write return 0.
use trade_kernel.Base.{
  ℕ, ◌<◌, ◌≡◌, ◌≢◌, ◌∙◌, sym, ap, refl, inl, inr, Bool, true, false, not, ◌||◌, [], Option, none,
  some, length, ltb, leb, ◌==◌, if◌then◌else◌, get_or, set, get_or-set_self, get_or-set_ne,
  length-set, arith, Bool-cases, Option-cases, find_from, find_from_sound,
}
use trade_kernel.Fs.State.{
  Fs, Inode, FileDescriptor, FsResult, ok, err, not_found, no_space, invalid, max_open_files,
}

abbrev pub no_inode : Inode
no_inode = record {
  inode_num = 0;
  file_type = 0;
  permissions = 0;
  reserved = 0;
  size = 0;
  blocks_used = 0;
  created_time = 0;
  modified_time = 0;
  direct_blocks = [];
  indirect_block = 0;
  double_indirect = 0;
}

abbrev pub no_descriptor : FileDescriptor
no_descriptor = record {
  inode_num = 0;
  position = 0;
  flags = 0;
  in_use = false;
  inode_cache = no_inode;
}

abbrev pub descriptor : Fs → ℕ → FileDescriptor
descriptor s fd = get_or s.file_descriptors fd no_descriptor

abbrev pub store_descriptor : Fs → ℕ → FileDescriptor → Fs
store_descriptor s fd d = record s { file_descriptors = set s.file_descriptors fd d }

abbrev pub is_open : Fs → ℕ → Bool
is_open s fd = (descriptor s fd).in_use

unfoldable pub find_free : Fs → Option ℕ
find_free s = find_from (λ i. not (is_open s i)) max_open_files 0

-- fs_open where `inode_num` is the result of resolve_path (`none` if it fails) and `inode` that of
-- _fs_read_inode, which writes nothing when it fails.
unfoldable pub fs_open : Option ℕ → Option Inode → ℕ → Fs → FsResult × Fs
fs_open inode_num inode flags s =
    if s.mounted
    then elim (find_free s) [
      | none ↦ (err no_space, s)
      | some fd ↦ elim inode_num [
        | none ↦ (err not_found, s)
        | some n ↦ elim inode [
          | none ↦ (err invalid, s)
          | some i ↦ (
            ok fd,
            store_descriptor s fd (record {
              inode_num = n;
              position = 0;
              flags = flags;
              in_use = true;
              inode_cache = i;
            }),
          )
        ]
      ]
    ]
    else (err invalid, s)

-- `fd >= MAX_OPEN_FILES || !file_descriptors[fd].in_use`
abbrev pub is_bad : Fs → ℕ → Bool
is_bad s fd = leb max_open_files fd || not (is_open s fd)

unfoldable pub fs_close : ℕ → Fs → FsResult × Fs
fs_close fd s =
    if is_bad s fd
    then (err invalid, s)
    else (ok 0, store_descriptor s fd (record (descriptor s fd) { in_use = false }))

-- `buffer` is the pointer, NULL is 0.
unfoldable pub fs_read : ℕ → ℕ → Fs → FsResult
fs_read fd buffer s = if is_bad s fd || buffer == 0 then err invalid else ok 0

unfoldable pub fs_write : ℕ → ℕ → Fs → FsResult
fs_write fd buffer s = if is_bad s fd || buffer == 0 then err invalid else ok 0

unfoldable pub fs_seek : ℕ → ℕ → Fs → FsResult × Fs
fs_seek fd position s =
    if is_bad s fd
    then (err invalid, s)
    else (if ltb (descriptor s fd).inode_cache.size position
        then (err invalid, s)
        else (ok 0, store_descriptor s fd (record (descriptor s fd) { position = position })))

abbrev opened : ℕ → ℕ → Inode → FileDescriptor
opened n flags i = record {
  inode_num = n;
  position = 0;
  flags = flags;
  in_use = true;
  inode_cache = i;
}

-- What fs_open did when it returned a descriptor.
fs_open_cases :
    (inode_num : Option ℕ) (inode : Option Inode) (flags fd : ℕ) (s : Fs)
    → (fs_open inode_num inode flags s).0 ≡ ok fd
    → (find_free s ≡ some fd)
      × ((n : ℕ) × (i : Inode) × (fs_open inode_num inode flags s
            ≡ (ok fd, store_descriptor s fd (opened n flags i))))
unfolding fs_open
fs_open_cases none inode flags fd s e =
    absurd (elim (Option-cases (find_free s)) [ inl z ↦ ground arith | inr (k, z) ↦ ground arith ])
fs_open_cases (some n) none flags fd s e =
    absurd (elim (Option-cases (find_free s)) [ inl z ↦ ground arith | inr (k, z) ↦ ground arith ])
fs_open_cases (some n) (some i) flags fd s e = elim (Bool-cases s.mounted) [
  | inl m ↦ elim (Option-cases (find_free s)) [
    | inl z ↦ absurd (ground arith)
    | inr (k, z) ↦
        let shape : fs_open (some n) (some i) flags s
            ≡ (ok k, store_descriptor s k (opened n flags i)) =
          ground arith in
        let q : ok k ≡ ok fd = rw shape at e in
        let same : k ≡ fd = cc q in
        (
          z ∙ ap some same,
          (n, i, shape ∙ ap (λ x. (ok x, store_descriptor s x (opened n flags i))) same),
        )
  ]
  | inr m ↦ absurd (ground arith)
]

fs_close_of_open :
    (fd : ℕ) (s : Fs)
    → fd < max_open_files
    → is_open s fd ≡ true
    → fs_close fd s ≡ (ok 0, store_descriptor s fd (record (descriptor s fd) { in_use = false }))
unfolding fs_close
fs_close_of_open fd s low shown = let good : is_bad s fd ≡ false = ground arith in rw good refl

-- A descriptor that fs_open returns is below 32 and was not open; it is then open at position 0, every
-- other descriptor is as before, and fs_close of it succeeds and leaves it closed.
pub fs_open-fresh :
    (inode_num : Option ℕ) (inode : Option Inode) (flags fd : ℕ) (s : Fs)
    → length s.file_descriptors ≡ max_open_files
    → (fs_open inode_num inode flags s).0 ≡ ok fd
    → let t = (fs_open inode_num inode flags s).1 in
      let (r, u) = fs_close fd t in
      (fd < max_open_files)
      × (is_open s fd ≡ false)
      × (is_open t fd ≡ true)
      × ((descriptor t fd).position ≡ 0)
      × ((j : ℕ) → j ≢ fd → descriptor t j ≡ descriptor s j)
      × (r ≡ ok 0)
      × (is_open u fd ≡ false)
unfolding find_free
fs_open-fresh inode_num inode flags fd s len e =
    let (found, (n, i, q)) = fs_open_cases inode_num inode flags fd s e in
    let (free, low, high) = find_from_sound (λ j. not (is_open s j)) max_open_files 0 found in
    let room : fd < length s.file_descriptors = omega arith in
    let d = opened n flags i in
    let t = store_descriptor s fd d in
    let stored : descriptor t fd ≡ d = get_or-set_self s.file_descriptors fd d no_descriptor room in
    let shown : is_open t fd ≡ true = ap (λ x. x.in_use) stored in
    let room' : fd < length t.file_descriptors = rw (length-set s.file_descriptors fd d) room in
    let below : fd < max_open_files = omega arith in
    rw (q, fs_close_of_open fd t below shown)
      (
        below,
        ground arith,
        shown,
        ap (λ x. x.position) stored,
        (λ j ne. get_or-set_ne s.file_descriptors fd j d no_descriptor (λ x. ne (sym x))),
        refl,
        ap (λ x. x.in_use)
            (get_or-set_self t.file_descriptors fd (record (descriptor t fd) { in_use = false })
              no_descriptor room'),
      )
