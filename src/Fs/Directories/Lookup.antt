-- ===== src/Fs/Directories/Lookup.antt =====
-- kernel/fs/fs.c: find_directory_entry after add_directory_entry.
use trade_kernel.Base.{
  ℕ, ◌<◌, ◌≡◌, ◌≢◌, ◌⊎◌, ◌∙◌, refl, sym, ap, subst, inl, inr, true, false, List, [], ◌∷◌, Option,
  none, some, ◌==◌, ne→==, ==→eq, Bool-cases, Option-cases, find_from_sound, add32, arith,
}
use trade_kernel.Fs.State.{Inode, DirectoryEntry}
use trade_kernel.Fs.Layout.RoundTrips.{IsInode}
use trade_kernel.Fs.Inodes.{Volume, read_block, fs_read_inode, inode_block, is_no_inode}
use trade_kernel.Fs.Inodes.Blocks.{IsServed}
use trade_kernel.Fs.Directories.{
  find_directory_entry, find_in_blocks, find_step, find_in_block, find_free_slot, slot_step,
  free_slot, used_blocks, file_type_directory, entry_size,
}

abbrev pub IsIn : ℕ → List ℕ → Type 0
IsIn b [] = ⊥
IsIn b (c ∷ cs) = (b ≡ c) ⊎ IsIn b cs

-- A round of the search that finds nothing leaves the result to the rounds behind it.
find_step-none :
    (name : List ℕ) (c : ℕ) (o : Option (List ℕ)) (rest : Option DirectoryEntry)
    → find_step name c o rest ≡ none
    → (rest ≡ none) × ((next : Option DirectoryEntry) → find_step name c o next ≡ next)
unfolding find_step
find_step-none name c none rest f = (f, λ next. refl)
find_step-none name c (some block) rest f = elim (Bool-cases (c == 0)) [
  | inl z ↦ (rw z at f, λ next. rw z refl)
  | inr z ↦ elim (Option-cases (find_in_block name block)) [
    | inl e ↦ (ground arith, λ next. rw (z, e, find_step) refl)
    | inr (d, e) ↦ absurd (ground arith)
  ]
]

find_step-found :
    (name : List ℕ) (c : ℕ) (block : List ℕ) (e : DirectoryEntry) (rest : Option DirectoryEntry)
    → c ≢ 0
    → find_in_block name block ≡ some e
    → find_step name c (some block) rest ≡ some e
unfolding find_step
find_step-found name c block e rest nz g = rw (ne→== c 0 nz, g, find_step) refl

some_ne_none : (e : DirectoryEntry) → some e ≢ none
some_ne_none e p = cc

pub find_in_blocks-found :
    (name bs : List ℕ) (v w : Volume) (b : ℕ) (block : List ℕ) (e : DirectoryEntry)
    → find_in_blocks name bs v ≡ none
    → IsIn b bs
    → b ≢ 0
    → read_block b w ≡ some block
    → find_in_block name block ≡ some e
    → ((c : ℕ) → IsIn c bs → c ≢ b → read_block c w ≡ read_block c v)
    → find_in_blocks name bs w ≡ some e
unfolding find_in_blocks
find_in_blocks-found name [] v w b block e f m nz r g kept = absurd m
find_in_blocks-found name (c ∷ cs) v w b block e f m nz r g kept = elim (Bool-cases (c == b)) [
  | inl q ↦
      let same : c ≡ b = ==→eq c b q in
      ap (λ o. find_step name c o (find_in_blocks name cs w)) (ap (λ x. read_block x w) same ∙ r)
      ∙ find_step-found name c block e (find_in_blocks name cs w) (λ z. nz (sym same ∙ z)) g
  | inr q ↦
      let apart : c ≢ b = λ x. ground arith in
      let (rest, pass) = find_step-none name c (read_block c v) (find_in_blocks name cs v) f in
      let deeper : IsIn b cs = elim m [ inl x ↦ absurd (apart (sym x)) | inr x ↦ x ] in
      rw (kept c (inl refl) apart, pass (find_in_blocks name cs w))
        (find_in_blocks-found name cs v w b block e rest deeper nz r g (λ d x. kept d (inr x)))
]

-- Where the name is not found, no block that the search visits has it.
pub find_in_blocks-none :
    (name bs : List ℕ) (v : Volume) (b : ℕ) (block : List ℕ)
    → find_in_blocks name bs v ≡ none
    → IsIn b bs
    → b ≢ 0
    → read_block b v ≡ some block
    → find_in_block name block ≡ none
unfolding find_in_blocks
find_in_blocks-none name [] v b block f m nz r = absurd m
find_in_blocks-none name (c ∷ cs) v b block f (inl q) nz r =
    elim (Option-cases (find_in_block name block)) [
      | inl e ↦ e
      | inr (e, g) ↦
          let here : find_step name c (read_block c v) (find_in_blocks name cs v) ≡ some e =
            ap (λ o. find_step name c o (find_in_blocks name cs v))
              (ap (λ x. read_block x v) (sym q) ∙ r)
            ∙ find_step-found name c block e (find_in_blocks name cs v) (λ z. nz (q ∙ z)) g in
          absurd (some_ne_none e (sym here ∙ f))
    ]
find_in_blocks-none name (c ∷ cs) v b block f (inr m) nz r =
    let (rest, pass) = find_step-none name c (read_block c v) (find_in_blocks name cs v) f in
    find_in_blocks-none name cs v b block rest m nz r

-- The slot that the search returns
pub record IsSlot (bs : List ℕ) (v : Volume) (b : ℕ) (block : List ℕ) (j : ℕ) : Type 0 where
  pub visited : IsIn b bs
  pub number : b ≢ 0
  pub read : read_block b v ≡ some block
  pub low : j < 12

slot_step-some :
    (c : ℕ) (o : Option (List ℕ)) (rest : Option (ℕ × List ℕ × ℕ)) (b : ℕ) (block : List ℕ) (j : ℕ)
    → slot_step c o rest ≡ some (b, block, j)
    → ((b ≡ c) × (b ≢ 0) × (o ≡ some block) × (j < 12)) ⊎ (rest ≡ some (b, block, j))
unfolding slot_step
slot_step-some c none rest b block j f = inr f
slot_step-some c (some held) rest b block j f = elim (Bool-cases (c == 0)) [
  | inl z ↦ inr (rw z at f)
  | inr z ↦ elim (Option-cases (free_slot held)) [
    | inl e ↦ inr (ground arith)
    | inr (k, e) ↦
        let g : slot_step c (some held) rest ≡ some (c, held, k) = rw (z, e, slot_step) refl in
        let p : ◌≡◌ {A = Option (ℕ × List ℕ × ℕ)} (some (c, held, k)) (some (b, block, j)) =
          sym g ∙ f in
        let (s, l, h) = find_from_sound _ 12 0 e in
        let q : c ≡ b = cc in
        let o : held ≡ block = cc in
        let i : k ≡ j = cc in inl (sym q, (λ x. ground arith), ap some o, omega arith)
  ]
]

pub find_free_slot-IsSlot :
    (bs : List ℕ) (v : Volume) (b : ℕ) (block : List ℕ) (j : ℕ)
    → find_free_slot bs v ≡ some (b, block, j)
    → IsSlot bs v b block j
unfolding find_free_slot
find_free_slot-IsSlot [] v b block j f = absurd (cc)
find_free_slot-IsSlot (c ∷ cs) v b block j f =
    elim (slot_step-some c (read_block c v) (find_free_slot cs v) b block j f) [
      | inl (q, nz, r, l) ↦ record {
        visited = inl q;
        number = nz;
        read = subst (λ x. read_block x v ≡ some block) (sym q) r;
        low = l;
      }
      | inr g ↦
          let s = find_free_slot-IsSlot cs v b block j g in
          record { visited = inr s.visited; number = s.number; read = s.read; low = s.low }
    ]

-- A directory whose blocks and inode the drive serves, and whose blocks are not the one that holds its inode
pub record IsDirectory (dir : ℕ) (i : Inode) (v : Volume) : Type 0 where
  pub read : fs_read_inode dir v ≡ some i
  pub kind : i.file_type ≡ 2
  pub fits : IsInode i
  pub valid : is_no_inode dir v ≡ false
  pub served : IsServed v (inode_block dir)
  pub blocks : (c : ℕ) → IsIn c (used_blocks i) → IsServed v c
  pub apart : (c : ℕ) → IsIn c (used_blocks i) → c ≢ inode_block dir

unfoldable pub grown : Inode → Inode
grown i = record i { size = add32 i.size entry_size }

pub grown-IsInode : (i : Inode) → IsInode i → IsInode (grown i)
unfolding grown
grown-IsInode i h = record {
  inode_num = h.inode_num;
  reserved = h.reserved;
  size = omega arith;
  blocks_used = h.blocks_used;
  created_time = h.created_time;
  modified_time = h.modified_time;
  blocks = h.blocks;
  twelve = h.twelve;
  indirect_block = h.indirect_block;
  double_indirect = h.double_indirect;
}

pub not_found_in :
    (dir : ℕ) (name : List ℕ) (i : Inode) (v : Volume)
    → fs_read_inode dir v ≡ some i
    → i.file_type ≡ 2
    → find_directory_entry dir name v ≡ find_in_blocks name (used_blocks i) v
unfolding find_directory_entry
not_found_in dir name i v r k =
    let t : (i.file_type == file_type_directory) ≡ true = rw k refl in
    rw (r, find_directory_entry, t) refl
