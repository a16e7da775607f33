-- ===== src/Fs/Directories/Entries.antt =====
-- kernel/fs/fs.c: the entries of one block of a directory.
use trade_kernel.Base.{
  ℕ, zero, suc, ◌+◌, ◌*◌, ◌^◌, ◌<◌, ◌≤◌, ◌≡◌, ◌≢◌, ◌⊎◌, ◌∙◌, refl, ap, subst, inl, inr, Bool, true,
  false, List, [], ◌∷◌, ◌++◌, append_assoc, none, some, ◌==◌, ==-refl, ne→==, Bool-cases,
  Option-cases, length, length-append, get_or, set, drop, find_from, find_from_sound,
  find_from-none, arith,
}
use trade_kernel.Fs.State.{DirectoryEntry}
use trade_kernel.Fs.Layout.{entry_bytes, entry_of, slice, store}
use trade_kernel.Fs.Layout.Slices.{slice-store, slice-store_other, length-store}
use trade_kernel.Fs.Layout.RoundTrips.{IsWord, entry_of-entry_bytes}
use trade_kernel.Fs.Directories.{
  entry_at, store_entry, names_match, is_entry, find_in_block, text_of, fill_entry,
}

-- Entries that fit their fields
pub record IsDirectoryEntry (e : DirectoryEntry) : Type 0 where
  pub inode_num : IsWord e.inode_num
  pub name_length : e.name_length < 2 ^ 16
  pub name : length e.name ≡ 32

length-entry_bytes : (e : DirectoryEntry) → length e.name ≡ 32 → length (entry_bytes e) ≡ 40
unfolding entry_bytes
length-entry_bytes e h = omega arith

pub length-slice_name : (bs : List ℕ) (o : ℕ) → length (entry_of (slice bs o 40)).name ≡ 32
unfolding entry_of slice
length-slice_name bs o = refl

entry_at-store_entry_self :
    (block : List ℕ) (j : ℕ) (e : DirectoryEntry)
    → length block ≡ 512
    → j < 12
    → IsDirectoryEntry e
    → entry_at (store_entry block j e) j ≡ e
entry_at-store_entry_self block j e b h v =
    let bytes : slice (store_entry block j e) (j * 40) 40 ≡ entry_bytes e =
      subst (λ k. slice (store_entry block j e) (j * 40) k ≡ entry_bytes e)
        (length-entry_bytes e v.name)
        (slice-store (j * 40) (entry_bytes e) block (omega (arith, length-entry_bytes e v.name))) in
    ap entry_of bytes ∙ entry_of-entry_bytes e v.inode_num v.name_length

entry_at-store_entry_ne :
    (block : List ℕ) (j k : ℕ) (e : DirectoryEntry)
    → length e.name ≡ 32
    → k ≢ j
    → entry_at (store_entry block j e) k ≡ entry_at block k
entry_at-store_entry_ne block j k e h ne =
    let apart : (k * 40 + 40 ≤ j * 40) ⊎ (j * 40 + length (entry_bytes e) ≤ k * 40) =
      let l = length-entry_bytes e h in ground arith in
    ap entry_of (slice-store_other (j * 40) (k * 40) 40 (entry_bytes e) block apart)

-- A C string in its array
abbrev pub IsText : List ℕ → Type 0
IsText [] = Unit
IsText (c ∷ cs) = (c ≢ 0) × IsText cs

store-shift : (o b : ℕ) (xs bs : List ℕ) → store (suc o) xs (b ∷ bs) ≡ b ∷ store o xs bs
unfolding store
store-shift o b [] bs = refl
store-shift o b (x ∷ xs) bs =
    let e : suc o + 1 ≡ suc (o + 1) = omega arith in rw e (store-shift (o + 1) b xs (set bs o x))

store-start : (xs bs : List ℕ) → length xs ≤ length bs → store 0 xs bs ≡ xs ++ drop (length xs) bs
unfolding store
store-start [] bs h = refl
store-start (x ∷ xs) [] h = absurd (omega arith)
store-start (x ∷ xs) (b ∷ bs) h =
    store-shift 0 x xs bs ∙ ap (◌∷◌ x) (store-start xs bs (omega arith))

text_of-text :
    (n : ℕ) (text rest : List ℕ)
    → IsText text
    → length text ≤ n
    → text_of n (text ++ (0 ∷ rest)) ≡ text
unfolding text_of
text_of-text zero [] rest t h = refl
text_of-text zero (c ∷ cs) rest t h = absurd (omega arith)
text_of-text (suc n) [] rest t h = refl
text_of-text (suc n) (c ∷ cs) rest (ne, t) h =
    rw (ne→== c 0 ne, text_of-text n cs rest t (omega arith)) refl

names_match-text :
    (n : ℕ) (text xs bs : List ℕ) → names_match n (text ++ (0 ∷ xs)) (text ++ (0 ∷ bs)) ≡ true
unfolding names_match
names_match-text zero text xs bs = refl
names_match-text (suc n) [] xs bs = refl
names_match-text (suc n) (c ∷ cs) xs bs = elim (Bool-cases (c == 0)) [
  | inl e ↦ rw e refl
  | inr e ↦ rw (e, ==-refl c) (names_match-text n cs xs bs)
]

get_or-text : (text rest : List ℕ) → get_or (text ++ (0 ∷ rest)) (length text) 0 ≡ 0
get_or-text [] rest = refl
get_or-text (c ∷ cs) rest = get_or-text cs rest

-- A search where one index of the range passes, and no other one
find_from_unique :
    (p : ℕ → Bool) (n j : ℕ)
    → j < n
    → p j ≡ true
    → ((k : ℕ) → k < n → k ≢ j → p k ≡ false)
    → find_from p n 0 ≡ some j
find_from_unique p n j low t f = elim (Option-cases (find_from p n 0)) [
  | inl e ↦ absurd (let g = find_from-none p n 0 j e (omega arith) (omega arith) in cc)
  | inr (k, e) ↦
      let (s, l, h) = find_from_sound p n 0 e in
      elim (Bool-cases (k == j)) [
        | inl q ↦ let r : k ≡ j = ground arith in e ∙ ap some r
        | inr q ↦ absurd (let g = f k (omega arith) (λ r. ground arith) in cc)
      ]
]

nowhere :
    (name block : List ℕ)
    → find_in_block name block ≡ none
    → find_from (λ j. is_entry name (entry_at block j)) 12 0 ≡ none
unfolding find_in_block
nowhere name block f =
    elim (Option-cases (find_from (λ j. is_entry name (entry_at block j)) 12 0)) [
      | inl e ↦ e
      | inr (k, e) ↦
          let g : find_in_block name block ≡ some (entry_at block k) = rw (e, find_in_block) refl in
          absurd (unfold find_in_block in cc)
    ]

-- The name that find_directory_entry and add_directory_entry get, and the entry that is written
module _ (text rest : List ℕ) (t : IsText text) (short : length text ≤ 31) (inode_num file_type : ℕ)
    (word : IsWord inode_num) (nz : inode_num ≢ 0) where
  abbrev name : List ℕ
  name = text ++ (0 ∷ rest)

  fill_entry-IsDirectoryEntry :
      (e : DirectoryEntry)
      → length e.name ≡ 32
      → IsDirectoryEntry (fill_entry name inode_num file_type e)
  unfolding fill_entry
  fill_entry-IsDirectoryEntry e h = record {
    inode_num = word;
    name_length = rw (text_of-text 31 text rest t short) (omega arith);
    name = length-store 0 (text_of 31 name ++ (0 ∷ [])) e.name ∙ h;
  }

  fill_entry_found :
      (e : DirectoryEntry)
      → length e.name ≡ 32
      → is_entry name (fill_entry name inode_num file_type e) ≡ true
  unfolding fill_entry
  fill_entry_found e h =
      let fits : length (text ++ (0 ∷ [])) ≤ length e.name =
        omega (arith, length-append text (0 ∷ [])) in
      rw
        (
          text_of-text 31 text rest t short,
          store-start (text ++ (0 ∷ [])) e.name fits,
          append_assoc text (0 ∷ []) (drop (length (text ++ (0 ∷ []))) e.name),
          names_match-text 32 text rest (drop (length (text ++ (0 ∷ []))) e.name),
          get_or-text text rest,
          ne→== inode_num 0 nz,
        )
        refl

  -- A block in which the name is not found: after the entry was written to a slot, it is found.
  pub find_in_block-store_entry :
      (block : List ℕ) (j : ℕ)
      → length block ≡ 512
      → j < 12
      → find_in_block name block ≡ none
      → find_in_block name
          (store_entry block j (fill_entry name inode_num file_type (entry_at block j)))
        ≡ some (fill_entry name inode_num file_type (entry_at block j))
  unfolding find_in_block
  find_in_block-store_entry block j b low f =
      let old = entry_at block j in
      let h = length-slice_name block (j * 40) in
      let e = fill_entry name inode_num file_type old in
      let v = fill_entry-IsDirectoryEntry old h in
      let self = entry_at-store_entry_self block j e b low v in
      let found : find_from (λ k. is_entry name (entry_at (store_entry block j e) k)) 12 0
          ≡ some j =
        find_from_unique (λ k. is_entry name (entry_at (store_entry block j e) k)) 12 j low
          (ap (is_entry name) self ∙ fill_entry_found old h)
          (λ k l ne.
            ap (is_entry name) (entry_at-store_entry_ne block j k e v.name ne)
            ∙ find_from-none (λ i. is_entry name (entry_at block i)) 12 0 k (nowhere name block f)
                (omega arith) (omega arith)) in
      rw (found, find_in_block) (ap some self)
