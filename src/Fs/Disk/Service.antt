-- ===== src/Fs/Disk/Service.antt =====
-- kernel/fs/disk.c: reads and writes of a sector that the drive serves.
use trade_kernel.Base.{
  ℕ, ◌<◌, ◌≤◌, ◌^◌, inl, inr, Bool-cases, ◌≡◌, ◌≢◌, ◌∙◌, refl, sym, ap, true, false, List, [], ◌∷◌,
  append-nil, get_or, set, get_or-set_ne, take, length, arith,
}
use trade_kernel.Fs.Disk.{
  disk_success, Disk, disk_timeout, sector_size, addressed, disk_wait_ready, disk_wait_data,
  is_refused, read_after, write_after, read_more, write_more, disk_read_sector, disk_write_sector,
  disk_read_sectors, disk_write_sectors,
}

-- The drive ends each of its waits for the sector in time, the sector exists, and 28 bits number the sectors.
pub record Serves (d : Disk) (lba : ℕ) : Type 0 where
  pub present : d.present ≡ true
  pub small : d.total_sectors ≤ 2 ^ 28
  pub low : lba < d.total_sectors
  pub stored : lba < length d.sectors
  pub size : length (get_or d.sectors lba []) ≡ sector_size
  pub before : disk_wait_ready (d.drive.before lba) disk_timeout 0 ≡ disk_success
  pub requested : disk_wait_data (d.drive.requested lba) disk_timeout 0 ≡ disk_success
  pub after : disk_wait_ready (d.drive.after lba) disk_timeout 0 ≡ disk_success

take_all : (xs : List ℕ) → take (length xs) xs ≡ xs
take_all [] = refl
take_all (x ∷ xs) = ap (◌∷◌ x) (take_all xs)

take_sector : (xs : List ℕ) → length xs ≡ sector_size → take sector_size xs ≡ xs
take_sector xs h = ap (λ n. take n xs) (sym h) ∙ take_all xs

own_address : (d : Disk) (lba : ℕ) → Serves d lba → addressed lba ≡ lba
own_address d lba s = omega (arith, s.low, s.small)

in_range : (d : Disk) (lba : ℕ) → Serves d lba → is_refused lba d ≡ false
in_range d lba s = let l = s.low in let p = s.present in ground arith

disk_read_sector_one :
    (d : Disk) (lba : ℕ)
    → Serves d lba
    → disk_read_sector lba d ≡ (disk_success, get_or d.sectors lba [])
unfolding disk_read_sector read_after
disk_read_sector_one d lba s =
    rw (in_range d lba s, s.before, s.requested, own_address d lba s) refl

pub disk_read_sectors_one :
    (d : Disk) (lba : ℕ)
    → Serves d lba
    → disk_read_sectors lba 1 d ≡ (disk_success, get_or d.sectors lba [])
unfolding disk_read_sectors read_more
disk_read_sectors_one d lba s =
    rw (disk_read_sector_one d lba s, append-nil (get_or d.sectors lba [])) refl

disk_write_sector_one :
    (d : Disk) (lba : ℕ) (buffer : List ℕ)
    → Serves d lba
    → disk_write_sector lba buffer d
      ≡ (disk_success, record d { sectors = set d.sectors lba buffer })
unfolding disk_write_sector write_after
disk_write_sector_one d lba buffer s =
    rw (in_range d lba s, s.before, s.requested, s.after, own_address d lba s) refl

pub disk_write_sectors_one :
    (d : Disk) (lba : ℕ) (buffer : List ℕ)
    → Serves d lba
    → length buffer ≡ sector_size
    → disk_write_sectors lba 1 buffer d
      ≡ (disk_success, record d { sectors = set d.sectors lba buffer })
unfolding disk_write_sectors write_more
disk_write_sectors_one d lba buffer s h =
    let first : disk_write_sector lba (take sector_size buffer) d
        ≡ (disk_success, record d { sectors = set d.sectors lba buffer }) =
      ap (λ b. disk_write_sector lba b d) (take_sector buffer h)
      ∙ disk_write_sector_one d lba buffer s in
    rw first refl

-- A write to another sector does not show, while 28 bits number the sectors.
disk_read_sector_ne :
    (n m : ℕ) (buffer : List ℕ) (d : Disk)
    → n < d.total_sectors
    → d.total_sectors ≤ 2 ^ 28
    → m ≢ n
    → disk_read_sector m (record d { sectors = set d.sectors n buffer }) ≡ disk_read_sector m d
unfolding disk_read_sector
disk_read_sector_ne n m buffer d low small ne = elim (Bool-cases (is_refused m d)) [
  | inl t ↦ rw t refl
  | inr f ↦
      let e : addressed m ≡ m = ground arith in
      rw (f, e, get_or-set_ne d.sectors n m buffer [] (λ z. ne (sym z))) refl
]

pub disk_read_sectors_ne :
    (n m : ℕ) (buffer : List ℕ) (d : Disk)
    → n < d.total_sectors
    → d.total_sectors ≤ 2 ^ 28
    → m ≢ n
    → disk_read_sectors m 1 (record d { sectors = set d.sectors n buffer })
      ≡ disk_read_sectors m 1 d
unfolding disk_read_sectors
disk_read_sectors_ne n m buffer d low small ne =
    rw (disk_read_sector_ne n m buffer d low small ne) refl
