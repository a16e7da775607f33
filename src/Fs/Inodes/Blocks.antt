-- ===== src/Fs/Inodes/Blocks.antt =====
-- kernel/fs/fs.c: reads and writes of a block on a drive that serves it.
use trade_kernel.Base.{
  ℕ, ◌*◌, ◌<◌, ◌≡◌, ◌≢◌, ◌∙◌, refl, ap, inl, inr, true, false, List, [], some, get_or, set, length,
  leb, ◌==◌, ==→eq, Bool-cases, get_or-set_self, get_or-set_ne, length-set, arith,
}
use trade_kernel.Fs.Disk.{sector_size}
use trade_kernel.Fs.Disk.Service.{
  Serves, disk_read_sectors_one, disk_read_sectors_ne, disk_write_sectors_one,
}
use trade_kernel.Fs.Inodes.{Volume, read_block, write_block}

pub record IsServed (v : Volume) (n : ℕ) : Type 0 where
  pub low : n < v.fs.superblock.total_blocks
  pub drive : Serves v.disk n

-- The volume with a block replaced
abbrev pub put_block : ℕ → List ℕ → Volume → Volume
put_block n buffer v = record v { disk = record v.disk { sectors = set v.disk.sectors n buffer } }

abbrev pub held_at : ℕ → Volume → List ℕ
held_at n v = get_or v.disk.sectors n []

block_low : (n : ℕ) (v : Volume) → IsServed v n → leb v.fs.superblock.total_blocks n ≡ false
block_low n v s = let l = s.low in ground arith

lba_same : (n : ℕ) → n * 1 ≡ n
lba_same n = omega arith

pub read_block_served : (n : ℕ) (v : Volume) → IsServed v n → read_block n v ≡ some (held_at n v)
unfolding read_block
read_block_served n v s =
    rw (block_low n v s, lba_same n, disk_read_sectors_one v.disk n s.drive) refl

pub write_block_served :
    (n : ℕ) (buffer : List ℕ) (v : Volume)
    → IsServed v n
    → length buffer ≡ sector_size
    → write_block n buffer v ≡ (true, put_block n buffer v)
unfolding write_block
write_block_served n buffer v s h =
    rw (block_low n v s, lba_same n, disk_write_sectors_one v.disk n buffer s.drive h) refl

-- The drive serves the blocks after a write as before it.
pub put_block-IsServed :
    (n m : ℕ) (buffer : List ℕ) (v : Volume)
    → length buffer ≡ sector_size
    → IsServed v m
    → IsServed (put_block n buffer v) m
put_block-IsServed n m buffer v h s =
    let kept : length (get_or (set v.disk.sectors n buffer) m []) ≡ sector_size =
      elim (Bool-cases (n == m)) [
        | inl e ↦
            let same : n ≡ m = ==→eq n m e in
            let room : m < length v.disk.sectors = s.drive.stored in
            rw (same, get_or-set_self v.disk.sectors m buffer [] room) h
        | inr e ↦ rw (get_or-set_ne v.disk.sectors n m buffer [] (λ q. ground arith)) s.drive.size
      ] in
    record {
      low = s.low;
      drive = record {
        present = s.drive.present;
        small = s.drive.small;
        low = s.drive.low;
        stored = let r = s.drive.stored in omega (arith, length-set v.disk.sectors n buffer);
        size = kept;
        before = s.drive.before;
        requested = s.drive.requested;
        after = s.drive.after;
      };
    }

pub read_block-put_block_self :
    (n : ℕ) (buffer : List ℕ) (v : Volume)
    → IsServed v n
    → length buffer ≡ sector_size
    → read_block n (put_block n buffer v) ≡ some buffer
read_block-put_block_self n buffer v s h =
    read_block_served n (put_block n buffer v) (put_block-IsServed n n buffer v h s)
    ∙ ap some (get_or-set_self v.disk.sectors n buffer [] s.drive.stored)

pub read_block-put_block_ne :
    (n m : ℕ) (buffer : List ℕ) (v : Volume)
    → IsServed v n
    → m ≢ n
    → read_block m (put_block n buffer v) ≡ read_block m v
unfolding read_block
read_block-put_block_ne n m buffer v s ne =
    rw (lba_same m, disk_read_sectors_ne n m buffer v.disk s.drive.low s.drive.small ne) refl
