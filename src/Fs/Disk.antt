-- ===== src/Fs/Disk.antt =====
-- kernel/fs/disk.c: the ATA driver. The controller is not part of the repository: a `Drive` gives the
-- values that it puts on the status register in each wait, for each sector, and the words that it
-- answers to IDENTIFY.
pub mod Service
use trade_kernel.Base.{
  ℕ, zero, suc, ◌+◌, ◌*◌, ◌%◌, ◌^◌, Bool, true, false, not, ◌&&◌, ◌||◌, List, [], ◌∷◌, ◌++◌,
  if◌then◌else◌, ltb, leb, ◌==◌, test_bit, get_or, set, take, drop,
}

-- DISK_SUCCESS, DISK_ERROR, DISK_TIMEOUT_ERR, DISK_NOT_READY
pub data DiskResult : Type 0 where
  disk_success disk_error disk_timeout_err disk_not_ready : DiskResult

abbrev pub disk_timeout : ℕ
disk_timeout = 1000000

abbrev pub sector_size : ℕ
sector_size = 512

-- The i-th value of the status register in a wait; `before`, `requested` and `after` are the waits for
-- a sector before the command, for the data, and after a write.
pub record Drive : Type 0 where
  pub selected : ℕ → ℕ
  pub status : ℕ
  pub identified : ℕ → ℕ
  pub identify_data : List ℕ
  pub before : ℕ → ℕ → ℕ
  pub requested : ℕ → ℕ → ℕ
  pub after : ℕ → ℕ → ℕ

-- disk_t with the drive and its contents
pub record Disk : Type 0 where
  pub present : Bool
  pub total_sectors : ℕ
  pub drive : Drive
  pub sectors : List (List ℕ)

-- BSY is bit 7 of the status, DRDY bit 6, DRQ bit 3, ERR bit 0. The loops return in their first round
-- that passes a test.
abbrev pub is_ready : ℕ → Bool
is_ready status = not (test_bit status 7) && test_bit status 6

abbrev pub has_data : ℕ → Bool
has_data status = not (test_bit status 7) && test_bit status 3

unfoldable pub disk_wait_ready : (ℕ → ℕ) → ℕ → ℕ → DiskResult
disk_wait_ready status zero i = disk_timeout_err
disk_wait_ready status (suc timeout) i = elim (is_ready (status i)) [
  | true ↦ disk_success
  | false ↦ disk_wait_ready status timeout (i + 1)
]

unfoldable pub disk_wait_data : (ℕ → ℕ) → ℕ → ℕ → DiskResult
disk_wait_data status zero i = disk_timeout_err
disk_wait_data status (suc timeout) i = elim (has_data (status i)) [
  | true ↦ disk_success
  | false ↦ elim (test_bit (status i) 0) [
    | true ↦ disk_error
    | false ↦ disk_wait_data status timeout (i + 1)
  ]
]

unfoldable pub disk_init : Disk → DiskResult × Disk
disk_init d =
    let cleared = record d { present = false; total_sectors = 0 } in
    elim (disk_wait_ready d.drive.selected disk_timeout 0) [
      | disk_success ↦
          if d.drive.status == 0
          then (disk_error, cleared)
          else elim (disk_wait_data d.drive.identified disk_timeout 0) [
            | disk_success ↦ (
              disk_success,
              record d {
                present = true;
                total_sectors =
                    get_or d.drive.identify_data 60 0 + get_or d.drive.identify_data 61 0 * 2 ^ 16;
              },
            )
            | other ↦ (disk_error, cleared)
          ]
      | other ↦ (disk_not_ready, cleared)
    ]

-- The drive is given the low 28 bits of the sector number.
abbrev pub addressed : ℕ → ℕ
addressed lba = lba % 2 ^ 28

abbrev pub is_refused : ℕ → Disk → Bool
is_refused lba d = not d.present || leb d.total_sectors lba

-- The results of the two waits of a read, and the sector
unfoldable pub read_after : DiskResult → DiskResult → List ℕ → DiskResult × List ℕ
read_after disk_success disk_success bytes = (disk_success, bytes)
read_after disk_success disk_error bytes = (disk_error, [])
read_after disk_success disk_timeout_err bytes = (disk_error, [])
read_after disk_success disk_not_ready bytes = (disk_error, [])
read_after disk_error data_ready bytes = (disk_timeout_err, [])
read_after disk_timeout_err data_ready bytes = (disk_timeout_err, [])
read_after disk_not_ready data_ready bytes = (disk_timeout_err, [])

-- The second component is what is put into the buffer.
unfoldable pub disk_read_sector : ℕ → Disk → DiskResult × List ℕ
disk_read_sector lba d =
    if is_refused lba d
    then (disk_error, [])
    else read_after (disk_wait_ready (d.drive.before lba) disk_timeout 0)
        (disk_wait_data (d.drive.requested lba) disk_timeout 0)
        (get_or d.sectors (addressed lba) [])

-- An error in the last of the three waits of a write leaves the sector written.
unfoldable pub write_after : DiskResult → DiskResult → DiskResult → Disk → Disk → DiskResult × Disk
write_after disk_success disk_success disk_success d written = (disk_success, written)
write_after disk_success disk_success disk_error d written = (disk_error, written)
write_after disk_success disk_success disk_timeout_err d written = (disk_error, written)
write_after disk_success disk_success disk_not_ready d written = (disk_error, written)
write_after disk_success disk_error done d written = (disk_error, d)
write_after disk_success disk_timeout_err done d written = (disk_error, d)
write_after disk_success disk_not_ready done d written = (disk_error, d)
write_after disk_error data_ready done d written = (disk_timeout_err, d)
write_after disk_timeout_err data_ready done d written = (disk_timeout_err, d)
write_after disk_not_ready data_ready done d written = (disk_timeout_err, d)

unfoldable pub disk_write_sector : ℕ → List ℕ → Disk → DiskResult × Disk
disk_write_sector lba buffer d =
    if is_refused lba d
    then (disk_error, d)
    else write_after (disk_wait_ready (d.drive.before lba) disk_timeout 0)
        (disk_wait_data (d.drive.requested lba) disk_timeout 0)
        (disk_wait_ready (d.drive.after lba) disk_timeout 0) d
        (record d { sectors = set d.sectors (addressed lba) buffer })

unfoldable pub read_more : DiskResult × List ℕ → DiskResult × List ℕ → DiskResult × List ℕ
read_more (disk_success, bytes) (rest, more) = (rest, bytes ++ more)
read_more (disk_error, bytes) next = (disk_error, [])
read_more (disk_timeout_err, bytes) next = (disk_timeout_err, [])
read_more (disk_not_ready, bytes) next = (disk_not_ready, [])

-- The callers do not use what a read that fails has put into the buffer.
unfoldable pub disk_read_sectors : ℕ → ℕ → Disk → DiskResult × List ℕ
disk_read_sectors lba zero d = (disk_success, [])
disk_read_sectors lba (suc count) d =
    read_more (disk_read_sector lba d) (disk_read_sectors (lba + 1) count d)

-- The rest of a write, where the first sector succeeded
unfoldable pub write_more : DiskResult × Disk → (Disk → DiskResult × Disk) → DiskResult × Disk
write_more (disk_success, d) next = next d
write_more (disk_error, d) next = (disk_error, d)
write_more (disk_timeout_err, d) next = (disk_timeout_err, d)
write_more (disk_not_ready, d) next = (disk_not_ready, d)

unfoldable pub disk_write_sectors : ℕ → ℕ → List ℕ → Disk → DiskResult × Disk
disk_write_sectors lba zero buffer d = (disk_success, d)
disk_write_sectors lba (suc count) buffer d =
    write_more (disk_write_sector lba (take sector_size buffer) d)
      (disk_write_sectors (lba + 1) count (drop sector_size buffer))

abbrev pub disk_get_total_sectors : Disk → ℕ
disk_get_total_sectors d = d.total_sectors
