-- ===== src/Ide/Inside.antt =====
-- Reads through a partition, inside it and past its end.
use cyb_os.Prelude.{
  ℕ, ◌+◌, ◌-◌, ◌*◌, ◌/◌, ◌%◌, ◌^◌, ◌≤◌, ◌<◌, ◌≡◌, refl, ◌∙◌, arith, false, some, List, length, ltb,
}
use cyb_os.Prelude.Run.{ok}
use cyb_os.Port.{Io, Hardware}
use cyb_os.Ide.State.{
  Ide, Place, Partition, drive, partition, dev_major_ide, dev_major_hdc, find_registered,
}
use cyb_os.Ide.Block.{ide_block_read}
use cyb_os.Ide.Partition.{cut_size, ide_partition_block_read}
use cyb_os.Ide.Disk.{IsDisk, CanRead, Kept}
use cyb_os.Ide.Aligned.{sectors_from, ide_block_read-sectors}

-- A partition whose end is its start and its size, within the first 4 GB.
abbrev pub IsLow : Partition → Type 0
IsLow p = (p.lba_end ≡ p.lba_start + p.lba_size) × (p.lba_end < 2 ^ 23)

no_cut :
    (p : Partition) (first count : ℕ)
    → first + count ≤ p.lba_size
    → p.lba_size < 2 ^ 23
    → cut_size p (first * 512) (count * 512) ≡ count * 512
unfolding cut_size
no_cut p first count le small = ground arith

cut_size_wraps :
    (p : Partition) (offset size : ℕ)
    → p.lba_size * 512 < offset
    → offset + size < 2 ^ 32
    → p.lba_size < 2 ^ 23
    → cut_size p offset size ≡ 2 ^ 32 - (offset - p.lba_size * 512)
unfolding cut_size
cut_size_wraps p offset size past small low = ground arith

passes_on :
    (hardware : Hardware) (fuel : ℕ) (p : Partition) (minor offset size : ℕ) (s : Io Ide)
    (buffer : List ℕ)
    → find_registered dev_major_hdc minor s.own.registered ≡ some (partition p)
    → ltb (p.lba_end * 512 % 2 ^ 32) offset ≡ false
    → ide_partition_block_read hardware fuel dev_major_hdc minor offset size buffer s
      ≡ ide_block_read hardware fuel dev_major_ide
          (minor / 16)
          ((offset + p.lba_start * 512) % 2 ^ 32)
          (cut_size p offset size)
          buffer
          s
unfolding ide_partition_block_read
passes_on hardware fuel p minor offset size s buffer known end = ground (arith, known, end)

swap_offset :
    (start first : ℕ)
    → start + first < 2 ^ 23
    → (first * 512 + start * 512) % 2 ^ 32 ≡ (start + first) * 512
swap_offset start first lt = omega arith

-- A read of `count` whole sectors from sector `first` of a partition on, all of them in the partition, whose `lba_end` is
-- `lba_start` and `lba_size`, within the first 4 GB and on a disk that is not larger than the size of the drive, through
-- the devices of the partition and of its drive: an enabled ATA drive on the first channel with addresses of 28 bits. The
-- drive is the one with that disk: it is never busy for `fuel` statuses in a row, and when one of its sectors is asked
-- for, with its own number in the register of the drive, it gives that sector without an error once it is not busy
-- (`IsDisk`). Then the read, with `fuel` rounds for each wait, returns the size, and the buffer, of that size, holds the
-- sectors of the disk that begin `lba_start` further on. The drives and the registered devices stay as they are, and
-- the drive can be read again.
pub ide_partition_block_read-sectors :
    (hardware : Hardware) (disk : ℕ → ℕ → ℕ) (size fuel : ℕ) (place : Place)
    → IsDisk hardware disk place.drive size fuel
    → (p : Partition) (minor first count : ℕ) (s : Io Ide) (buffer : List ℕ)
    → find_registered dev_major_hdc minor s.own.registered ≡ some (partition p)
    → find_registered dev_major_ide (minor / 16) s.own.registered ≡ some (drive place)
    → CanRead s.own place
    → IsLow p
    → first + count ≤ p.lba_size
    → p.lba_end ≤ size
    → size ≤ (s.own.drives place).size
    → length buffer ≡ count * 512
    → (s' : Io Ide) × (ide_partition_block_read hardware fuel dev_major_hdc minor
          (first * 512)
          (count * 512)
          buffer
          s
        ≡ ok (count * 512, sectors_from disk (p.lba_start + first) count) s')
      × Kept place s.own s'.own
ide_partition_block_read-sectors hardware disk size fuel place is p minor first count s buffer known
      on can low within fits le room =
    let (s', read, kept) =
      ide_block_read-sectors hardware disk size fuel place is (minor / 16) (p.lba_start + first)
        count s buffer on can (omega (arith, low)) (omega (arith, low)) le room in
    let end : ltb (p.lba_end * 512 % 2 ^ 32) (first * 512) ≡ false = ground (arith, low) in
    (
      s',
      passes_on hardware fuel p minor (first * 512) (count * 512) s buffer known end
          ∙ rw
              (
                no_cut p first count within (omega (arith, low)),
                swap_offset p.lba_start first (omega (arith, low)),
              )
              read,
      kept,
    )

-- Of a partition whose `lba_end` is `lba_start` and `lba_size`, within the first 4 GB: an offset behind the end of
-- the partition, but not behind `lba_end` sectors, and of which the sum with the size is below 2 ^ 32, is not
-- refused: the size that is passed to the drive does not end at the partition but has wrapped around, and is more
-- than the caller asked for.
pub ide_partition_block_read-wraps :
    (hardware : Hardware) (fuel : ℕ) (p : Partition) (minor offset size : ℕ) (s : Io Ide)
    (buffer : List ℕ)
    → find_registered dev_major_hdc minor s.own.registered ≡ some (partition p)
    → IsLow p
    → p.lba_size * 512 < offset
    → offset ≤ p.lba_end * 512
    → offset + size < 2 ^ 32
    → (ide_partition_block_read hardware fuel dev_major_hdc minor offset size buffer s
        ≡ ide_block_read hardware fuel dev_major_ide
            (minor / 16)
            ((offset + p.lba_start * 512) % 2 ^ 32)
            (2 ^ 32 - (offset - p.lba_size * 512))
            buffer
            s)
      × (size < 2 ^ 32 - (offset - p.lba_size * 512))
ide_partition_block_read-wraps hardware fuel p minor offset size s buffer known low past le small =
    let end : ltb (p.lba_end * 512 % 2 ^ 32) offset ≡ false = ground (arith, low) in
    (
      passes_on hardware fuel p minor offset size s buffer known end
          ∙ rw (cut_size_wraps p offset size past small (omega (arith, low))) refl,
      omega arith,
    )
