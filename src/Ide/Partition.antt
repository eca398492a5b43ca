-- ===== src/Ide/Partition.antt =====
-- The partitions of a drive: partitions.c.
use cyb_os.Prelude.{
  ℕ, zero, suc, ◌+◌, ◌-◌, ◌*◌, ◌/◌, ◌%◌, ◌^◌, ◌==◌, ◌&&◌, ◌||◌, not, Bool, if◌then◌else◌, none,
  some, List, [], ◌∷◌, ltb, get_or, length,
}
use cyb_os.Prelude.Run.{fault, out_of_fuel, Cmd, pure, ◌>>=◌, ◌>>◌, gets, modify, return}
use cyb_os.Vfs.Types.{Name}
use cyb_os.Klib.Text.{sign_extend}
use cyb_os.Klib.Printf.{Arg, word, do_printf}
use cyb_os.Fat12.Info.{byte4}
use cyb_os.Port.{Io, Hardware}
use cyb_os.Ide.State.{
  Ide, Place, Partition, drive, partition, dev_major_ide, dev_major_hdc, ide_sector_size,
  find_registered, register, write_at,
}
use cyb_os.Ide.Ata.{ide_sector_read}
use cyb_os.Ide.Block.{ide_block_read}

-- `struct ide_mbr_part`, the fields that are read.
pub record Entry : Type 0 where
  pub boot : ℕ
  pub system_id : ℕ
  pub first_lba_sector : ℕ
  pub size : ℕ

-- Entry `i` of the table in a sector.
unfoldable pub mbr_entry_at : List ℕ → (i : ℕ) → Entry
mbr_entry_at buffer i =
    let start = 446 + i * 16 in
    record {
      boot = get_or buffer start 0;
      system_id = get_or buffer (start + 4) 0;
      first_lba_sector = byte4 buffer (start + 8);
      size = byte4 buffer (start + 12);
    }

-- The number of a drive among the devices.
abbrev pub drive_number : Place → ℕ
drive_number place = (place.controller * 2 ^ 3 + place.channel * 2 + place.drive) % 2 ^ 8

-- `sprintf` into a cleared array of 20 bytes: the name, or a write past the array.
abbrev pub format_name : List ℕ → List Arg → Cmd (Io Ide) Name
format_name fmt args = elim (do_printf fmt args) [
  | none ↦ λ _. fault
  | some filename ↦ if ltb (length filename) 20 then pure filename else (λ _. fault)
]

-- `IDE%dC%dD%dP%d`
abbrev pub partition_format : List ℕ
partition_format =
    b'I' ∷ b'D' ∷ b'E' ∷ b'%' ∷ b'd' ∷ b'C' ∷ b'%' ∷ b'd' ∷ b'D' ∷ b'%' ∷ b'd' ∷ b'P' ∷ b'%' ∷ b'd'
    ∷ []

-- The partition of an entry.
unfoldable pub partition_of : Place → (lba_sector : ℕ) → Entry → Partition
partition_of place lba_sector e =
    let lba_start = (lba_sector + e.first_lba_sector) % 2 ^ 32 in
    record {
      drive = place;
      lba_start = lba_start;
      lba_end = (lba_start + e.size) % 2 ^ 32;
      lba_size = e.size;
      bootable = e.boot;
      system_id = e.system_id;
    }

-- One entry that is in use becomes a device.
unfoldable pub register_partition : Place → (lba_sector : ℕ) → Entry → Cmd (Io Ide) (Unit {0})
unfolding partition_of register do_printf
register_partition place lba_sector e = do
  count ← gets (λ s. s.own.partitions_count)
  filename ←
      format_name partition_format
        (word place.controller ∷ word place.channel ∷ word place.drive ∷ word count ∷ [])
  register (record {
    major_num = dev_major_hdc;
    minor_num = (drive_number place * 16 + count) % 2 ^ 8;
    target = partition (partition_of place lba_sector e);
    filename = filename;
  })
  modify (λ s. record s { own = record s.own { partitions_count = count + 1 } })

-- The entries from `i` on; `extended` reads the table of an extended partition.
unfoldable pub read_entries :
    (rounds i : ℕ)
    → (extended : ℕ → Cmd (Io Ide) (Unit {0})) → Place
    → (lba_sector : ℕ) → List ℕ
    → Cmd (Io Ide) (Unit {0})
unfolding mbr_entry_at register_partition
read_entries zero i extended place lba_sector buffer = return
read_entries (suc rounds) i extended place lba_sector buffer = do
  let e = mbr_entry_at buffer i
  if e.system_id == 0 then return else (do
    register_partition place lba_sector e
    if e.system_id == 5 || e.system_id == 15
        then extended ((lba_sector + e.first_lba_sector) % 2 ^ 32)
        else return)
  read_entries rounds (i + 1) extended place lba_sector buffer

-- The test of the signature; a `char` is signed.
abbrev pub lacks_mbr_signature : List ℕ → Bool
lacks_mbr_signature buffer =
    not (sign_extend (get_or buffer 510 0) == 85) && not (sign_extend (get_or buffer 511 0) == 170)

-- `garbage` is what the buffer on the stack holds before the sector is read; `depth` bounds the tables in tables.
unfoldable pub ide_read_partition_table :
    Hardware
    → (fuel depth : ℕ) → (garbage : List ℕ) → Place
    → (lba_sector : ℕ) → Cmd (Io Ide) (Unit {0})
unfolding ide_sector_read write_at read_entries
ide_read_partition_table hardware fuel zero garbage place lba_sector = λ _. out_of_fuel
ide_read_partition_table hardware fuel (suc depth) garbage place lba_sector = do
  let extended = ide_read_partition_table hardware fuel depth garbage place
  if lba_sector == 0
      then modify (λ s. record s { own = record s.own { partitions_count = 0 } })
      else return
  (ret, bytes) ← ide_sector_read hardware fuel place lba_sector 1
  buffer ← write_at 0 bytes garbage
  if lba_sector == 0 && lacks_mbr_signature buffer
      then return
      else read_entries 4 0 extended place lba_sector buffer

-- The size after the cut at the end of the partition.
unfoldable pub cut_size : Partition → (offset size : ℕ) → ℕ
cut_size p offset size =
    let limit = p.lba_size * ide_sector_size % 2 ^ 32 in
    if ltb limit ((offset + size) % 2 ^ 32) then (limit + 2 ^ 32 - offset) % 2 ^ 32 else size

unfoldable pub ide_partition_block_read :
    Hardware
    → (fuel : ℕ) → (major minor offset size : ℕ) → (buffer : List ℕ) → Cmd (Io Ide) (ℕ × List ℕ)
unfolding find_registered cut_size ide_block_read
ide_partition_block_read hardware fuel major minor offset size buffer = do
  registered ← gets (λ s. s.own.registered)
  if not (major == dev_major_hdc)
      then pure (0, buffer)
      else elim (find_registered major minor registered) [
        | none ↦ pure (0, buffer)
        | some (drive _) ↦ λ _. fault
        | some (partition p) ↦
            if ltb (p.lba_end * ide_sector_size % 2 ^ 32) offset
            then pure (0, buffer)
            else ide_block_read hardware fuel dev_major_ide (minor / 16)
                ((offset + p.lba_start * ide_sector_size) % 2 ^ 32) (cut_size p offset size) buffer
      ]
