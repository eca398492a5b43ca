-- ===== src/Ide/Block.antt =====
-- Reads at any offset of a drive: `ide_block_read` of ide.c.
use cyb_os.Prelude.{
  ℕ, zero, suc, ◌+◌, ◌-◌, ◌*◌, ◌/◌, ◌%◌, ◌^◌, ◌==◌, not, if◌then◌else◌, none, some, List, ltb, take,
  drop,
}
use cyb_os.Prelude.Run.{fault, Cmd, pure, ◌>>=◌, ◌>>◌, gets}
use cyb_os.Port.{Io, Hardware}
use cyb_os.Ide.State.{
  Ide, Place, drive, partition, dev_major_ide, ide_sector_size, drive_at, set_drive,
  find_registered, write_at,
}
use cyb_os.Ide.Ata.{ide_sector_read}

module _ (hardware : Hardware) (fuel : ℕ) where
  -- A read of a sector to a place of the buffer. What it returns is not looked at.
  unfoldable pub sector_to :
      Place → (lba_sector position : ℕ) → (buffer : List ℕ) → Cmd (Io Ide) (List ℕ)
  unfolding ide_sector_read write_at
  sector_to place lba_sector position buffer = do
    (ret, bytes) ← ide_sector_read hardware fuel place lba_sector 1
    write_at position bytes buffer

  -- A read of a sector into `databuf` of the drive, which is the result.
  unfoldable pub sector_to_databuf : Place → (lba_sector : ℕ) → Cmd (Io Ide) (List ℕ)
  unfolding ide_sector_read write_at
  sector_to_databuf place lba_sector = do
    (ret, bytes) ← ide_sector_read hardware fuel place lba_sector 1
    d ← drive_at place
    databuf ← write_at 0 bytes d.databuf
    set_drive place (record d { databuf = databuf })
    pure databuf

  -- `while (size >= IDE_SECTOR_SIZE)`, which makes `size / IDE_SECTOR_SIZE` rounds.
  unfoldable pub full_sectors :
      (rounds : ℕ) → Place → (lba_sector position : ℕ) → (buffer : List ℕ) → Cmd (Io Ide) (List ℕ)
  unfolding sector_to
  full_sectors zero place lba_sector position buffer = pure buffer
  full_sectors (suc rounds) place lba_sector position buffer = do
    filled ← sector_to place lba_sector position buffer
    full_sectors rounds place ((lba_sector + 1) % 2 ^ 32) (position + ide_sector_size) filled

  -- From a whole sector on: those that are full, and the start of one more. The buffer that is filled.
  unfoldable pub read_sectors_from :
      Place → (lba_sector size position : ℕ) → (buffer : List ℕ) → Cmd (Io Ide) (List ℕ)
  unfolding full_sectors sector_to_databuf write_at
  read_sectors_from place lba_sector size position buffer = do
    let full = size / ide_sector_size
    let rest = size % ide_sector_size
    filled ← full_sectors full place lba_sector position buffer
    if ltb 0 rest
        then (do
          databuf ← sector_to_databuf place ((lba_sector + full) % 2 ^ 32)
          write_at (position + full * ide_sector_size) (take rest databuf) filled)
        else pure filled

  -- The count that is returned, and the buffer. `restcount` has eight bits.
  unfoldable pub ide_block_read :
      (major minor offset size : ℕ) → (buffer : List ℕ) → Cmd (Io Ide) (ℕ × List ℕ)
  unfolding find_registered read_sectors_from sector_to_databuf write_at
  ide_block_read major minor offset size buffer = do
    let lba_sector = offset / ide_sector_size
    let restcount = offset % ide_sector_size % 2 ^ 8
    registered ← gets (λ s. s.own.registered)
    if not (major == dev_major_ide)
        then pure (0, buffer)
        else elim (find_registered major minor registered) [
          | none ↦ λ _. fault
          | some (partition _) ↦ λ _. fault
          | some (drive place) ↦ do
            d ← drive_at place
            if not d.enabled
                then pure (0, buffer)
                else if ltb 0 (offset % ide_sector_size)
                then (do
                  databuf ← sector_to_databuf place lba_sector
                  filled ← write_at 0 (take (512 - restcount) (drop restcount databuf)) buffer
                  let left = (size + 2 ^ 32 - restcount) % 2 ^ 32
                  out ← read_sectors_from place (lba_sector + 1) left restcount filled
                  pure ((restcount + left) % 2 ^ 32, out))
                else (do out ← read_sectors_from place lba_sector size 0 buffer; pure (size, out))
        ]
