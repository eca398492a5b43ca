-- ===== src/Ide/Ata.antt =====
-- Reads and writes of sectors: ata.c, atapi.c, `ide_sector_read` and `ide_write_sectors` of ide.c.
use Prim.Native.Nat.{bit_and, bit_or}
use cyb_os.Prelude.{
  ℕ, zero, suc, ◌+◌, ◌-◌, ◌*◌, ◌/◌, ◌%◌, ◌^◌, ◌==◌, not, Bool, true, false, if◌then◌else◌, List, [],
  ◌∷◌, ◌++◌, ltb, leb, drop, get_or,
}
use cyb_os.Prelude.Run.{panic, Cmd, pure, ◌>>=◌, ◌>>◌, modify, return}
use cyb_os.Port.{Io, Hardware, insw, outsw}
use cyb_os.Ide.State.{Ide, Place, ata, atapi, Channel, channel_of, drive_at, set_channel}
use cyb_os.Ide.Register.{
  ide_reg_seccount0, ide_reg_lba0, ide_reg_lba1, ide_reg_lba2, ide_reg_hddevsel, ide_reg_command,
  ide_reg_seccount1, ide_reg_lba3, ide_reg_lba4, ide_reg_lba5, ide_reg_control, ide_port_write,
  ide_polling, wait_while_busy,
}

-- `lba_mode`
pub data LbaMode : Type 0 where
  chs : LbaMode
  lba28 : LbaMode
  lba48 : LbaMode

pub data Direction : Type 0 where
  reading : Direction
  writing : Direction

-- `lba_io` and `head`
pub record Sector : Type 0 where
  pub mode : LbaMode
  pub lba_io : List ℕ
  pub head : ℕ

-- How a sector is put into the registers of the drive.
unfoldable pub sector_registers : (capabilities lba_sector : ℕ) → Sector
sector_registers capabilities lba_sector =
    let sect = lba_sector % 63 + 1 in
    let cyl = (lba_sector + 1 - sect) / (16 * 63) % 2 ^ 16 in
    if leb (2 ^ 28) lba_sector
    then record {
      mode = lba48;
      lba_io =
          lba_sector % 2 ^ 8
          ∷ lba_sector / 2 ^ 8 % 2 ^ 8
          ∷ lba_sector / 2 ^ 16 % 2 ^ 8
          ∷ lba_sector / 2 ^ 24 % 2 ^ 8
          ∷ 0
          ∷ 0
          ∷ [];
      head = 0;
    }
    else if not (bit_and capabilities 512 == 0)
    then record {
      mode = lba28;
      lba_io =
          lba_sector % 2 ^ 8
          ∷ lba_sector / 2 ^ 8 % 2 ^ 8
          ∷ lba_sector / 2 ^ 16 % 2 ^ 8
          ∷ 0
          ∷ 0
          ∷ 0
          ∷ [];
      head = lba_sector / 2 ^ 24 % 2 ^ 4;
    }
    else record {
      mode = chs;
      lba_io = sect ∷ cyl % 2 ^ 8 ∷ cyl / 2 ^ 8 % 2 ^ 8 ∷ 0 ∷ 0 ∷ 0 ∷ [];
      head = (lba_sector + 1 - sect) % (16 * 63) / 63;
    }

-- The drive and the head, for `IDE_REG_HDDEVSEL`.
abbrev pub device_select : LbaMode → (slavebit head : ℕ) → ℕ
device_select chs slavebit head = bit_or (bit_or 160 (slavebit * 2 ^ 4)) head
device_select _ slavebit head = bit_or (bit_or 224 (slavebit * 2 ^ 4)) head

-- `cmd`; `dma` is always 0.
abbrev pub command : Direction → LbaMode → ℕ
command reading lba48 = 36
command reading _ = 32
command writing lba48 = 52
command writing _ = 48

abbrev pub cache_flush : LbaMode → ℕ
cache_flush lba48 = 234
cache_flush _ = 231

-- The registers of `LBA48` that hold high bytes.
unfoldable pub send_high : Channel → Sector → Cmd (Io Ide) (Unit {0})
unfolding ide_port_write
send_high channel at = do
  ide_port_write channel ide_reg_seccount1 0
  ide_port_write channel ide_reg_lba3 (get_or at.lba_io 3 0)
  ide_port_write channel ide_reg_lba4 (get_or at.lba_io 4 0)
  ide_port_write channel ide_reg_lba5 (get_or at.lba_io 5 0)

abbrev pub is_lba48 : LbaMode → Bool
is_lba48 lba48 = true
is_lba48 _ = false

-- The drive, the parameters and the command.
unfoldable pub send_command :
    Channel → (drive_nr : ℕ) → Direction → Sector → (sector_count : ℕ) → Cmd (Io Ide) (Unit {0})
unfolding ide_port_write send_high
send_command channel drive_nr direction at sector_count = do
  ide_port_write channel ide_reg_hddevsel (device_select at.mode drive_nr at.head)
  if is_lba48 at.mode then send_high channel at else return
  ide_port_write channel ide_reg_seccount0 sector_count
  ide_port_write channel ide_reg_lba0 (get_or at.lba_io 0 0)
  ide_port_write channel ide_reg_lba1 (get_or at.lba_io 1 0)
  ide_port_write channel ide_reg_lba2 (get_or at.lba_io 2 0)
  ide_port_write channel ide_reg_command (command direction at.mode)

module _ (hardware : Hardware) where
  -- The sectors that are left, and the error that ends the loop, 0 for none. The bytes go to the buffer in order.
  unfoldable pub read_sectors : (fuel count : ℕ) → Channel → Cmd (Io Ide) (ℕ × List ℕ)
  unfolding ide_polling
  read_sectors fuel zero channel = pure (0, [])
  read_sectors fuel (suc count) channel = do
    let rest = read_sectors fuel count channel
    err ← ide_polling hardware fuel channel true
    if not (err == 0) then pure (err, []) else (do
      bytes ← insw hardware channel.base 256
      (e, others) ← rest
      pure (e, bytes ++ others))

  unfoldable pub write_sectors : (fuel count : ℕ) → Channel → List ℕ → Cmd (Io Ide) (Unit {0})
  unfolding ide_polling outsw
  write_sectors fuel zero channel bytes = return
  write_sectors fuel (suc count) channel bytes = do
    ide_polling hardware fuel channel false >>= λ _. return
    outsw channel.base 256 bytes
    write_sectors fuel count channel (drop 512 bytes)

  -- `drive->channel->no_int = (ide_irq_invoked = 0x0) + 0x02`
  unfoldable pub silence : Place → Cmd (Io Ide) Channel
  silence place = do
    modify (λ s. record s { own = record s.own { irq_invoked = 0 } })
    channel ← channel_of place
    let silent = record channel { no_int = 2 }
    set_channel place.controller place.channel silent
    pure silent

  -- Up to the command.
  unfoldable pub begin_access :
      (fuel : ℕ)
      → Direction
      → Place
      → (lba_sector sector_count : ℕ) → Cmd (Io Ide) (Channel × Sector)
  unfolding silence ide_port_write wait_while_busy send_command sector_registers
  begin_access fuel direction place lba_sector sector_count = do
    channel ← silence place
    ide_port_write channel ide_reg_control 2
    drive ← drive_at place
    let at = sector_registers drive.capabilities lba_sector
    wait_while_busy hardware fuel channel
    send_command channel place.drive direction at sector_count
    pure (channel, at)

  -- A read: the result, and the bytes that the buffer gets.
  unfoldable pub ide_ata_read :
      (fuel : ℕ) → Place → (lba_sector sector_count : ℕ) → Cmd (Io Ide) (ℕ × List ℕ)
  unfolding begin_access read_sectors
  ide_ata_read fuel place lba_sector sector_count = do
    (channel, at) ← begin_access fuel reading place lba_sector sector_count
    (err, bytes) ← read_sectors fuel sector_count channel
    pure ((if err == 0 then sector_count else err), bytes)

  unfoldable pub ide_ata_write :
      (fuel : ℕ) → Place → (lba_sector sector_count : ℕ) → List ℕ → Cmd (Io Ide) ℕ
  unfolding begin_access write_sectors ide_port_write ide_polling
  ide_ata_write fuel place lba_sector sector_count bytes = do
    (channel, at) ← begin_access fuel writing place lba_sector sector_count
    write_sectors fuel sector_count channel bytes
    ide_port_write channel ide_reg_command (cache_flush at.mode)
    ide_polling hardware fuel channel false >>= λ _. return
    pure sector_count

  -- `ide_atapi_access` panics.
  unfoldable pub ide_sector_read :
      (fuel : ℕ) → Place → (lba_sector sector_count : ℕ) → Cmd (Io Ide) (ℕ × List ℕ)
  unfolding ide_ata_read
  ide_sector_read fuel place lba_sector sector_count = do
    drive ← drive_at place
    if not drive.enabled
        then pure (0, [])
        else if ltb drive.size lba_sector
        then pure (0, [])
        else elim drive.type [
          | ata ↦ ide_ata_read fuel place lba_sector sector_count
          | atapi ↦ λ _. panic
        ]

  unfoldable pub ide_write_sectors :
      (fuel : ℕ) → Place → (lba_sector count : ℕ) → List ℕ → Cmd (Io Ide) (Unit {0})
  unfolding ide_ata_write
  ide_write_sectors fuel place lba_sector count bytes = do
    drive ← drive_at place
    if not drive.enabled
        then return
        else if ltb drive.size lba_sector
        then return
        else elim drive.type [
          | ata ↦ ide_ata_write fuel place lba_sector count bytes >>= λ _. return
          | atapi ↦ λ _. panic
        ]
