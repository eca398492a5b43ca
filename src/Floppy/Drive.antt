-- ===== src/Floppy/Drive.antt =====
-- The sectors of a drive, and reads at an offset.
use Prim.Native.Nat.{bit_or}
use cyb_os.Prelude.{
  ℕ, zero, suc, ◌+◌, ◌-◌, ◌*◌, ◌/◌, ◌%◌, ◌^◌, ◌==◌, true, false, if◌then◌else◌, Option, none, some,
  List, ltb, leb, length, take, drop,
}
use cyb_os.Prelude.Run.{fault, out_of_fuel, Cmd, pure, ◌>>=◌, ◌>>◌, gets, return}
use cyb_os.Port.{Io}
use cyb_os.Dma.{dma_set_read}
use cyb_os.Floppy.State.{
  Floppy, DrivePlace, DriveInfo, Controller, own, current, set_drive, find_minor,
}
use cyb_os.Floppy.Command.{
  fc_read_sect, dma_floppy_channel, fdc_send_command, fdc_recv_data, fdc_wait_for_irq,
  fdc_check_interrupt_status, fdc_switch_active_drive, fdc_control_motor, fdc_seek_floppy_cylinder,
}

-- Cylinder, head and sector; `none` is a division by zero.
unfoldable pub fdc_convert_lba_to_chs : DriveInfo → (lba_sector : ℕ) → Option (ℕ × ℕ × ℕ)
fdc_convert_lba_to_chs info lba_sector =
    let per_cylinder = info.sectors_per_track * info.max_head in
    let tmp = lba_sector % per_cylinder in
    if per_cylinder == 0
    then none
    else some
        (lba_sector / per_cylinder, tmp / info.sectors_per_track, tmp % info.sectors_per_track + 1)

-- The last sector of the track, or the next one.
abbrev pub end_of_track : DriveInfo → (sector : ℕ) → ℕ
end_of_track info sector =
    if leb info.sectors_per_track (sector + 1) then info.sectors_per_track else sector + 1

module _ (hw : Controller) where
  unfoldable pub fdc_read_floppy_sector_chs :
      (cylinder head sector : ℕ) → Cmd (Io Floppy) (Unit {0})
  unfolding dma_set_read fdc_send_command fdc_wait_for_irq fdc_recv_data fdc_check_interrupt_status
  fdc_read_floppy_sector_chs cylinder head sector = do
    dma_set_read dma_floppy_channel
    d ← current
    fdc_send_command hw (bit_or (bit_or fc_read_sect 128) 64)
    fdc_send_command hw (bit_or (head * 2 ^ 2) d.drive_num)
    fdc_send_command hw cylinder
    fdc_send_command hw head
    fdc_send_command hw sector
    fdc_send_command hw d.driveinfo.sector_dtl
    fdc_send_command hw (end_of_track d.driveinfo sector)
    fdc_send_command hw d.driveinfo.gap3
    fdc_send_command hw 255
    fdc_wait_for_irq hw
    st0 ← fdc_recv_data hw
    st1 ← fdc_recv_data hw
    st2 ← fdc_recv_data hw
    track ← fdc_recv_data hw
    result_head ← fdc_recv_data hw
    result_sector ← fdc_recv_data hw
    size ← fdc_recv_data hw
    place ← own (λ f. f.current_drive)
    set_drive place (record d {
      result = record {
        st0 = st0;
        st1 = st1;
        st2 = st2;
        track = track;
        head = result_head;
        sector = result_sector;
        size = size;
      };
    })
    fdc_check_interrupt_status hw >>= λ _. return

  -- `while (! fdc_seek_floppy_cylinder (c, h)) ;`
  unfoldable pub seek_until : (fuel cylinder head : ℕ) → Cmd (Io Floppy) (Unit {0})
  unfolding fdc_seek_floppy_cylinder
  seek_until zero cylinder head = λ _. out_of_fuel
  seek_until (suc fuel) cylinder head = do
    let rest = seek_until fuel cylinder head
    there ← fdc_seek_floppy_cylinder hw cylinder head
    if there then return else rest

  -- The bytes that the buffer gets: as many as the DMA buffer has.
  unfoldable pub fdc_read_floppy_sector :
      (fuel : ℕ) → DrivePlace → (lba_sector : ℕ) → Cmd (Io Floppy) (List ℕ)
  unfolding fdc_switch_active_drive fdc_control_motor fdc_convert_lba_to_chs seek_until
      fdc_read_floppy_sector_chs
  fdc_read_floppy_sector fuel place lba_sector = do
    fdc_switch_active_drive hw place false >>= λ _. return
    fdc_control_motor hw true
    d ← current
    elim (fdc_convert_lba_to_chs d.driveinfo lba_sector) [
      | none ↦ λ _. fault
      | some (c, h, s) ↦ do
        seek_until fuel c h
        fdc_read_floppy_sector_chs c h s
        fdc ← own (λ f. f.fdc place.controller)
        bytes ← gets (λ io. take fdc.dma_size (hw.transferred io.history))
        fdc_control_motor hw false
        pure bytes
    ]

  -- The count that is returned, and the bytes at the front of the buffer.
  unfoldable pub fdc_block_read : (fuel minor offset size : ℕ) → Cmd (Io Floppy) (ℕ × List ℕ)
  unfolding find_minor fdc_switch_active_drive fdc_read_floppy_sector
  fdc_block_read fuel minor offset size =
      let lba_sector = offset / 512 in
      let rest_data = offset % 512 in
      let cut = if ltb 512 ((size + rest_data) % 2 ^ 32) then 512 - rest_data else size in
      if ltb 3 minor then pure (0, List.[]) else (do
        registered ← own (λ f. f.registered)
        elim (find_minor minor registered) [
          | none ↦ pure (0, List.[])
          | some place ↦ do
            fdc_switch_active_drive hw place false >>= λ _. return
            tmpbuf ← fdc_read_floppy_sector fuel place lba_sector
            if ltb 512 (length tmpbuf)
                then (λ _. fault)
                else if ltb 512 (rest_data + cut)
                then (λ _. fault)
                else pure (cut, take cut (drop rest_data tmpbuf))
        ])
