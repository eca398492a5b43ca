-- ===== src/Floppy/Init.antt =====
-- The search for controllers and drives.
use Prim.Native.Nat.{bit_and}
use cyb_os.Prelude.{
  ℕ, zero, suc, ◌+◌, ◌*◌, ◌/◌, ◌^◌, ◌==◌, true, false, if◌then◌else◌, none, some, [], ◌∷◌, ◌++◌,
  ltb, get_or,
}
use cyb_os.Prelude.Run.{panic, Cmd, pure, ◌>>=◌, ◌>>◌, return}
use cyb_os.Port.{Io, inb, outb}
use cyb_os.Floppy.State.{
  Floppy, DrivePlace, Controller, own, change, set_drive, set_fdc, no_info, driveinfo_table,
  find_minor,
}
use cyb_os.Floppy.Command.{
  fc_version, fdc_send_command, fdc_recv_data, fdc_wait_for_irq, fdc_check_interrupt_status,
  fdc_switch_active_drive, fdc_calibrate_drive,
}

module _ (hw : Controller) where
  unfoldable pub check_status_times : (times : ℕ) → Cmd (Io Floppy) (Unit {0})
  unfolding fdc_check_interrupt_status
  check_status_times zero = return
  check_status_times (suc times) = do
    fdc_check_interrupt_status hw >>= λ _. return
    check_status_times times

  -- The drives from `i` on.
  unfoldable pub reset_drives : (count i controller : ℕ) → Cmd (Io Floppy) (Unit {0})
  unfolding fdc_switch_active_drive fdc_calibrate_drive
  reset_drives zero i controller = return
  reset_drives (suc count) i controller = do
    fdc_switch_active_drive hw (record { controller = controller; drive = i }) false >>= λ _. return
    fdc_calibrate_drive hw >>= λ _. return
    reset_drives count (i + 1) controller

  unfoldable pub fdc_reset_controller : (controller : ℕ) → Cmd (Io Floppy) (Unit {0})
  unfolding outb fdc_wait_for_irq check_status_times reset_drives
  fdc_reset_controller controller = do
    fdc ← own (λ f. f.fdc controller)
    outb (fdc.base_address + 2) 0
    outb (fdc.base_address + 2) 12
    fdc_wait_for_irq hw
    check_status_times 4
    outb (fdc.base_address + 7) 0
    reset_drives 2 0 controller

  -- Any version but 0x90, and 0xFF for no controller, panics.
  unfoldable pub fdc_get_controller_version : Cmd (Io Floppy) ℕ
  unfolding fdc_send_command fdc_recv_data
  fdc_get_controller_version = do
    fdc_send_command hw fc_version
    version ← fdc_recv_data hw
    if version == 255 then pure version else if version == 144 then pure version else (λ _. panic)

  -- The `memcpy` also copies what stands behind the entry of the table to what stands behind `driveinfo`; that is set
  -- again before it is used, and left out.
  unfoldable pub fdc_init_drive : (controller drive_num drive_type : ℕ) → Cmd (Io Floppy) (Unit {0})
  unfolding find_minor fdc_switch_active_drive fdc_calibrate_drive
  fdc_init_drive controller drive_num drive_type =
      let place : DrivePlace = record { controller = controller; drive = drive_num } in
      if ltb 1 drive_num then return else if ltb 8 drive_type then return else (do
        old ← own (λ f. f.drives place)
        set_drive place (record old {
          driveinfo = get_or driveinfo_table drive_type no_info;
          drive_type = drive_type;
          drive_num = drive_num;
          cur_cylinder = 0;
          cur_head = 0;
          cur_sector = 0;
        })
        fdc ← own (λ f. f.fdc controller)
        let minor = fdc.controller_num * 2 + drive_num
        change (λ f. record f {
          registered = elim (find_minor minor f.registered) [
            | none ↦ f.registered ++ ((minor, place) ∷ [])
            | some _ ↦ f.registered
          ];
        })
        fdc_switch_active_drive hw place true >>= λ _. return
        fdc_calibrate_drive hw >>= λ _. return)

  unfoldable pub fdc_init_controller :
      (controller base_address floppy_dma_buffer floppy_dma_buffer_size : ℕ)
      → Cmd (Io Floppy) (Unit {0})
  unfolding fdc_get_controller_version outb inb fdc_init_drive fdc_reset_controller
  fdc_init_controller controller base_address floppy_dma_buffer floppy_dma_buffer_size = do
    let place = λ (d : ℕ). let p : DrivePlace = record { controller = controller; drive = d } in p
    old ← own (λ f. f.fdc controller)
    let set_up = record old {
      dma_buffer = floppy_dma_buffer;
      dma_size = floppy_dma_buffer_size;
      controller_num = controller;
      base_address = base_address;
    }
    set_fdc controller set_up
    first ← own (λ f. f.drives (place 0))
    set_drive (place 0) (record first { drive_type = 0 })
    second ← own (λ f. f.drives (place 1))
    set_drive (place 1) (record second { drive_type = 0 })
    change (λ f. record f { current_drive = place 0 })
    version ← fdc_get_controller_version
    set_fdc controller (record set_up { version = version })
    if version == 255 then return else (do
      outb 112 16
      drive_type ← inb hw.ports 113
      fdc_init_drive controller (controller * 2) (bit_and (drive_type / 2 ^ 4) 7)
      fdc_init_drive controller (controller * 2 + 1) (bit_and drive_type 7)
      fdc_reset_controller controller)

  -- The wait queue is that of the scheduler's model.
  unfoldable pub fdc_init : (floppy_dma_buffer : ℕ) → Cmd (Io Floppy) (Unit {0})
  unfolding fdc_init_controller
  fdc_init floppy_dma_buffer = do
    fdc_init_controller 0 1008 floppy_dma_buffer 512
    fdc_init_controller 1 880 floppy_dma_buffer 512
