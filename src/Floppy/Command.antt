-- ===== src/Floppy/Command.antt =====
-- Bytes to and from the controller, and the waits between them.
use Prim.Native.Nat.{bit_and, bit_or}
use cyb_os.Prelude.{
  ℕ, zero, suc, ◌+◌, ◌*◌, ◌^◌, ◌%◌, ◌==◌, ◌&&◌, not, Bool, true, false, if◌then◌else◌,
}
use cyb_os.Prelude.Run.{panic, out_of_fuel, Cmd, pure, ◌>>=◌, ◌>>◌, return}
use cyb_os.Port.{Io, inb, outb}
use cyb_os.Dma.{Ports, dma_set_address, dma_set_size}
use cyb_os.Floppy.State.{
  Floppy, DrivePlace, DriveInfo, Controller, own, change, current, current_fdc,
}

abbrev pub fc_specify : ℕ
fc_specify = 3

abbrev pub fc_calibrate : ℕ
fc_calibrate = 7

abbrev pub fc_check_int : ℕ
fc_check_int = 8

abbrev pub fc_seek : ℕ
fc_seek = 15

abbrev pub fc_version : ℕ
fc_version = 16

abbrev pub fc_read_sect : ℕ
fc_read_sect = 6

abbrev pub dma_floppy_channel : ℕ
dma_floppy_channel = 2

-- The shift of a drive's motor bit, 16 for drive 0.
abbrev pub motor_bit : (drive_num : ℕ) → ℕ
motor_bit drive_num = 16 * 2 ^ drive_num % 2 ^ 8

-- Channel 2 has a case, so that nothing is left unset.
abbrev pub unset : Ports
unset = record { address = 0; page = 0; count = 0 }

-- `floppy_interrupt`, less the wake-up of the tasks that wait; the result asks for a reschedule.
unfoldable pub floppy_interrupt : Cmd (Io Floppy) Bool
floppy_interrupt = do change (λ f. record f { received_irq = true }); pure true

module _ (hw : Controller) where
  -- The loop asks 500 times at most.
  unfoldable pub poll_ready : (rounds : ℕ) → Cmd (Io Floppy) Bool
  unfolding inb
  poll_ready zero = pure false
  poll_ready (suc rounds) = do
    let rest = poll_ready rounds
    fdc ← current_fdc
    status ← inb hw.ports (fdc.base_address + 4)
    if bit_and status 128 == 0 then rest else pure true

  unfoldable pub fdc_wait_status_ready : Cmd (Io Floppy) Bool
  unfolding poll_ready
  fdc_wait_status_ready = poll_ready 500

  -- The wait for the handler to run. Without a task it spins and clears the flag; with one it sleeps until it is woken.
  -- When no interrupt comes the wait does not end.
  unfoldable pub fdc_wait_for_irq : Cmd (Io Floppy) (Unit {0})
  unfolding floppy_interrupt
  fdc_wait_for_irq s =
      let arrives = hw.interrupt s.history in
      if s.own.has_task
      then if arrives then (floppy_interrupt >>= λ _. return) s else out_of_fuel
      else if s.own.received_irq
      then change (λ f. record f { received_irq = false }) s
      else if not s.own.ints_enabled
      then panic
      else if arrives
      then (floppy_interrupt >>= λ _. change (λ f. record f { received_irq = false })) s
      else out_of_fuel

  unfoldable pub fdc_send_command : (command : ℕ) → Cmd (Io Floppy) (Unit {0})
  unfolding fdc_wait_status_ready outb
  fdc_send_command command = do
    ready ← fdc_wait_status_ready
    if ready then return else (λ _. panic)
    fdc ← current_fdc
    outb (fdc.base_address + 5) command

  unfoldable pub fdc_recv_data : Cmd (Io Floppy) ℕ
  unfolding fdc_wait_status_ready inb
  fdc_recv_data = do
    ready ← fdc_wait_status_ready
    if ready then return else (λ _. panic)
    fdc ← current_fdc
    inb hw.ports (fdc.base_address + 5)

  -- Status register 0 and the cylinder.
  unfoldable pub fdc_check_interrupt_status : Cmd (Io Floppy) (ℕ × ℕ)
  unfolding fdc_send_command fdc_recv_data
  fdc_check_interrupt_status = do
    fdc_send_command fc_check_int
    status_register ← fdc_recv_data
    current_cylinder ← fdc_recv_data
    pure (status_register, current_cylinder)

  -- The two bytes of `FC_SPECIFY`.
  abbrev pub specify_rates : DriveInfo → ℕ
  specify_rates info = bit_or (bit_and info.step_rate 15 * 2 ^ 4) (bit_and info.unload_time 15)

  abbrev pub specify_load : DriveInfo → ℕ
  specify_load info = bit_or (info.load_time * 2) info.use_pio

  -- Whether the controller has been set to another drive.
  unfoldable pub fdc_switch_active_drive : DrivePlace → (force_select : Bool) → Cmd (Io Floppy) Bool
  unfolding fdc_send_command dma_set_address dma_set_size
  fdc_switch_active_drive place force_select = do
    was ← current
    was_fdc ← current_fdc
    drive ← own (λ f. f.drives place)
    fdc ← own (λ f. f.fdc place.controller)
    if not force_select
          && (was_fdc.controller_num == fdc.controller_num && was.drive_num == drive.drive_num)
        then pure false
        else (do
          change (λ f. record f { current_drive = place })
          fdc_send_command fc_specify
          fdc_send_command (specify_rates drive.driveinfo)
          fdc_send_command (specify_load drive.driveinfo)
          dma_set_address unset dma_floppy_channel fdc.dma_buffer
          dma_set_size unset dma_floppy_channel fdc.dma_size
          pure true)

  unfoldable pub fdc_control_motor : (motor_on : Bool) → Cmd (Io Floppy) (Unit {0})
  unfolding outb
  fdc_control_motor motor_on = do
    d ← current
    fdc ← current_fdc
    outb (fdc.base_address + 2) (
        if motor_on
        then bit_or (bit_or (bit_or d.drive_num (motor_bit d.drive_num)) 4) 8
        else bit_or (bit_or d.drive_num 4) 8)

  -- The rounds of the calibration: whether cylinder 0 has been reached.
  unfoldable pub calibrate_rounds : (rounds : ℕ) → Cmd (Io Floppy) Bool
  unfolding fdc_send_command fdc_wait_for_irq fdc_check_interrupt_status
  calibrate_rounds zero = pure false
  calibrate_rounds (suc rounds) = do
    let rest = calibrate_rounds rounds
    fdc_send_command fc_calibrate
    d ← current
    fdc_send_command d.drive_num
    fdc_wait_for_irq
    (st0, cyl) ← fdc_check_interrupt_status
    if cyl == 0 then pure true else rest

  unfoldable pub fdc_calibrate_drive : Cmd (Io Floppy) Bool
  unfolding fdc_control_motor calibrate_rounds
  fdc_calibrate_drive = do
    fdc_control_motor true
    done ← calibrate_rounds 10
    fdc_control_motor false
    pure done

  -- The rounds of a seek: whether the cylinder has been reached.
  unfoldable pub seek_rounds : (rounds cylinder head : ℕ) → Cmd (Io Floppy) Bool
  unfolding fdc_send_command fdc_wait_for_irq fdc_check_interrupt_status
  seek_rounds zero cylinder head = pure false
  seek_rounds (suc rounds) cylinder head = do
    let rest = seek_rounds rounds cylinder head
    d ← current
    fdc_send_command fc_seek
    fdc_send_command (bit_or (head * 2 ^ 2) d.drive_num)
    fdc_send_command cylinder
    fdc_wait_for_irq
    (st0, cyl) ← fdc_check_interrupt_status
    if cyl == cylinder then pure true else rest

  unfoldable pub fdc_seek_floppy_cylinder : (cylinder head : ℕ) → Cmd (Io Floppy) Bool
  unfolding seek_rounds
  fdc_seek_floppy_cylinder cylinder head = seek_rounds 10 cylinder (head % 2 ^ 8)
