-- ===== src/Ide/Register.antt =====
-- The registers of a channel: `ide_port_write`, `ide_port_read`, `ide_polling` and the sleeps of ide.c.
use Prim.Native.Nat.{bit_and, bit_or}
use cyb_os.Prelude.{
  ℕ, zero, suc, ◌+◌, ◌-◌, ◌*◌, ◌==◌, ◌&&◌, not, Bool, if◌then◌else◌, Option, none, some, List, ltb,
}
use cyb_os.Prelude.Run.{out_of_fuel, Cmd, pure, ◌>>=◌, ◌>>◌, return}
use cyb_os.Port.{Io, Hardware, outb, inb, insl}
use cyb_os.Ide.State.{Ide, Channel}

-- The port of a register; there is none from 0x16 on, and no caller uses one.
abbrev pub port_of : Channel → (reg : ℕ) → Option ℕ
port_of channel reg =
    if ltb reg 8
    then some (channel.base + reg)
    else if ltb reg 12
    then some (channel.base + reg - 6)
    else if ltb reg 14
    then some (channel.dev_ctl + reg - 10)
    else if ltb reg 22
    then some (channel.bm_ide + reg - 14)
    else none

abbrev pub ide_reg_data : ℕ
ide_reg_data = 0

abbrev pub ide_reg_seccount0 : ℕ
ide_reg_seccount0 = 2

abbrev pub ide_reg_lba0 : ℕ
ide_reg_lba0 = 3

abbrev pub ide_reg_lba1 : ℕ
ide_reg_lba1 = 4

abbrev pub ide_reg_lba2 : ℕ
ide_reg_lba2 = 5

abbrev pub ide_reg_hddevsel : ℕ
ide_reg_hddevsel = 6

abbrev pub ide_reg_command : ℕ
ide_reg_command = 7

abbrev pub ide_reg_status : ℕ
ide_reg_status = 7

abbrev pub ide_reg_seccount1 : ℕ
ide_reg_seccount1 = 8

abbrev pub ide_reg_lba3 : ℕ
ide_reg_lba3 = 9

abbrev pub ide_reg_lba4 : ℕ
ide_reg_lba4 = 10

abbrev pub ide_reg_lba5 : ℕ
ide_reg_lba5 = 11

abbrev pub ide_reg_control : ℕ
ide_reg_control = 12

abbrev pub ide_reg_altstatus : ℕ
ide_reg_altstatus = 12

abbrev pub ide_sr_bsy : ℕ
ide_sr_bsy = 128

abbrev pub ide_sr_df : ℕ
ide_sr_df = 32

abbrev pub ide_sr_drq : ℕ
ide_sr_drq = 8

abbrev pub ide_sr_err : ℕ
ide_sr_err = 1

-- The registers 8 to 11 are the high bytes of the registers 2 to 5.
abbrev pub is_high : (reg : ℕ) → Bool
is_high reg = ltb 7 reg && ltb reg 12

-- One write, without the switch to the high bytes.
unfoldable pub plain_write : Channel → (reg value : ℕ) → Cmd (Io Ide) (Unit {0})
unfolding outb
plain_write channel reg value = elim (port_of channel reg) [
  | none ↦ return
  | some port ↦ outb port value
]

-- An access between the switch to the high bytes and the way back, where the register is one of those.
unfoldable pub with_high : {A : Type 0} → Channel → (reg : ℕ) → Cmd (Io Ide) A → Cmd (Io Ide) A
unfolding plain_write
with_high channel reg access =
    if is_high reg
    then (do
      plain_write channel ide_reg_control (bit_or 128 channel.no_int)
      a ← access
      plain_write channel ide_reg_control channel.no_int
      pure a)
    else access

unfoldable pub ide_port_write : Channel → (reg value : ℕ) → Cmd (Io Ide) (Unit {0})
unfolding with_high
ide_port_write channel reg value = with_high channel reg (plain_write channel reg value)

-- The errors of a status: 1 for a fault of the device, 2 for an error, 3 for no data.
unfoldable pub status_error : ℕ → ℕ
status_error state =
    if not (bit_and state ide_sr_df == 0)
    then 1
    else if not (bit_and state ide_sr_err == 0)
    then 2
    else if bit_and state ide_sr_drq == 0
    then 3
    else 0

module _ (hardware : Hardware) where
  -- Without a port the result is a local variable that is not set, here 0.
  unfoldable pub ide_port_read : Channel → (reg : ℕ) → Cmd (Io Ide) ℕ
  unfolding with_high inb
  ide_port_read channel reg =
      with_high channel reg
        (elim (port_of channel reg) [ none ↦ pure 0 | some port ↦ inb hardware port ])

  unfoldable pub ide_port_read_buffer : Channel → (reg quads : ℕ) → Cmd (Io Ide) (List ℕ)
  unfolding with_high insl
  ide_port_read_buffer channel reg quads =
      with_high channel reg
        (elim (port_of channel reg) [ none ↦ pure List.[] | some port ↦ insl hardware port quads ])

  -- The alternative status, read `times` times: 100 microseconds each.
  unfoldable pub delay : (times : ℕ) → Channel → Cmd (Io Ide) (Unit {0})
  unfolding ide_port_read
  delay zero channel = return
  delay (suc times) channel = do
    ide_port_read channel ide_reg_altstatus >>= λ _. return
    delay times channel

  -- `while (ide_port_read (channel, IDE_REG_STATUS) & IDE_SR_BSY) ;`
  unfoldable pub wait_while_busy : (fuel : ℕ) → Channel → Cmd (Io Ide) (Unit {0})
  unfolding ide_port_read
  wait_while_busy zero channel = λ _. out_of_fuel
  wait_while_busy (suc fuel) channel = do
    let rest = wait_while_busy fuel channel
    status ← ide_port_read channel ide_reg_status
    if bit_and status ide_sr_bsy == 0 then return else rest

  unfoldable pub ide_polling : (fuel : ℕ) → Channel → (advanced_check : Bool) → Cmd (Io Ide) ℕ
  unfolding delay wait_while_busy status_error
  ide_polling fuel channel advanced_check = do
    delay 4 channel
    wait_while_busy fuel channel
    if advanced_check
        then (do state ← ide_port_read channel ide_reg_status; pure (status_error state))
        else pure 0

  unfoldable pub ide_sleep : Channel → (ms : ℕ) → Cmd (Io Ide) (Unit {0})
  unfolding delay
  ide_sleep channel ms = delay (ms * 10) channel
