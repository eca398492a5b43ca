-- ===== src/Dma.antt =====
-- The DMA controllers: dma.c. The buffer's address and size go out in bytes.
pub mod Address
use Prim.Native.Nat.{bit_and, bit_or}
use cyb_os.Prelude.{
  ℕ, ◌+◌, ◌-◌, ◌/◌, ◌%◌, ◌^◌, ◌==◌, ltb, leb, if◌then◌else◌, Option, none, some, List, [], ◌∷◌,
  get_elem?,
}
use cyb_os.Prelude.Run.{ok, Cmd, pure, ◌>>=◌, ◌>>◌, return}
use cyb_os.Port.{Io, outb}

-- The ports of a channel: of the address, of the page (0 where there is none), and of the count.
pub record Ports : Type 0 where
  pub address : ℕ
  pub page : ℕ
  pub count : ℕ

-- `DMA0_CHANNEL_IO`, `DMA1_CHANNEL_IO` and `DMA0_PAGE_REG`, by channel.
abbrev pub channel_ports : List Ports
channel_ports =
    record { address = 0; page = 0; count = 1 }
    ∷ record { address = 2; page = 131; count = 3 }
    ∷ record { address = 4; page = 129; count = 5 }
    ∷ record { address = 6; page = 130; count = 7 }
    ∷ record { address = 192; page = 0; count = 194 }
    ∷ record { address = 196; page = 137; count = 198 }
    ∷ record { address = 200; page = 135; count = 202 }
    ∷ record { address = 204; page = 136; count = 206 }
    ∷ []

-- `garbage` is what the local variables hold for channel 8, which passes the guard and has no case.
abbrev pub ports_of : (garbage : Ports) → (channel : ℕ) → Ports
ports_of garbage channel = elim (get_elem? channel_ports channel) [ none ↦ garbage | some p ↦ p ]

abbrev pub dma_mode_read_transfer : ℕ
dma_mode_read_transfer = 4

abbrev pub dma_mode_write_transfer : ℕ
dma_mode_write_transfer = 8

abbrev pub dma_mode_mask_auto : ℕ
dma_mode_mask_auto = 16

abbrev pub dma_mode_transfer_single : ℕ
dma_mode_transfer_single = 64

module _ {S : Type 0} where
  unfoldable pub dma_set_address : (garbage : Ports) → (channel address : ℕ) → Cmd (Io S) (Unit {0})
  unfolding outb
  dma_set_address garbage channel address =
      let page = bit_and (address / 2 ^ 16 % 2 ^ 16 % 2 ^ 8) 15 in
      let ports = ports_of garbage channel in
      if ltb 8 channel then return else (do
        outb ports.address (address % 2 ^ 16 % 2 ^ 8)
        outb ports.address (address % 2 ^ 16 / 2 ^ 8)
        if ports.page == 0 then return else outb ports.page page)

  unfoldable pub dma_set_size : (garbage : Ports) → (channel size : ℕ) → Cmd (Io S) (Unit {0})
  unfolding outb
  dma_set_size garbage channel size =
      let ports = ports_of garbage channel in
      if ltb 8 channel
      then return
      else (do outb ports.count (size % 2 ^ 8); outb ports.count (size / 2 ^ 8))

  -- The processor takes the count of a shift modulo 32.
  unfoldable pub dma_mask_channel : (channel : ℕ) → Cmd (Io S) (Unit {0})
  unfolding outb
  dma_mask_channel channel =
      if leb channel 4
      then outb 10 (2 ^ ((channel + 31) % 32))
      else outb 212 (2 ^ ((channel + 27) % 32))

  unfoldable pub dma_unmask_channel : (channel : ℕ) → Cmd (Io S) (Unit {0})
  unfolding outb
  dma_unmask_channel channel = if leb channel 4 then outb 10 channel else outb 212 channel

  unfoldable pub dma_reset_flipflop : (dma : ℕ) → Cmd (Io S) (Unit {0})
  unfolding outb
  dma_reset_flipflop dma = if ltb dma 2 then return else outb (if dma == 0 then 12 else 216) 255

  unfoldable pub dma_reset : Cmd (Io S) (Unit {0})
  unfolding outb
  dma_reset = outb 13 255

  unfoldable pub dma_unmask_all : Cmd (Io S) (Unit {0})
  unfolding outb
  dma_unmask_all = outb 220 255

  unfoldable pub dma_set_mode : (channel mode : ℕ) → Cmd (Io S) (Unit {0})
  unfolding outb dma_mask_channel dma_unmask_all
  dma_set_mode channel mode = do
    let chan = if ltb channel 4 then channel else channel - 4
    dma_mask_channel channel
    outb (if ltb channel 4 then 11 else 214) (bit_or chan mode)
    dma_unmask_all

  unfoldable pub dma_set_read : (channel : ℕ) → Cmd (Io S) (Unit {0})
  unfolding dma_set_mode
  dma_set_read channel =
      dma_set_mode channel (dma_mode_read_transfer + dma_mode_transfer_single + dma_mode_mask_auto)

  unfoldable pub dma_set_write : (channel : ℕ) → Cmd (Io S) (Unit {0})
  unfolding dma_set_mode
  dma_set_write channel =
      dma_set_mode channel (dma_mode_write_transfer + dma_mode_transfer_single + dma_mode_mask_auto)

  unfoldable pub dma_init : Cmd (Io S) (Unit {0})
  unfolding dma_reset
  dma_init = dma_reset
