-- ===== src/Port.antt =====
-- The ports of io.c, and the interrupt controllers of pic.c.
use cyb_os.Prelude.{ℕ, zero, suc, ◌+◌, ◌*◌, ◌/◌, ◌%◌, ◌^◌, List, [], ◌∷◌}
use cyb_os.Prelude.Run.{ok, fault, Cmd, pure, ◌>>=◌, ◌>>◌, modify, return}

-- An access to a port: what is written to it, or what is read from it.
pub data Access : Type 0 where
  output : (port value : ℕ) → Access
  input : (port value : ℕ) → Access

-- The accesses so far, the latest first, and the state of the driver itself.
pub record Io (S : Type 0) : Type 0 where
  pub history : List Access
  pub own : S

-- The devices behind the ports: what a read of a port gives, after the accesses so far.
abbrev pub Hardware : Type 0
Hardware = List Access → (port : ℕ) → ℕ

abbrev pub irqint_start : ℕ
irqint_start = 80

module _ {S : Type 0} where
  abbrev pub out : (port value : ℕ) → Cmd (Io S) (Unit {0})
  out port value = modify (λ s. record s { history = output port value ∷ s.history })

  unfoldable pub outb : (port value : ℕ) → Cmd (Io S) (Unit {0})
  outb port value = out port (value % 2 ^ 8)

  unfoldable pub outw : (port value : ℕ) → Cmd (Io S) (Unit {0})
  outw port value = out port (value % 2 ^ 16)

  unfoldable pub outl : (port value : ℕ) → Cmd (Io S) (Unit {0})
  outl port value = out port (value % 2 ^ 32)

  -- Port 0x80.
  unfoldable pub io_wait : Cmd (Io S) (Unit {0})
  unfolding outb
  io_wait = outb 128 0

  -- `rep outsw` of a buffer's bytes.
  unfoldable pub outsw : (port count : ℕ) → List ℕ → Cmd (Io S) (Unit {0})
  unfolding outw
  outsw port zero bytes = return
  outsw port (suc count) (low ∷ (high ∷ bytes)) = do
    outw port (low + 2 ^ 8 * high)
    outsw port count bytes
  outsw port (suc count) bytes = λ _. fault

  module _ (hardware : Hardware) where
    abbrev pub in_bits : (width port : ℕ) → Cmd (Io S) ℕ
    in_bits width port s =
        let value = hardware s.history port % 2 ^ width in
        ok value (record s { history = input port value ∷ s.history })

    unfoldable pub inb : (port : ℕ) → Cmd (Io S) ℕ
    inb port = in_bits 8 port

    unfoldable pub inw : (port : ℕ) → Cmd (Io S) ℕ
    inw port = in_bits 16 port

    unfoldable pub inl : (port : ℕ) → Cmd (Io S) ℕ
    inl port = in_bits 32 port

    -- `rep insw`: the bytes that the buffer gets.
    unfoldable pub insw : (port count : ℕ) → Cmd (Io S) (List ℕ)
    unfolding inw
    insw port zero = pure []
    insw port (suc count) = do
      w ← inw port
      rest ← insw port count
      pure (w % 2 ^ 8 ∷ w / 2 ^ 8 ∷ rest)

    -- `rep insl`
    unfoldable pub insl : (port count : ℕ) → Cmd (Io S) (List ℕ)
    unfolding inl
    insl port zero = pure []
    insl port (suc count) = do
      l ← inl port
      rest ← insl port count
      pure (l % 2 ^ 8 ∷ (l / 2 ^ 8) % 2 ^ 8 ∷ (l / 2 ^ 16) % 2 ^ 8 ∷ l / 2 ^ 24 ∷ rest)

  -- Both bytes go to the port of the master.
  unfoldable pub pic_mask_irq : (irq_mask : ℕ) → Cmd (Io S) (Unit {0})
  unfolding outb
  pic_mask_irq irq_mask = do outb 33 (irq_mask % 2 ^ 8); outb 33 (irq_mask / 2 ^ 8 % 2 ^ 8)

  unfoldable pub pic_init : Cmd (Io S) (Unit {0})
  unfolding outb pic_mask_irq
  pic_init = do
    outb 32 17
    outb 160 17
    outb 33 irqint_start
    outb 161 (irqint_start + 7)
    outb 33 4
    outb 161 2
    outb 33 1
    outb 161 1
    pic_mask_irq 65535
