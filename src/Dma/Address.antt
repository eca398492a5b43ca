-- ===== src/Dma/Address.antt =====
-- What the controller puts together from the bytes that `dma_set_address` sends.
use cyb_os.Prelude.{ℕ, ◌+◌, ◌*◌, ◌/◌, ◌%◌, ◌^◌, ◌<◌, ◌≢◌, ◌≡◌, arith, ◌∷◌}
use cyb_os.Prelude.Run.{ok}
use cyb_os.Port.{output, Io}
use cyb_os.Word.Bits.{bit_and-ones}
use cyb_os.Dma.{Ports, ports_of, dma_set_address}

-- On a channel with a port for its page, `dma_set_address` sends three bytes: two to the port of the address and one
-- to that of the page. Put together, low byte first, they are the lowest twenty bits of the address; nothing else
-- changes. So an address from 1 MB on is not the one that the controller gets.
pub dma_set_address_lem :
    {S : Type 0} (s : Io S) (garbage : Ports) (channel address : ℕ)
    → channel < 8
    → (ports_of garbage channel).page ≢ 0
    → (low high page : ℕ) × (dma_set_address garbage channel address s
        ≡ ok tt (record s {
          history =
              output (ports_of garbage channel).page page
              ∷ output (ports_of garbage channel).address high
              ∷ output (ports_of garbage channel).address low
              ∷ s.history;
        }))
      × (low < 2 ^ 8)
      × (high < 2 ^ 8)
      × (page < 2 ^ 8)
      × (low + 2 ^ 8 * high + 2 ^ 16 * page ≡ address % 2 ^ 20)
unfolding dma_set_address
dma_set_address_lem s garbage channel address few paged = (
  address % 2 ^ 8,
  address / 2 ^ 8 % 2 ^ 8,
  address / 2 ^ 16 % 2 ^ 4,
  ground (arith, bit_and-ones 4 (address / 2 ^ 16 % 2 ^ 16 % 2 ^ 8)),
  omega arith,
  omega arith,
  omega arith,
  omega arith,
)
