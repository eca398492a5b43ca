-- ===== src/Ide/Disk.antt =====
-- What is asked of the hardware of a drive on the first channel, and what `ide_sector_read` gets from it.
use Prim.Native.Nat.{bit_and, bit_or}
use cyb_os.Prelude.{
  ℕ, zero, suc, ◌+◌, ◌*◌, ◌/◌, ◌%◌, ◌^◌, ◌≤◌, ◌<◌, ◌≡◌, ◌≢◌, refl, ap, ◌∙◌, arith, ◌==◌, ◌&&◌, true,
  false, if◌then◌else◌, Bool, ◌||◌, Option, none, some, inl, inr, Bool-cases, List, [], ◌∷◌, ◌++◌,
  ltb, leb,
}
use mathlib.Core.List.{append-nil}
use cyb_os.Prelude.Run.{ok}
use cyb_os.Word.Bits.{bit_or-shifted}
use cyb_os.Port.{Access, output, input, Io, Hardware, insw}
use cyb_os.Ide.State.{Ide, Place, ata, Channel}
use cyb_os.Ide.Register.{status_error, wait_while_busy}
use cyb_os.Ide.Ata.{reading, begin_access, sector_registers, read_sectors, ide_sector_read}

-- The last value written to a port.
abbrev pub last_written : (port : ℕ) → List Access → ℕ
last_written port [] = 0
last_written port (output q v ∷ h) = if q == port then v else last_written port h
last_written port (input q v ∷ h) = last_written port h

-- The words that have been read since the last write: data at 0x1F0.
abbrev pub words_read : List Access → ℕ
words_read [] = 0
words_read (output q v ∷ h) = 0
words_read (input q v ∷ h) = if q == 496 then suc (words_read h) else words_read h

-- The sector in the registers 0x1F3 to 0x1F6.
abbrev pub sector_in : List Access → ℕ
sector_in h =
    last_written 499 h
    + 2 ^ 8 * last_written 500 h
    + 2 ^ 16 * last_written 501 h
    + 2 ^ 24 * (last_written 502 h % 2 ^ 4)

-- What came before the command 0x20 (read), at 0x1F7, if nothing has been written since.
abbrev pub pending : List Access → Option (List Access)
pending [] = none
pending (input q v ∷ h) = pending h
pending (output q v ∷ h) = if q == 503 && v == 32 then some h else none

-- Since the last write a status has been read in which the drive is not busy.
abbrev pub seen_ready : List Access → Bool
seen_ready [] = false
seen_ready (input q v ∷ h) = (q == 503 && bit_and v 128 == 0) || seen_ready h
seen_ready (output q v ∷ h) = false

-- The registers ask for one sector of those that this drive has, with its number as an address of 28 bits.
abbrev pub Asks : List Access → (drive_nr size : ℕ) → Type 0
Asks h drive_nr size =
    (last_written 502 h / 2 ^ 4 % 2 ≡ drive_nr)
    × (last_written 502 h / 2 ^ 6 % 2 ≡ 1)
    × (last_written 498 h ≡ 1)
    × (sector_in h < size)

-- The history with `count` more reads of the status.
abbrev pub status_reads : Hardware → (count : ℕ) → List Access → List Access
status_reads hardware zero h = h
status_reads hardware (suc count) h =
    status_reads hardware count (input 503 (hardware h 503 % 2 ^ 8) ∷ h)

-- A drive of `size` sectors, where `disk sector i` is word `i` of a sector. Of `patience` statuses that are read in a row
-- there is one in which the drive is not busy. When it has been asked for one of its sectors, with its own number in the
-- register of the drive, and then has shown that it is not busy, it has data and reports no error, and its data register
-- gives the 256 words of that sector, one after the other.
pub record IsDisk (hardware : Hardware) (disk : ℕ → ℕ → ℕ) (drive_nr size patience : ℕ)
    : Type 0 where
  pub answers :
      (h : List Access)
      → (k : ℕ) × (k < patience)
        × (bit_and (hardware (status_reads hardware k h) 503 % 2 ^ 8) 128 ≡ 0)
  pub ready :
      (h g : List Access)
      → pending h ≡ some g
      → Asks g drive_nr size
      → seen_ready h ≡ true
      → words_read h ≡ 0
      → status_error (hardware h 503 % 2 ^ 8) ≡ 0
  pub content :
      (h g : List Access)
      → pending h ≡ some g
      → Asks g drive_nr size
      → seen_ready h ≡ true
      → words_read h < 256
      → hardware h 496 ≡ disk (sector_in g) (words_read h)
  pub small : (sector i : ℕ) → disk sector i < 2 ^ 16

-- The bytes of `count` words from word `k` on, and those of a sector.
unfoldable pub bytes_from : (ℕ → ℕ) → (k count : ℕ) → List ℕ
bytes_from f k zero = []
bytes_from f k (suc count) = f k % 2 ^ 8 ∷ f k / 2 ^ 8 ∷ bytes_from f (suc k) count

unfoldable pub sector_bytes : (ℕ → ℕ → ℕ) → (sector : ℕ) → List ℕ
sector_bytes disk sector = bytes_from (disk sector) 0 256

-- The first channel of the first controller.
abbrev pub primary : (no_int bm_ide : ℕ) → Channel
primary no_int bm_ide = record { base = 496; dev_ctl = 1012; no_int = no_int; bm_ide = bm_ide }

-- A drive on the first channel that can be read: enabled, of type ATA, and with 28-bit addresses.
abbrev pub CanRead : Ide → Place → Type 0
CanRead own place =
    ((n b : ℕ) × (own.channels place.controller place.channel ≡ primary n b))
    × ((own.drives place).enabled ≡ true)
    × ((own.drives place).type ≡ ata)
    × (bit_and (own.drives place).capabilities 512 ≢ 0)
    × (place.drive < 2)

-- What a read leaves as it was: the drives and the registered devices; and the drive can be read again.
abbrev pub Kept : Place → Ide → Ide → Type 0
Kept place own own' =
    (own'.drives ≡ own.drives) × (own'.registered ≡ own.registered) × CanRead own' place

-- The history with the parameters of a read, and with its command.
abbrev asked : (lba drive_nr : ℕ) → List Access → List Access
asked lba drive_nr h =
    output 501 (lba / 2 ^ 16 % 2 ^ 8)
    ∷ output 500 (lba / 2 ^ 8 % 2 ^ 8)
    ∷ output 499 (lba % 2 ^ 8)
    ∷ output 498 1
    ∷ output 502 (bit_or (bit_or 224 (drive_nr * 2 ^ 4)) (lba / 2 ^ 24 % 2 ^ 4) % 2 ^ 8)
    ∷ h

device_in :
    (drive_nr x : ℕ)
    → drive_nr < 2
    → x < 16
    → bit_or (bit_or 224 (drive_nr * 2 ^ 4)) x % 2 ^ 8 ≡ 224 + drive_nr * 16 + x
device_in zero x d lt = omega (arith, bit_or-shifted 4 14 x lt)
device_in (suc zero) x d lt = omega (arith, bit_or-shifted 4 15 x lt)
device_in (suc (suc n)) x d lt = absurd (omega arith)

sector_in-asked :
    (lba drive_nr : ℕ) (h : List Access)
    → lba < 2 ^ 28
    → drive_nr < 2
    → sector_in (asked lba drive_nr h) ≡ lba
sector_in-asked lba drive_nr h lt d =
    omega (arith, device_in drive_nr (lba / 2 ^ 24 % 2 ^ 4) d (omega arith))

asked-Asks :
    (lba drive_nr size : ℕ) (h : List Access)
    → lba < 2 ^ 28
    → drive_nr < 2
    → lba < size
    → Asks (asked lba drive_nr h) drive_nr size
asked-Asks lba drive_nr size h lt d within =
    let device = device_in drive_nr (lba / 2 ^ 24 % 2 ^ 4) d (omega arith) in
    (
      omega (arith, device),
      omega (arith, device),
      refl,
      omega (arith, sector_in-asked lba drive_nr h lt d),
    )

-- Waits that have come to their end.
record Waited (hardware : Hardware) (fuel : ℕ) (channel : Channel) (h : List Access) (own : Ide)
    : Type 0 where
  after : List Access
  runs :
      wait_while_busy hardware fuel channel (record { history = h; own = own })
      ≡ ok tt (record { history = after; own = own })
  same : pending after ≡ pending h
  seen : seen_ready after ≡ true
  words : words_read after ≡ words_read h

module _ (hardware : Hardware) where
  wait_now :
      (fuel : ℕ) (n b : ℕ) (h : List Access) (own : Ide)
      → (bit_and (hardware h 503 % 2 ^ 8) 128 == 0) ≡ true
      → Waited hardware (suc fuel) (primary n b) h own
  unfolding wait_while_busy
  wait_now fuel n b h own idle = record {
    after = input 503 (hardware h 503 % 2 ^ 8) ∷ h;
    runs = rw idle refl;
    same = refl;
    seen = rw idle refl;
    words = refl;
  }

  wait_again :
      (fuel : ℕ) (n b : ℕ) (h : List Access) (own : Ide)
      → (bit_and (hardware h 503 % 2 ^ 8) 128 == 0) ≡ false
      → Waited hardware fuel (primary n b) (input 503 (hardware h 503 % 2 ^ 8) ∷ h) own
      → Waited hardware (suc fuel) (primary n b) h own
  unfolding wait_while_busy
  wait_again fuel n b h own busy later = record {
    after = later.after;
    runs = rw busy later.runs;
    same = later.same;
    seen = later.seen;
    words = later.words;
  }

  wait_lem :
      (k fuel : ℕ) (n b : ℕ) (h : List Access) (own : Ide)
      → k < fuel
      → bit_and (hardware (status_reads hardware k h) 503 % 2 ^ 8) 128 ≡ 0
      → Waited hardware fuel (primary n b) h own
  wait_lem k zero n b h own lt idle = absurd (omega arith)
  wait_lem zero (suc fuel) n b h own lt idle = wait_now fuel n b h own (ground (arith, idle))
  wait_lem (suc k) (suc fuel) n b h own lt idle =
      elim (Bool-cases (bit_and (hardware h 503 % 2 ^ 8) 128 == 0)) [
        | inl now ↦ wait_now fuel n b h own now
        | inr busy ↦
            wait_again fuel n b h own busy
              (wait_lem k fuel n b (input 503 (hardware h 503 % 2 ^ 8) ∷ h) own (omega arith) idle)
      ]

module _ (hardware : Hardware) (disk : ℕ → ℕ → ℕ) (drive_nr size fuel : ℕ)
    (is : IsDisk hardware disk drive_nr size fuel) where
  wait_disk : (n b : ℕ) (h : List Access) (own : Ide) → Waited hardware fuel (primary n b) h own
  wait_disk n b h own =
      let (k, lt, idle) = is.answers h in wait_lem hardware k fuel n b h own lt idle

  insw_lem :
      (count k sector : ℕ) (h g : List Access) (own : Ide)
      → pending h ≡ some g
      → Asks g drive_nr size
      → seen_ready h ≡ true
      → sector_in g ≡ sector
      → words_read h ≡ k
      → k + count ≤ 256
      → (h' : List Access) × (insw hardware 496 count (record { history = h; own = own })
          ≡ ok (bytes_from (disk sector) k count) (record { history = h'; own = own }))
  unfolding insw bytes_from
  insw_lem zero k sector h g own p asks seen e w room = (h, refl)
  insw_lem (suc count) k sector h g own p asks seen e w room =
      let word : hardware h 496 ≡ disk sector k =
        rw (← e, ← w) (is.content h g p asks seen (omega arith)) in
      let value : hardware h 496 % 2 ^ 16 ≡ disk sector k =
        omega (arith, word, is.small sector k) in
      let (h', rest) =
        insw_lem count (suc k) sector (input 496 (disk sector k) ∷ h) g own p asks seen e (ap suc w)
          (omega arith) in
      (h', ground (arith, value, rest))

  begin_access-lba28 :
      (place : Place) (lba : ℕ) (h : List Access) (own : Ide) {n b : ℕ}
      → own.channels place.controller place.channel ≡ primary n b
      → bit_and (own.drives place).capabilities 512 ≢ 0
      → lba < 2 ^ 28
      → (h' : List Access) × (begin_access hardware fuel reading place lba 1
            (record { history = h; own = own })
          ≡ ok
              (primary 2 b, sector_registers (own.drives place).capabilities lba)
              (record {
                history = output 503 32 ∷ asked lba place.drive h';
                own = record own {
                  irq_invoked = 0;
                  channels = λ c n.
                      if c == place.controller && n == place.channel
                      then primary 2 b
                      else own.channels c n;
                };
              }))
  unfolding begin_access
  begin_access-lba28 place lba h own {b = b} at lba28 lt =
      let silent = record own {
        irq_invoked = 0;
        channels = λ c n.
            if c == place.controller && n == place.channel then primary 2 b else own.channels c n;
      } in
      let waited = wait_disk 2 b (output 1014 2 ∷ h) silent in
      let low : leb (2 ^ 28) lba ≡ false = ground arith in
      let flag : (bit_and (own.drives place).capabilities 512 == 0) ≡ false = ground arith in
      (waited.after, ground (arith, waited.runs, low, flag, at))

  sector-unfold : (sector : ℕ) → bytes_from (disk sector) 0 256 ++ [] ≡ sector_bytes disk sector
  unfolding sector_bytes
  sector-unfold sector = append-nil (bytes_from (disk sector) 0 256)

  read_sectors-one :
      (sector : ℕ) (h g : List Access) (own : Ide) (b : ℕ)
      → pending h ≡ some g
      → Asks g drive_nr size
      → sector_in g ≡ sector
      → words_read h ≡ 0
      → (h' : List Access) × (read_sectors hardware fuel 1
            (primary 2 b)
            (record { history = h; own = own })
          ≡ ok (0, sector_bytes disk sector) (record { history = h'; own = own }))
  unfolding read_sectors
  read_sectors-one sector h g own b p asks e w =
      let alt = λ (g : List Access). input 1014 (hardware g 1014 % 2 ^ 8) ∷ g in
      let waited = wait_disk 2 b (alt (alt (alt (alt h)))) own in
      let once = waited.after in
      let twice = input 503 (hardware once 503 % 2 ^ 8) ∷ once in
      let asked_once = waited.same ∙ p in
      let unread = waited.words ∙ w in
      let good = is.ready once g asked_once asks waited.seen unread in
      let seen : seen_ready twice ≡ true = ground (arith, waited.seen) in
      let (h', rest) =
        insw_lem 256 0 sector twice g own asked_once asks seen e unread (omega arith) in
      (h', ground (arith, waited.runs, good, rest, sector-unfold sector))

  -- On a drive that can be read, with a disk behind it, `ide_sector_read` of a sector below 2 ^ 28 that the disk has, and
  -- not past the size of the drive, comes to its end if each wait has as many rounds as the drive may be busy. It
  -- returns 1 and puts the 512 bytes of that very sector into the buffer; the drives and the registered devices
  -- stay as they are, and the drive can be read again.
  pub ide_sector_read-disk :
      (place : Place) (lba : ℕ) (s : Io Ide)
      → CanRead s.own place
      → place.drive ≡ drive_nr
      → lba < 2 ^ 28
      → lba < size
      → size ≤ (s.own.drives place).size
      → (s' : Io Ide) × (ide_sector_read hardware fuel place lba 1 s
          ≡ ok (1, sector_bytes disk lba) s')
        × Kept place s.own s'.own
  unfolding ide_sector_read
  ide_sector_read-disk place lba s ((n, b, at), on, kind, lba28, d) own_nr lt has_it le =
      let (before, sent) = begin_access-lba28 place lba s.history s.own at lba28 lt in
      let own = record s.own {
        irq_invoked = 0;
        channels = λ c n.
            if c == place.controller && n == place.channel then primary 2 b else s.own.channels c n;
      } in
      let g = asked lba place.drive before in
      let asks : Asks g drive_nr size =
        rw (← own_nr) (asked-Asks lba place.drive size before lt d has_it) in
      let (h', got) =
        read_sectors-one lba (output 503 32 ∷ g) g own b refl asks
          (sector_in-asked lba place.drive before lt d) refl in
      let within : ltb (s.own.drives place).size lba ≡ false = ground arith in
      (
        record { history = h'; own = own },
        ground (arith, on, kind, within, sent, got),
        (refl, refl, ((2, b, ground arith), on, kind, lba28, d)),
      )
