-- ===== src/Pci.antt =====
-- The PCI bus: pci.c. The list of devices is an array of `PCI_MAX_DEVICES` records.
pub mod Find
pub mod Scan
use Prim.Native.Nat.{bit_and, bit_or}
use cyb_os.Prelude.{
  ℕ, zero, suc, ◌+◌, ◌-◌, ◌*◌, ◌/◌, ◌%◌, ◌^◌, ◌==◌, if◌then◌else◌, Bool, not, ◌&&◌, ◌||◌, Option,
  none, some, List, [], ◌∷◌, ◌++◌, get_elem?, get_or, set, replicate, length, ltb,
}
use cyb_os.Prelude.Run.{ok, fault, panic, out_of_fuel, Cmd, pure, ◌>>=◌, ◌>>◌, gets, modify, return}
use cyb_os.Port.{Io, Hardware, outl, inl}

abbrev pub pci_max_devices : ℕ
pci_max_devices = 255

-- `pci_device_t`
pub record PciDevice : Type 0 where
  pub enabled : ℕ
  pub index : ℕ
  pub class : ℕ
  pub subclass : ℕ
  pub vendor_id : ℕ
  pub device_id : ℕ
  pub bus : ℕ
  pub slot : ℕ
  pub func : ℕ
  pub config_space : List ℕ

abbrev pub PciList : Type 0
PciList = List PciDevice

-- The configuration space is read as bytes, with the low one first.
unfoldable pub pci_config_get_byte : PciDevice → (offset : ℕ) → ℕ
pci_config_get_byte dev offset = get_or dev.config_space offset 0

unfoldable pub pci_config_get_word : PciDevice → (offset : ℕ) → ℕ
unfolding pci_config_get_byte
pci_config_get_word dev offset =
    pci_config_get_byte dev offset + 2 ^ 8 * pci_config_get_byte dev (offset + 1)

unfoldable pub pci_config_get_dword : PciDevice → (offset : ℕ) → ℕ
unfolding pci_config_get_word
pci_config_get_dword dev offset =
    pci_config_get_word dev offset + 2 ^ 16 * pci_config_get_word dev (offset + 2)

-- The device in a slot; a slot past the end of the array is a fault.
abbrev pub device_in : PciList → ℕ → Cmd PciList PciDevice
device_in devices i s = elim (get_elem? devices i) [ none ↦ fault | some d ↦ ok d s ]

-- `none` stands for an argument of -1.
abbrev pub matches : Option ℕ → ℕ → Bool
matches wanted value = elim wanted [ none ↦ value == value | some w ↦ value == w ]

-- The loops of both searches: on from slot `i` until a device fits, by its index.
unfoldable pub find_from : (fuel : ℕ) → (PciDevice → Bool) → (i : ℕ) → Cmd PciList (Option ℕ)
find_from zero fits i = λ _. out_of_fuel
find_from (suc fuel) fits i = do
  s ← gets (λ s. s)
  tmp ← device_in s i
  let rest = find_from fuel fits (tmp.index + 1)
  if fits tmp && not (tmp.enabled == 0)
      then pure (some i)
      else if tmp.index == pci_max_devices - 1
      then pure none
      else rest

-- The slot where a search begins: that behind the device in slot `dev`, or the first one.
abbrev pub first_slot : (dev : Option ℕ) → Cmd PciList ℕ
first_slot none = pure 0
first_slot (some dev) = do s ← gets (λ s. s); d ← device_in s dev; pure (d.index + 1)

-- `dev` and the result are slots of the list, `none` for NULL.
unfoldable pub pci_find_next_class :
    (fuel : ℕ) → (dev : Option ℕ) → (class subclass : Option ℕ) → Cmd PciList (Option ℕ)
unfolding find_from
pci_find_next_class fuel dev class subclass = do
  i ← first_slot dev
  find_from fuel (λ d. matches class d.class && matches subclass d.subclass) i

unfoldable pub pci_find_next_position :
    (fuel : ℕ) → (dev : Option ℕ) → (bus slot func : Option ℕ) → Cmd PciList (Option ℕ)
unfolding find_from
pci_find_next_position fuel dev bus slot func = do
  i ← first_slot dev
  find_from fuel (λ d. matches bus d.bus && (matches slot d.slot && matches func d.func)) i

-- The first slot that is free, from the one that `list` begins with.
unfoldable pub free_slot_from : PciList → (i : ℕ) → Option ℕ
free_slot_from [] i = none
free_slot_from (d ∷ list) i = if d.enabled == 0 then some i else free_slot_from list (i + 1)

unfoldable pub pci_get_next_free_slot : Cmd (Io PciList) (Option ℕ)
unfolding free_slot_from
pci_get_next_free_slot = gets (λ s. free_slot_from s.own 0)

-- The record of a device that has been found.
unfoldable pub found_device : (index bus slot func : ℕ) → List ℕ → PciDevice
unfolding pci_config_get_word
found_device index bus slot func config =
    let dev : PciDevice = record {
      enabled = 1;
      index = index;
      class = get_or config 11 0;
      subclass = get_or config 10 0;
      vendor_id = 0;
      device_id = 0;
      bus = bus;
      slot = slot;
      func = func;
      config_space = config;
    } in
    record dev { vendor_id = pci_config_get_word dev 0; device_id = pci_config_get_word dev 2 }

-- `memset`, and the index of each entry.
unfoldable pub cleared : (count i : ℕ) → PciList
cleared zero i = []
cleared (suc count) i =
    record {
      enabled = 0;
      index = i;
      class = 0;
      subclass = 0;
      vendor_id = 0;
      device_id = 0;
      bus = 0;
      slot = 0;
      func = 0;
      config_space = replicate 256 0;
    }
    ∷ cleared count (i + 1)

-- A device that is written into a slot; a slot past the end of the array is a fault.
unfoldable pub put_device : (idx : ℕ) → PciDevice → Cmd (Io PciList) (Unit {0})
put_device idx dev s =
    if ltb idx (length s.own) then ok tt (record s { own = set s.own idx dev }) else fault

-- The list, as the state of a driver.
module _ (hardware : Hardware) where
  -- Ports 0xCF8 and 0xCFC.
  unfoldable pub pci_readword : (bus slot func offset : ℕ) → Cmd (Io PciList) ℕ
  unfolding outl inl
  pci_readword bus slot func offset = do
    let place = bit_or (bit_or (bit_or (2 ^ 31) (bus * 2 ^ 16)) (slot * 2 ^ 11)) (func * 2 ^ 8)
    outl 3320 (bit_or place (bit_and offset 252))
    ret ← inl hardware 3324
    pure (bit_and (ret / 2 ^ (bit_and offset 2 * 8)) 65535)

  -- The configuration space from word `i` on.
  unfoldable pub config_words : (count i bus slot func : ℕ) → Cmd (Io PciList) (List ℕ)
  unfolding pci_readword
  config_words zero i bus slot func = pure []
  config_words (suc count) i bus slot func = do
    tmp ← pci_readword bus slot func (i * 2)
    rest ← config_words count (i + 1) bus slot func
    pure (tmp % 2 ^ 8 ∷ tmp / 2 ^ 8 % 2 ^ 8 ∷ rest)

  -- The functions of one slot, from `func` on.
  unfoldable pub scan_funcs : (count func bus slot : ℕ) → Cmd (Io PciList) (Unit {0})
  unfolding pci_readword pci_get_next_free_slot config_words found_device pci_config_get_byte
      put_device
  scan_funcs zero func bus slot = return
  scan_funcs (suc count) func bus slot = do
    let rest = scan_funcs count (func + 1) bus slot
    device ← pci_readword bus slot func 2
    if device == 65535 then rest else (do
      free ← pci_get_next_free_slot
      elim free [
        | none ↦ λ _. panic
        | some idx ↦ do
          config ← config_words 128 0 bus slot func
          let dev = found_device idx bus slot func config
          put_device idx dev
          let header = pci_config_get_byte dev 14
          if func == 0 && not (bit_and header 128 == 128) then return else rest
      ])

  unfoldable pub scan_slots : (count slot bus : ℕ) → Cmd (Io PciList) (Unit {0})
  unfolding pci_readword scan_funcs
  scan_slots zero slot bus = return
  scan_slots (suc count) slot bus = do
    vendor ← pci_readword bus slot 0 0
    if vendor == 65535 then return else scan_funcs 8 0 bus slot
    scan_slots count (slot + 1) bus

  unfoldable pub scan_buses : (count bus : ℕ) → Cmd (Io PciList) (Unit {0})
  unfolding scan_slots
  scan_buses zero bus = return
  scan_buses (suc count) bus = do scan_slots 32 0 bus; scan_buses count (bus + 1)

  unfoldable pub pci_init : Cmd (Io PciList) (Unit {0})
  unfolding scan_buses cleared
  pci_init = do modify (λ s. record s { own = cleared pci_max_devices 0 }); scan_buses 256 0
