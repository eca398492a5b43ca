-- ===== src/Tests/Hardware.antt =====
-- The theorems on the drivers, the tables of the processor, programs and parameters at small inputs.
use cyb_os.Prelude.{
  Option, ap, List, suc, ℕ, ◌+◌, ◌-◌, ◌*◌, ◌/◌, ◌%◌, ◌^◌, ◌≤◌, ◌<◌, ◌≡◌, refl, true, false, inl,
  ◌↔◌, [], ◌∷◌, arith, some, none, ◌==◌, if◌then◌else◌, replicate,
}
use cyb_os.Prelude.Run.{ok}
use cyb_os.Port.{Access, output, input, Io, Hardware}
use cyb_os.Dma.{Ports, dma_set_address}
use cyb_os.Dma.Address.{dma_set_address_lem}
use cyb_os.Ide.State.{
  Ide, Place, ata, Partition, drive, partition, dev_major_ide, dev_major_hdc, find_registered,
}
use cyb_os.Ide.Register.{status_error}
use cyb_os.Ide.Block.{ide_block_read}
use cyb_os.Ide.Partition.{ide_partition_block_read}
use cyb_os.Ide.Disk.{IsDisk, sector_in, words_read, pending, seen_ready, primary, Kept, CanRead}
use cyb_os.Ide.Aligned.{sectors_from, ide_block_read-sectors}
use cyb_os.Ide.Inside.{ide_partition_block_read-sectors, ide_partition_block_read-wraps}
use cyb_os.Pci.{PciList}
use cyb_os.Mutex.{mutex_lock}
use cyb_os.Mutex.Exclusion.{Shared, mark, enter, refused, start, next, mutual_exclusion}
use cyb_os.Machine.Vectors.{Entries}
use cyb_os.Boot.{get_boot_parameter}
use cyb_os.Boot.Parameter.{begins_with, IsFirst, get_boot_parameter-value}
use cyb_os.Floppy.State.{DriveInfo, no_info}
use cyb_os.Floppy.Drive.{fdc_convert_lba_to_chs}
use cyb_os.Floppy.Geometry.{fdc_convert_lba_to_chs_lem}
use cyb_os.Elf.Format.{Header}

abbrev io : Io ℕ
io = record { history = []; own = 0 }

abbrev no_ports : Ports
no_ports = record { address = 0; page = 0; count = 0 }

dma_set_address_lem_example :
    (low high page : ℕ) × (dma_set_address no_ports 2 1193046 io
      ≡ ok tt (record io { history = output 129 page ∷ output 4 high ∷ output 4 low ∷ [] }))
    × (low < 2 ^ 8)
    × (high < 2 ^ 8)
    × (page < 2 ^ 8)
    × (low + 2 ^ 8 * high + 2 ^ 16 * page ≡ 144470)
dma_set_address_lem_example = dma_set_address_lem io no_ports 2 1193046 (omega arith) (omega arith)

-- A disk whose words are the sums of sector and place.
abbrev disk : ℕ → ℕ → ℕ
disk sector i = (sector + i) % 2 ^ 16

-- The drive is busy in the first status behind a write.
abbrev statuses : List Access → ℕ
statuses [] = 0
statuses (output q v ∷ h) = 0
statuses (input q v ∷ h) = if q == 503 then suc (statuses h) else statuses h

-- The sector that the last command has asked for.
abbrev sector_asked : Option (List Access) → ℕ
sector_asked none = 0
sector_asked (some g) = sector_in g

abbrev hardware : Hardware
hardware h port =
    if port == 503
    then (if statuses h == 0 then 208 else 88)
    else if port == 496
    then disk (sector_asked (pending h)) (words_read h)
    else 0

seen-statuses : (h : List Access) → seen_ready h ≡ true → (statuses h == 0) ≡ false
seen-statuses [] seen = absurd (ground (arith, seen))
seen-statuses (output q v ∷ h) seen = absurd (ground (arith, seen))
seen-statuses (input q v ∷ h) seen = ground (arith, seen-statuses h)

hardware-IsDisk : IsDisk hardware disk 1 1000 2
unfolding status_error
hardware-IsDisk = record {
  answers = λ h. (1, omega arith, ground arith);
  ready = λ h g p asks seen w. rw (seen-statuses h seen) refl;
  content = λ h g p asks seen w.
      ap (λ (o : Option (List Access)). disk (sector_asked o) (words_read h)) p;
  small = λ sector i. omega arith;
}

abbrev place : Place
place = record { controller = 0; channel = 0; drive = 1 }

abbrev low_partition : Partition
low_partition = record {
  drive = place;
  lba_start = 63;
  lba_end = 563;
  lba_size = 500;
  bootable = 0;
  system_id = 131;
}

abbrev ide : Io Ide
ide = record {
  history = [];
  own = record {
    channels = λ _ _. primary 0 0;
    drives = λ _. record {
      enabled = true;
      type = ata;
      size = 1000;
      signature = 0;
      capabilities = 512;
      command_sets = 0;
      model = [];
      lba48 = false;
      databuf = replicate 512 0;
    };
    controllers_enabled = λ _. true;
    irq_invoked = 0;
    partitions_count = 1;
    registered =
        record { major_num = dev_major_ide; minor_num = 0; target = drive place; filename = [] }
        ∷ record {
          major_num = dev_major_hdc;
          minor_num = 0;
          target = partition low_partition;
          filename = [];
        }
        ∷ [];
  };
}

ide-CanRead : CanRead ide.own place
ide-CanRead = ((0, 0, refl), refl, refl, omega arith, omega arith)

ide_block_read-sectors_example :
    (s' : Io Ide) × (ide_block_read hardware 2 dev_major_ide 0
        (7 * 512)
        (2 * 512)
        (replicate 1024 0)
        ide
      ≡ ok (2 * 512, sectors_from disk 7 2) s')
    × Kept place ide.own s'.own
unfolding find_registered
ide_block_read-sectors_example =
    ide_block_read-sectors hardware disk 1000 2 place hardware-IsDisk 0 7 2 ide (replicate 1024 0)
      refl ide-CanRead (omega arith) (omega arith) (omega arith) refl

ide_partition_block_read-sectors_example :
    (s' : Io Ide) × (ide_partition_block_read hardware 2 dev_major_hdc 0
        (7 * 512)
        (2 * 512)
        (replicate 1024 0)
        ide
      ≡ ok (2 * 512, sectors_from disk (63 + 7) 2) s')
    × Kept place ide.own s'.own
unfolding find_registered
ide_partition_block_read-sectors_example =
    ide_partition_block_read-sectors hardware disk 1000 2 place hardware-IsDisk low_partition 0 7 2
      ide (replicate 1024 0) refl refl ide-CanRead (refl, omega arith) (omega arith) (omega arith)
      (omega arith) refl

ide_partition_block_read-wraps_example :
    (ide_partition_block_read hardware 1 dev_major_hdc 0 (510 * 512) 100 [] ide
      ≡ ide_block_read hardware 1 dev_major_ide 0 293376 (2 ^ 32 - 5120) [] ide)
    × (100 < 2 ^ 32 - 5120)
unfolding find_registered
ide_partition_block_read-wraps_example =
    ide_partition_block_read-wraps hardware 1 low_partition 0 (510 * 512) 100 ide [] refl
      (refl, omega arith) (omega arith) (omega arith) (omega arith)

-- One IDE controller, in slot 1 of bus 0.
abbrev one_controller : Hardware
one_controller (output port value ∷ history) from =
    if value / 2 ^ 8 == 2 ^ 23 + 8
    then (if value % 2 ^ 8 == 8 then 16842752 else 1880129670)
    else 2 ^ 32 - 1
one_controller history from = 2 ^ 32 - 1

abbrev bus : Io PciList
bus = record { history = []; own = [] }

-- Process 3 is inside, and process 5 has been refused.
abbrev shared : Shared
shared = record { word = 7; inside = mark (λ _. false) 3 true }

mutual_exclusion_example :
    ((i j : ℕ) → shared.inside i ≡ true → shared.inside j ≡ true → i ≡ j)
    × (((mutex_lock 7).0 ≡ 0) ↔ ((i : ℕ) → shared.inside i ≡ false))
unfolding mutex_lock
mutual_exclusion_example =
    mutual_exclusion {s = shared} (next (next (start 6 refl) (enter 3 refl)) (refused 5 refl))

abbrev entries : Entries
entries = record { default_int = 1; syscall_int = 2; irq = λ i. 100 + i; exception = λ i. 200 + i }

-- `a=r r='x y'b`: the first `r` is not the parameter `r=`.
get_boot_parameter-value_example :
    get_boot_parameter 255
      (b'a' ∷ b'=' ∷ b'r' ∷ b' ' ∷ b'r' ∷ b'=' ∷ b'\'' ∷ b'x' ∷ b' ' ∷ b'y' ∷ b'\'' ∷ b'b' ∷ [])
      (b'r' ∷ b'=' ∷ [])
      io
    ≡ ok (some (b'x' ∷ b' ' ∷ b'y' ∷ [])) io
unfolding IsFirst begins_with
get_boot_parameter-value_example =
    get_boot_parameter-value io 255 b'\'' (b'a' ∷ b'=' ∷ b'r' ∷ b' ' ∷ []) (b'r' ∷ b'=' ∷ [])
      (b'\'' ∷ b'x' ∷ b' ' ∷ b'y' ∷ b'\'' ∷ b'b' ∷ []) (b'x' ∷ b' ' ∷ b'y' ∷ []) (b'\'' ∷ b'b' ∷ [])
      (omega arith) (omega arith) (refl, (refl, (refl, (refl, tt)))) (inl (inl refl, refl))
      (omega arith) refl (omega arith)

abbrev floppy_info : DriveInfo
floppy_info = record no_info { max_cylinder = 80; max_head = 2; sectors_per_track = 18 }

fdc_convert_lba_to_chs_lem_example :
    (c h s : ℕ) × (fdc_convert_lba_to_chs floppy_info 2000 ≡ some (c, h, s))
    × (c < 80)
    × (h < 2)
    × (1 ≤ s)
    × (s ≤ 18)
    × ((c * 2 + h) * 18 + (s - 1) ≡ 2000)
fdc_convert_lba_to_chs_lem_example =
    fdc_convert_lba_to_chs_lem floppy_info 2000 (omega arith) (omega arith) (omega arith)

-- A program of which the last byte of the signature alone is right.
abbrev header : Header
header = record {
  indent = 0 ∷ b'A' ∷ b'B' ∷ b'F' ∷ 1 ∷ 1 ∷ 1 ∷ [];
  type = 2;
  machine = 3;
  version = 1;
  entry = 4096;
  phoff = 0;
  shoff = 52;
  phnum = 0;
  shnum = 4;
  shstrndx = 3;
}
