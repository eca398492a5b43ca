-- ===== src/Tests/Disks.antt =====
-- The theorems on the file systems of a disk and of the devices.
use cyb_os.Prelude.{
  ℕ, ◌≡◌, ◌++◌, refl, arith, true, List, [], ◌∷◌, some, none, replicate, length, length-replicate,
  length-append, length-take, take,
}
use cyb_os.Prelude.Run.{fault}
use cyb_os.Vfs.Types.{Name, MountPoint, Vfs, Drivers, fs_blockdevice}
use cyb_os.Fat12.Fat.{AllEntries, pack, fat12_get_next_cluster, fat12_get_next_cluster-pack}
use cyb_os.Fat12.Filename.{fat12_convert_dos_to_c_filename, fat12_convert_c_to_dos_filename}
use cyb_os.Fat12.Filename.RoundTrip.{AllPlain, joined, fat12_convert_dos_to_c_filename-c_to_dos}
use cyb_os.Fat12.Info.{read_bpb, fat12_mount}
use cyb_os.Fat12.Overrun.{fat12_mount_fault}
use cyb_os.Devfs.{DevFile, devfs_root, empty_file, devfs_finddir, devfs_mount, devfs_mknod}

abbrev entries : List ℕ
entries = 4080 ∷ 4095 ∷ 3 ∷ 2748 ∷ []

fat12_get_next_cluster-pack_example : fat12_get_next_cluster (pack entries) 3 ≡ some 2748
unfolding AllEntries
fat12_get_next_cluster-pack_example =
    fat12_get_next_cluster-pack entries 3 2748
      (omega arith, (omega arith, (omega arith, (omega arith, tt)))) refl

abbrev base : List ℕ
base = b'A' ∷ b'B' ∷ []

abbrev extension : List ℕ
extension = b'C' ∷ []

base-AllPlain : AllPlain base
unfolding AllPlain
base-AllPlain = (
  omega arith,
  omega arith,
  (λ h. ground (arith, h)),
  (λ h. ground (arith, h)),
  (omega arith, omega arith, (λ h. ground (arith, h)), (λ h. ground (arith, h)), tt),
)

extension-AllPlain : AllPlain extension
unfolding AllPlain
extension-AllPlain =
    (omega arith, omega arith, (λ h. ground (arith, h)), (λ h. ground (arith, h)), tt)

fat12_convert_dos_to_c_filename-c_to_dos_example :
    fat12_convert_dos_to_c_filename (fat12_convert_c_to_dos_filename (joined base extension)).0
    ≡ joined base extension
fat12_convert_dos_to_c_filename-c_to_dos_example =
    fat12_convert_dos_to_c_filename-c_to_dos base extension base-AllPlain extension-AllPlain
      (omega arith) (omega arith) (omega arith)

-- A boot sector of 512 bytes a sector, and a table of one sector.
abbrev boot : List ℕ
boot = replicate 12 0 ++ (2 ∷ replicate 9 0 ++ (1 ∷ 0 ∷ []))

abbrev disk : (offset size : ℕ) → List ℕ
disk offset size = take size (boot ++ replicate size 0)

length-disk : (offset size : ℕ) → length (disk offset size) ≡ size
length-disk offset size = omega (
  arith,
  length-take size (boot ++ replicate size 0),
  length-append boot (replicate size 0),
  length-replicate {A = ℕ} size 0,
)

fat12_mount_fault_example : fat12_mount disk ≡ fault
unfolding read_bpb
fat12_mount_fault_example = fat12_mount_fault disk length-disk refl (omega arith) (omega arith)

abbrev table : List DevFile
table = empty_file 1 ∷ empty_file 2 ∷ []

abbrev hda : Name
hda = b'h' ∷ b'd' ∷ b'a' ∷ []

abbrev table' : List DevFile
table' = elim (devfs_mknod (devfs_root ∷ table) (devfs_mount 9 []) hda fs_blockdevice 3 0) [
  | none ↦ []
  | some nodes ↦ nodes
]

abbrev device_drivers : Drivers
device_drivers = record {
  finddir = λ _. some (devfs_finddir 9 table');
  mount = λ _. none;
  device_get_device = λ major minor. none;
}

abbrev device_slot : MountPoint
device_slot = record {
  enabled = true;
  mount = b'D' ∷ b'E' ∷ b'V' ∷ b'I' ∷ b'C' ∷ b'E' ∷ [];
  system = 0;
  dev = none;
  supernode = some (devfs_mount 9 []);
}

abbrev device_tables : Vfs
device_tables = record { systems = []; mounts = device_slot ∷ [] }
