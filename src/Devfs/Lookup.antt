-- ===== src/Devfs/Lookup.antt =====
-- A device that is registered is found by its path.
use cyb_os.Prelude.{ℕ, ◌%◌, ◌≡◌, [], ◌∷◌, Option, some}
use cyb_os.Vfs.Types.{Name, Vfs}
use cyb_os.Devfs.{DevFile, devfs_type_block_dev}

-- An entry for a block device of these numbers.
record IsBlockDev (file : DevFile) (name : Name) (major_node minor_node : ℕ) : Type 0 where
  type : file.type ≡ devfs_type_block_dev
  name_of : file.name ≡ name
  major_num : file.major_num ≡ major_node % 256
  minor_num : file.minor_num ≡ minor_node % 256

-- The entry that the search finds.
record Found (name : Name) (major_node minor_node : ℕ) (found : Option (ℕ × DevFile)) : Type 0 where
  index : ℕ
  file : DevFile
  at : found ≡ some (index, file)
  is_dev : IsBlockDev file name major_node minor_node

abbrev device_mount : Name
device_mount = b'D' ∷ b'E' ∷ b'V' ∷ b'I' ∷ b'C' ∷ b'E' ∷ []
