-- ===== src/Devfs.antt =====
-- The file system of devices: devfs.c.
pub mod Lookup
use Prim.Native.Nat.{bit_and}
use cyb_os.Prelude.{
  ℕ, zero, suc, ◌+◌, ◌-◌, ◌%◌, ◌^◌, Bool, false, ◌&&◌, ◌||◌, List, [], ◌∷◌, Option, none, some,
  get_elem?, length, leb, ◌==◌, if◌then◌else◌,
}
use cyb_os.Klib.Text.{strcmp}
use cyb_os.Vfs.Types.{Name, Node, fs_directory, fs_blockdevice}

abbrev pub fs_chardevice : ℕ
fs_chardevice = 3

abbrev pub devfs_type_directory : ℕ
devfs_type_directory = 2

abbrev pub devfs_type_block_dev : ℕ
devfs_type_block_dev = 3

abbrev pub devfs_type_char_dev : ℕ
devfs_type_char_dev = 4

-- `char name[128]`
abbrev pub devfs_name_bytes : ℕ
devfs_name_bytes = 128

-- `devfs_file_t`
pub record DevFile : Type 0 where
  pub inode_nr : ℕ
  pub parent_inode_nr : ℕ
  pub name : Name
  pub type : ℕ
  pub major_num : ℕ
  pub minor_num : ℕ

abbrev pub devfs_max_files : ℕ
devfs_max_files = 256

abbrev pub empty_file : ℕ → DevFile
empty_file i = record {
  inode_nr = i % 256;
  parent_inode_nr = 0;
  name = [];
  type = 0;
  major_num = 0;
  minor_num = 0;
}

abbrev pub devfs_root : DevFile
devfs_root = record {
  inode_nr = 0;
  parent_inode_nr = 0;
  name = b'd' ∷ b'e' ∷ b'v' ∷ b'f' ∷ b's' ∷ b'-' ∷ b'r' ∷ b'o' ∷ b'o' ∷ b't' ∷ [];
  type = devfs_type_directory;
  major_num = 0;
  minor_num = 0;
}

unfoldable pub empty_files : (count i : ℕ) → List DevFile
empty_files zero i = []
empty_files (suc count) i = empty_file i ∷ empty_files count (i + 1)

-- `devfs_nodes` after `devfs_init`. The array has 255 entries and every loop runs over 256: the last one here is
-- the memory behind the array.
unfoldable pub devfs_init : List DevFile
unfolding empty_files
devfs_init = devfs_root ∷ empty_files (devfs_max_files - 1) 1

-- The entries from `i` on: the `index`th of a directory. `index` is a `Uint32`.
unfoldable pub nth_entry : (parent index i : ℕ) → List DevFile → Option (Name × ℕ)
nth_entry parent index i [] = none
nth_entry parent index i (file ∷ nodes) =
    let less = (index + (2 ^ 32 - 1)) % 2 ^ 32 in
    let skipped = nth_entry parent index (i + 1) nodes in
    let passed = nth_entry parent less (i + 1) nodes in
    if file.type == 0
    then skipped
    else if file.parent_inode_nr == parent
    then if less == 0 then some (file.name, i) else passed
    else skipped

-- The name and the number that `target_dirent` gets, or `none` where it returns 0.
unfoldable pub devfs_readdir : List DevFile → Node → (index : ℕ) → Option (Name × ℕ)
unfolding nth_entry
devfs_readdir [] dirnode index = none
devfs_readdir (root ∷ nodes) dirnode index =
    nth_entry dirnode.inode_nr ((index + 1) % 2 ^ 32) 1 nodes

-- The entries from `i` on: the first one of this name in a directory.
unfoldable pub find_entry : (parent i : ℕ) → Name → List DevFile → Option (ℕ × DevFile)
find_entry parent i name [] = none
find_entry parent i name (file ∷ nodes) =
    let rest = find_entry parent (i + 1) name nodes in
    if file.type == 0
    then rest
    else if file.parent_inode_nr == parent
    then if strcmp file.name name == 0 then some (i, file) else rest
    else rest

-- The flags of a node of this type; of another type they stay what they were.
unfoldable pub flags_of : (type flags : ℕ) → ℕ
flags_of type flags =
    if type == devfs_type_directory
    then fs_directory
    else if type == devfs_type_block_dev
    then fs_blockdevice
    else if type == devfs_type_char_dev
    then fs_chardevice
    else flags

-- `fileops` is the address of `devfs_fileops`.
module _ (fileops : ℕ) where
  unfoldable pub fill_node : Node → ℕ × DevFile → Node
  unfolding flags_of
  fill_node target (index, file) = record target {
    inode_nr = index;
    name = file.name;
    owner = 0;
    length = 0;
    major_num = file.major_num;
    minor_num = file.minor_num;
    flags = flags_of file.type target.flags;
    fileops = fileops;
  }

  unfoldable pub fill_found : Node → Option (ℕ × DevFile) → Option Node
  unfolding fill_node
  fill_found target none = none
  fill_found target (some found) = some (fill_node target found)

  -- `none` where it returns 0, and for a directory whose number is no index of the table: what is found then
  -- hangs on the memory behind it.
  unfoldable pub devfs_finddir : List DevFile → Node → Name → Node → Option Node
  unfolding find_entry fill_found
  devfs_finddir [] dirnode name target = none
  devfs_finddir (root ∷ nodes) dirnode name target =
      elim (get_elem? (root ∷ nodes) dirnode.inode_nr) [
        | none ↦ none
        | some dir ↦ fill_found target (find_entry dir.inode_nr 1 name nodes)
      ]

  -- `devfs_supernode`, for a mount on any path.
  unfoldable pub devfs_mount : Name → Node
  devfs_mount path = record {
    inode_nr = 0;
    name = b'/' ∷ [];
    owner = 0;
    length = 0;
    flags = fs_directory;
    major_num = 0;
    minor_num = 0;
    fileops = fileops;
    mount = 0;
  }

-- The new entry in slot `i`, over what was there.
unfoldable pub new_file :
    DevFile → Node → Name → (i device_type major_node minor_node : ℕ) → DevFile
new_file file node name i device_type major_node minor_node = record {
  inode_nr = i % 256;
  parent_inode_nr = node.inode_nr % 256;
  name = name;
  type =
      if device_type == fs_chardevice
      then devfs_type_char_dev
      else if device_type == fs_blockdevice
      then devfs_type_block_dev
      else file.type;
  major_num = major_node % 256;
  minor_num = minor_node % 256;
}

-- The loop from slot `i` on: the first free one is filled.
unfoldable pub fill_slot_from :
    List DevFile → Node → Name → (i device_type major_node minor_node : ℕ) → List DevFile
unfolding new_file
fill_slot_from [] node name i device_type major_node minor_node = []
fill_slot_from (file ∷ nodes) node name i device_type major_node minor_node =
    let rest = fill_slot_from nodes node name (i + 1) device_type major_node minor_node in
    if file.type == 0
    then new_file file node name i device_type major_node minor_node ∷ nodes
    else file ∷ rest

unfoldable pub some_free : List DevFile → Bool
some_free [] = false
some_free (file ∷ nodes) = file.type == 0 || some_free nodes

-- `none`: the name runs past its 128 bytes, over the entries behind.
unfoldable pub devfs_mknod :
    List DevFile → Node → Name → (device_type major_node minor_node : ℕ) → Option (List DevFile)
unfolding fill_slot_from some_free
devfs_mknod nodes node name device_type major_node minor_node =
    if bit_and node.flags devfs_type_directory == devfs_type_directory
    then if some_free nodes && leb devfs_name_bytes (length name)
      then none
      else some (fill_slot_from nodes node name 0 device_type major_node minor_node)
    else some nodes
