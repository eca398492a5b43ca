-- ===== src/Cybfs.antt =====
-- The file system in memory: cybfs.c.
pub mod Layout
pub mod Slice
use cyb_os.Prelude.{
  ℕ, zero, suc, ◌+◌, ◌-◌, ◌%◌, ◌^◌, List, [], ◌∷◌, ◌++◌, Option, none, some, get_elem?, length,
  take, drop, ltb, ◌==◌, if◌then◌else◌,
}
use cyb_os.Prelude.Run.{ok, fault, Cmd}
use cyb_os.Klib.Text.{strcmp}
use cyb_os.Vfs.Types.{Name, Node, fs_directory, fs_blockdevice}
use cyb_os.Vfs.Dispatch.{fs_file}
use cyb_os.Devfs.{fs_chardevice}
use cyb_os.Cybfs.Layout.{
  CybFile, cybfs_default_layout, cybfs_type_file, cybfs_type_directory, cybfs_type_block_dev,
  cybfs_type_char_dev,
}

-- The slots from `i` on that no file of the layout takes: the loop of `cybfs_init` sets number and type, and leaves the rest.
unfoldable pub clear_slots : (i : ℕ) → List CybFile → List CybFile
clear_slots i [] = []
clear_slots i (slot ∷ slots) =
    record slot { inode_nr = i % 256; type = 0 } ∷ clear_slots (i + 1) slots

-- `cybfs_nodes`. The array has 255 entries and the loops run over 256: the last one is the memory behind it.
unfoldable pub cybfs_init : List CybFile → List CybFile
unfolding clear_slots
cybfs_init slots = cybfs_default_layout ++ drop (length cybfs_default_layout) (clear_slots 0 slots)

-- The count, with the buffer that `memcpy` has written to. Bytes past the file's memory or the buffer are a fault.
-- The sum of `offset` and `size` has 32 bits.
unfoldable pub read_file : CybFile → (offset size : ℕ) → Cmd (List ℕ) ℕ
read_file file offset size buffer =
    let count = if ltb file.length ((offset + size) % 2 ^ 32) then file.length - offset else size in
    let bytes = take count (drop offset file.data_bytes) in
    if ltb file.length offset
    then ok 0 buffer
    else if ltb (length file.data_bytes) (offset + count)
    then fault
    else if ltb (length buffer) count
    then fault
    else ok count (bytes ++ drop count buffer)

unfoldable pub read_slot : Option CybFile → (offset size : ℕ) → Cmd (List ℕ) ℕ
unfolding read_file
read_slot none offset size buffer = fault
read_slot (some file) offset size buffer = read_file file offset size buffer

-- A number that is no index of the table is a fault.
unfoldable pub cybfs_read : List CybFile → Node → (offset size : ℕ) → Cmd (List ℕ) ℕ
unfolding read_slot
cybfs_read nodes node offset size buffer =
    read_slot (get_elem? nodes node.inode_nr) offset size buffer

-- The entries from `i` on: the `index`th of a directory. `index` is a `Uint32`.
unfoldable pub nth_file : (parent index i : ℕ) → List CybFile → Option (Name × ℕ)
nth_file parent index i [] = none
nth_file parent index i (file ∷ nodes) =
    let less = (index + (2 ^ 32 - 1)) % 2 ^ 32 in
    let skipped = nth_file parent index (i + 1) nodes in
    let passed = nth_file parent less (i + 1) nodes in
    if file.type == 0
    then skipped
    else if file.parent_inode_nr == parent
    then if less == 0 then some (file.name, less) else passed
    else skipped

-- The name and the number of the entry. The number is that of the count, which is 0 by then.
unfoldable pub cybfs_readdir : List CybFile → Node → (index : ℕ) → Option (Name × ℕ)
unfolding nth_file
cybfs_readdir [] dirnode index = none
cybfs_readdir (root ∷ nodes) dirnode index =
    nth_file dirnode.inode_nr ((index + 1) % 2 ^ 32) 1 nodes

-- The entries from `i` on: the first one of this name in a directory.
unfoldable pub find_file : (parent i : ℕ) → Name → List CybFile → Option (ℕ × CybFile)
find_file parent i name [] = none
find_file parent i name (file ∷ nodes) =
    let rest = find_file parent (i + 1) name nodes in
    if file.type == 0
    then rest
    else if file.parent_inode_nr == parent
    then if strcmp file.name name == 0 then some (i, file) else rest
    else rest

-- The flags of a node of this type; of another type they stay what they were.
unfoldable pub cyb_flags : (type flags : ℕ) → ℕ
cyb_flags type flags =
    if type == cybfs_type_file
    then fs_file
    else if type == cybfs_type_directory
    then fs_directory
    else if type == cybfs_type_block_dev
    then fs_blockdevice
    else if type == cybfs_type_char_dev
    then fs_chardevice
    else flags

-- `fileops` is the address of `cybfs_fileops`, and `last` what `cybfs_fd_node` holds before the call.
module _ (fileops : ℕ) where
  unfoldable pub cyb_node : (last : Node) → ℕ × CybFile → Node
  unfolding cyb_flags
  cyb_node last (index, file) = record last {
    inode_nr = index;
    name = file.name;
    owner = 0;
    length = file.length;
    major_num = file.device_major_num;
    minor_num = file.device_minor_num;
    flags = cyb_flags file.type last.flags;
    fileops = fileops;
  }

  -- `none` is NULL, also for a directory whose number is no index of the table: what is found then hangs on the memory
  -- behind it.
  unfoldable pub cybfs_finddir : List CybFile → (last : Node) → Node → Name → Option Node
  unfolding find_file cyb_node
  cybfs_finddir [] last dirnode name = none
  cybfs_finddir (root ∷ nodes) last dirnode name =
      elim (get_elem? (root ∷ nodes) dirnode.inode_nr) [
        | none ↦ none
        | some dir ↦ elim (find_file dir.inode_nr 1 name nodes) [
          | none ↦ none
          | some found ↦ some (cyb_node last found)
        ]
      ]

  -- `cybfs_supernode`, for a mount on any path.
  unfoldable pub cybfs_mount : Name → Node
  cybfs_mount path = record {
    inode_nr = 0;
    name = b'/' ∷ [];
    owner = 0;
    length = 0;
    flags = fs_directory;
    major_num = 0;
    minor_num = 0;
    fileops = fileops;
    mount = 0;
  }
