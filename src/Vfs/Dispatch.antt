-- ===== src/Vfs/Dispatch.antt =====
-- The calls of vfs.c that hand over to the file system of a node.
use cyb_os.Prelude.{ℕ, List, [], Option, none, some, ◌==◌, if◌then◌else◌}
use cyb_os.Vfs.Types.{Name, Node, kind, fs_directory}

abbrev pub fs_file : ℕ
fs_file = 1

-- `struct vfs_fileops`: what each function does to the state `S` of the file systems, `none` for NULL. A read gives the
-- count that it returns and the bytes of the buffer.
pub record FileOps (S : Type 0) : Type 0 where
  pub read : Option (Node → (offset size : ℕ) → S → (ℕ × List ℕ) × S)
  pub write : Option (Node → (offset size : ℕ) → List ℕ → S → ℕ × S)
  pub open_node : Option (Node → S → S)
  pub close_node : Option (Node → S → S)
  pub readdir : Option (Node → (index : ℕ) → S → Option Name × S)
  pub mknod : Option (Node → Name → (device_type major_node minor_node : ℕ) → S → S)

-- `node->fileops` is an address.
module _ {S : Type 0} (ops : ℕ → FileOps S) where
  unfoldable pub vfs_read : Node → (offset size : ℕ) → S → (ℕ × List ℕ) × S
  vfs_read node offset size s =
      if kind node == fs_file
      then if node.fileops == 0 then ((0, []), s) else elim (ops node.fileops).read [
        | none ↦ ((0, []), s)
        | some read ↦ read node offset size s
      ]
      else ((0, []), s)

  unfoldable pub vfs_write : Node → (offset size : ℕ) → List ℕ → S → ℕ × S
  vfs_write node offset size buffer s =
      if node.fileops == 0 then (0, s) else elim (ops node.fileops).write [
        | none ↦ (0, s)
        | some write ↦ write node offset size buffer s
      ]

  unfoldable pub vfs_open : Node → S → S
  vfs_open node s =
      if node.fileops == 0
      then s
      else elim (ops node.fileops).open_node [ none ↦ s | some open_node ↦ open_node node s ]

  unfoldable pub vfs_close : Node → S → S
  vfs_close node s =
      if node.fileops == 0
      then s
      else elim (ops node.fileops).close_node [ none ↦ s | some close_node ↦ close_node node s ]

  -- The entry that the call leaves in `target_dirent`, `none` where it returns 0.
  unfoldable pub vfs_readdir : Node → (index : ℕ) → S → Option Name × S
  vfs_readdir node index s =
      if kind node == fs_directory
      then if node.fileops == 0 then (none, s) else elim (ops node.fileops).readdir [
        | none ↦ (none, s)
        | some readdir ↦ readdir node index s
      ]
      else (none, s)

  unfoldable pub vfs_mknod : Node → Name → (device_type major_node minor_node : ℕ) → S → S
  vfs_mknod node name device_type major_node minor_node s =
      if kind node == fs_directory
      then if node.fileops == 0 then s else elim (ops node.fileops).mknod [
        | none ↦ s
        | some mknod ↦ mknod node name device_type major_node minor_node s
      ]
      else s
