-- ===== src/Vfs/Types.antt =====
-- The records of vfs.h, the two tables of vfs.c, and what the VFS calls of the file systems.
use Prim.Native.Nat.{bit_and}
use cyb_os.Prelude.{ℕ, Bool, false, List, Option, none, replicate, []}

abbrev pub Name : Type 0
Name = List ℕ

abbrev pub fs_directory : ℕ
fs_directory = 2

abbrev pub fs_blockdevice : ℕ
fs_blockdevice = 4

abbrev pub vfs_max_filesystems : ℕ
vfs_max_filesystems = 100

abbrev pub vfs_max_mounts : ℕ
vfs_max_mounts = 255

-- `vfs_node_t`. `fileops` and `mount` are addresses, 0 is NULL.
pub record Node : Type 0 where
  pub inode_nr : ℕ
  pub name : Name
  pub owner : ℕ
  pub length : ℕ
  pub flags : ℕ
  pub major_num : ℕ
  pub minor_num : ℕ
  pub fileops : ℕ
  pub mount : ℕ

-- `node->flags & 0x7`
abbrev pub kind : Node → ℕ
kind node = bit_and node.flags 7

-- `vfs_info_t`; `mountops` is an address.
pub record Info : Type 0 where
  pub tag : Name
  pub title : Name
  pub mountops : ℕ

-- `vfs_system_t`
pub record System : Type 0 where
  pub enabled : Bool
  pub info : Info
  pub mount_count : ℕ

-- `vfs_mount_t`. `system` is an index of `vfs_systems`, `dev` a device or NULL.
pub record MountPoint : Type 0 where
  pub enabled : Bool
  pub mount : Name
  pub system : ℕ
  pub dev : Option ℕ
  pub supernode : Option Node

pub record Vfs : Type 0 where
  pub systems : List System
  pub mounts : List MountPoint

-- What the pointers to functions lead to: `none` is NULL. `finddir` gets what the target node holds
-- before the call, since a file system writes some of its fields only. `device_get_device` is
-- that of device.c.
pub record Drivers : Type 0 where
  pub finddir : ℕ → Option (Node → Name → Node → Option Node)
  pub mount : ℕ → Option (Option ℕ → Name → Option Node)
  pub device_get_device : ℕ → ℕ → Option ℕ

abbrev pub free_system : System
free_system = record {
  enabled = false;
  info = record { tag = []; title = []; mountops = 0 };
  mount_count = 0;
}

abbrev pub free_mount : MountPoint
free_mount = record { enabled = false; mount = []; system = 0; dev = none; supernode = none }

unfoldable pub vfs_init : Vfs
vfs_init = record {
  systems = replicate vfs_max_filesystems free_system;
  mounts = replicate vfs_max_mounts free_mount;
}
