-- ===== src/Tests/Files.antt =====
-- The theorems on the virtual file system, at one file system with one mount.
use cyb_os.Prelude.{
  ℕ, ◌≡◌, refl, true, false, [], ◌∷◌, arith, ◌==◌, if◌then◌else◌, Option, some, none,
}
use cyb_os.Prelude.Run.{ok, fault}
use cyb_os.Klib.Text.{strcmp}
use cyb_os.Vfs.Types.{Name, Node, Info, Vfs, Drivers, free_system, free_mount}
use cyb_os.Vfs.Registry.{vfs_get_vfs_system}
use cyb_os.Vfs.Lookup.{find_mount, vfs_get_node_from_path}
use cyb_os.Vfs.Lookup.Path.{is_cut, vfs_get_node_from_path_total}
use cyb_os.Vfs.Mount.{find_slot, sys_mount, count_mount, change_mount}
use cyb_os.Vfs.Mount.Table.{filled}
use cyb_os.Vfs.Mount.Outcome.{sys_mount-remount_fault}

-- A directory, and a file under `b`.
abbrev node : (inode_nr flags mount : ℕ) → Node
node inode_nr flags mount = record {
  inode_nr = inode_nr;
  name = [];
  owner = 0;
  length = 0;
  flags = flags;
  major_num = 0;
  minor_num = 0;
  fileops = 1;
  mount = mount;
}

abbrev find : Node → Name → Node → Option Node
find dir name target = if strcmp name (b'b' ∷ []) == 0 then some (node 5 1 dir.mount) else none

-- It mounts on the path `/` and on no other one.
abbrev drivers : Drivers
drivers = record {
  finddir = λ _. some find;
  mount = λ _. some (λ dev path. if strcmp path (b'/' ∷ []) == 0 then some (node 2 2 0) else none);
  device_get_device = λ major minor. none;
}

abbrev dev_fs : Info
dev_fs = record { tag = b'd' ∷ []; title = []; mountops = 1 }

abbrev tables : Vfs
tables = record {
  systems = record { enabled = true; info = dev_fs; mount_count = 1 } ∷ free_system ∷ [];
  mounts =
      record {
        enabled = true;
        mount = b'D' ∷ [];
        system = 0;
        dev = none;
        supernode = some (node 2 2 0);
      }
      ∷ free_mount
      ∷ [];
}

vfs_get_node_from_path_total_example :
    is_cut (vfs_get_node_from_path drivers 5 (node 0 0 0) (b'D' ∷ b':' ∷ b'/' ∷ b'/' ∷ []) tables)
    ≡ false
vfs_get_node_from_path_total_example =
    vfs_get_node_from_path_total drivers 5 (node 0 0 0) (b'D' ∷ b':' ∷ b'/' ∷ b'/' ∷ []) tables
      (omega arith)

sys_mount-remount_fault_example :
    let v' = record tables {
      systems = count_mount 0 tables.systems;
      mounts = change_mount 0 (filled 0 none (b'D' ∷ []) none) tables.mounts;
    } in
    (sys_mount drivers 9 (node 0 0 0) none (b'd' ∷ []) (b'D' ∷ []) (b'x' ∷ []) 1 tables
      ≡ ok false v')
    × (vfs_get_node_from_path drivers 9 (node 0 0 0) (b'D' ∷ b':' ∷ b'/' ∷ b'b' ∷ []) v' ≡ fault)
unfolding strcmp find_mount find_slot vfs_get_vfs_system
sys_mount-remount_fault_example =
    sys_mount-remount_fault drivers 9 9 (node 0 0 0) (b'd' ∷ []) (b'D' ∷ []) (b'x' ∷ []) (b'b' ∷ [])
      1 tables 0 0 (record { enabled = true; info = dev_fs; mount_count = 1 })
      (λ dev path. if strcmp path (b'/' ∷ []) == 0 then some (node 2 2 0) else none)
      (record {
        enabled = true;
        mount = b'D' ∷ [];
        system = 0;
        dev = none;
        supernode = some (node 2 2 0);
      })
      refl refl refl refl refl refl refl refl refl refl (refl, tt)
