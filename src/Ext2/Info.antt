-- ===== src/Ext2/Info.antt =====
-- The superblock, blocks and inodes.
use cyb_os.Prelude.{
  ℕ, ◌+◌, ◌-◌, ◌*◌, ◌/◌, ◌%◌, ◌^◌, ◌||◌, List, [], ◌∷◌, Option, none, some, length, drop, ltb, ◌==◌,
  if◌then◌else◌,
}
use cyb_os.Prelude.Run.{Run, ok, fault, panic, out_of_fuel}
use cyb_os.Vfs.Types.{Node}
use cyb_os.Fat12.Info.{byte2, byte4}

-- `ext2_superblock_t`: the fields that are read.
pub record Superblock : Type 0 where
  pub inode_count : ℕ
  pub first_data_block : ℕ
  pub block_size_log2 : ℕ
  pub inodes_in_group_count : ℕ
  pub filesystem_state : ℕ
  pub error_handling : ℕ

-- `ext2_inode_t`: the fields that are read.
pub record Inode : Type 0 where
  pub type_and_permissions : ℕ
  pub uid : ℕ
  pub size_low : ℕ
  pub direct_pointer_block : List ℕ

-- `ext2_info_t`. The block of descriptors is kept as its bytes.
pub record Ext2 : Type 0 where
  pub superblock : Superblock
  pub block_descriptor : List ℕ
  pub block_size : ℕ
  pub group_count : ℕ
  pub sectors_per_block : ℕ
  pub first_group_start : ℕ
  pub group_descriptor_count : ℕ

unfoldable pub superblock_at : List ℕ → Superblock
superblock_at bytes = record {
  inode_count = byte4 bytes 0;
  first_data_block = byte4 bytes 20;
  block_size_log2 = byte4 bytes 24;
  inodes_in_group_count = byte4 bytes 40;
  filesystem_state = byte2 bytes 58;
  error_handling = byte2 bytes 60;
}

-- Twelve numbers of blocks.
abbrev pub pointers_at : List ℕ → List ℕ
pointers_at b =
    byte4 b 40
    ∷ byte4 b 44
    ∷ byte4 b 48
    ∷ byte4 b 52
    ∷ byte4 b 56
    ∷ byte4 b 60
    ∷ byte4 b 64
    ∷ byte4 b 68
    ∷ byte4 b 72
    ∷ byte4 b 76
    ∷ byte4 b 80
    ∷ byte4 b 84
    ∷ []

unfoldable pub inode_at : List ℕ → Inode
inode_at bytes = record {
  type_and_permissions = byte2 bytes 0;
  uid = byte2 bytes 2;
  size_low = byte4 bytes 4;
  direct_pointer_block = pointers_at bytes;
}

abbrev pub ext2_root_ino : ℕ
ext2_root_ino = 2

-- The values that `ext2_mount` works out; the shift and the sums are of 32 bits.
unfoldable pub ext2_info : Superblock → (block_descriptor : List ℕ) → Ext2
ext2_info superblock block_descriptor =
    let block_size = 1024 * 2 ^ superblock.block_size_log2 % 2 ^ 32 in
    let group_descriptor_count = (superblock.first_data_block + 1) % 2 ^ 32 in
    record {
      superblock = superblock;
      block_descriptor = block_descriptor;
      block_size = block_size;
      group_count = superblock.inode_count / superblock.inodes_in_group_count;
      sectors_per_block = block_size / 512;
      first_group_start = (group_descriptor_count + block_size / 512) % 2 ^ 32;
      group_descriptor_count = group_descriptor_count;
    }

-- `disk` is what the device reads: the bytes at an offset, as many as are asked for or fewer.
module _ (disk : (offset size : ℕ) → List ℕ) where
  -- `none` is NULL: the read was short.
  unfoldable pub ext2_allocate_and_read_offset : (offset size : ℕ) → Option (List ℕ)
  ext2_allocate_and_read_offset offset size =
      let buffer = disk offset size in if length buffer == size then some buffer else none

  module _ (info : Ext2) where
    unfoldable pub ext2_block2diskoffset : ℕ → ℕ
    ext2_block2diskoffset ext2_block = ext2_block * info.sectors_per_block * 512 % 2 ^ 32

    -- The bytes that the buffer gets, or `none` for a short read.
    unfoldable pub ext2_read_block : (block_num block_count : ℕ) → Option (List ℕ)
    unfolding ext2_block2diskoffset
    ext2_read_block block_num block_count =
        let size = block_count * info.block_size % 2 ^ 32 in
        let buffer = disk (ext2_block2diskoffset block_num) size in
        if length buffer == size then some buffer else none

    unfoldable pub ext2_allocate_and_read_block : (block_num block_count : ℕ) → Option (List ℕ)
    unfolding ext2_read_block
    ext2_allocate_and_read_block block_num block_count = ext2_read_block block_num block_count

    -- `inodeTableStart` of a group; its descriptor has 32 bytes.
    abbrev pub inode_table_start : ℕ → ℕ
    inode_table_start block_group = byte4 (drop (block_group * 32) info.block_descriptor) 8

    -- `none` is NULL. A group without inodes, and blocks of less than 128 bytes, divide by zero.
    unfoldable pub ext2_read_inode : ℕ → Run (Unit {0}) (Option Inode)
    unfolding ext2_allocate_and_read_block inode_at
    ext2_read_inode inode_nr =
        let in_group = info.superblock.inodes_in_group_count in
        let block_group = (inode_nr - 1) / in_group in
        let inodes_per_block = info.block_size / 128 in
        let block_offset = (inode_nr - 1) % in_group / inodes_per_block in
        let inode_block = (inode_table_start block_group + block_offset) % 2 ^ 32 in
        let inode_index = (inode_nr - 1) % in_group % inodes_per_block * 128 in
        if inode_nr == 0 || ltb info.superblock.inode_count inode_nr
        then ok none tt
        else if in_group == 0
        then fault
        else if ltb info.group_descriptor_count block_group
        then ok none tt
        else if inodes_per_block == 0
        then fault
        else elim (ext2_allocate_and_read_block inode_block 1) [
          | none ↦ ok none tt
          | some data_block ↦ ok (some (inode_at (drop inode_index data_block))) tt
        ]

  -- The size of the block of descriptors is that of the file system, which begins at block 2.
  unfoldable pub with_descriptors :
      Superblock → (fileops mount : ℕ) → Run (Unit {0}) (Option (Ext2 × Node))
  unfolding ext2_info ext2_allocate_and_read_offset ext2_read_inode
  with_descriptors superblock fileops mount =
      let block_size = (ext2_info superblock []).block_size in
      elim (ext2_allocate_and_read_offset (2 * block_size % 2 ^ 32) block_size) [
        | none ↦ ok none tt
        | some block_descriptor ↦
            let info = ext2_info superblock block_descriptor in
            elim (ext2_read_inode info ext2_root_ino) [
              | ok none s ↦ fault
              | ok (some inode) s ↦
                  ok
                    (some (
                      info,
                      record {
                        inode_nr = ext2_root_ino;
                        name = b'/' ∷ [];
                        owner = 0;
                        length = inode.size_low;
                        flags = 2;
                        major_num = 0;
                        minor_num = 0;
                        fileops = fileops;
                        mount = mount;
                      },
                    ))
                    tt
              | fault ↦ fault
              | panic ↦ panic
              | out_of_fuel ↦ out_of_fuel
            ]
      ]

  -- `fs_data` of the mount and the supernode, or `none` where it fails. `fileops` and `mount` are addresses.
  unfoldable pub ext2_mount : (fileops mount : ℕ) → Run (Unit {0}) (Option (Ext2 × Node))
  unfolding with_descriptors superblock_at ext2_allocate_and_read_offset
  ext2_mount fileops mount = elim (ext2_allocate_and_read_offset 1024 1024) [
    | none ↦ ok none tt
    | some bytes ↦
        let superblock = superblock_at bytes in
        if superblock.filesystem_state == 2
        then if superblock.error_handling == 1
          then if superblock.inodes_in_group_count == 0
            then fault
            else with_descriptors superblock fileops mount
          else panic
        else if superblock.inodes_in_group_count == 0
        then fault
        else with_descriptors superblock fileops mount
  ]
