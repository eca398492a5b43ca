-- ===== src/Fat12/Read.antt =====
-- The bytes of a file: `fat12_read`. The cluster of a file is that where it begins; those behind it are read in the
-- order of the disk.
use cyb_os.Prelude.{
  ℕ, zero, suc, ◌+◌, ◌-◌, ◌*◌, ◌/◌, ◌%◌, ◌^◌, List, ◌++◌, none, some, length, take, drop, ltb, ◌==◌,
  if◌then◌else◌,
}
use cyb_os.Prelude.Run.{ok, fault, panic, out_of_fuel, Cmd, pure, ◌>>◌, return}
use cyb_os.Vfs.Types.{Node}
use cyb_os.Fat12.Info.{FatInfo}
use cyb_os.Fat12.Directory.{skip_clusters}

module _ (disk : (offset size : ℕ) → List ℕ) (info : FatInfo) where
  -- A read of the device to place `position` of the buffer.
  unfoldable pub read_to : (disk_offset size position : ℕ) → Cmd (List ℕ) (Unit {0})
  read_to disk_offset size position buffer =
      if ltb (length buffer) (position + size)
      then fault
      else ok tt (
          take position buffer
          ++ (disk (disk_offset % 2 ^ 32) size ++ drop (position + size) buffer))

  -- The loop over whole clusters and the rest behind them. `count` falls by 512 a round.
  unfoldable pub read_blocks : ℕ → (disk_offset count position : ℕ) → Cmd (List ℕ) (Unit {0})
  unfolding read_to
  read_blocks zero disk_offset count position = λ _. out_of_fuel
  read_blocks (suc fuel) disk_offset count position =
      let rest = read_blocks fuel (disk_offset + 512) (count - 512) (position + 512) in
      if ltb 512 count
      then (do read_to disk_offset 512 position; rest)
      else if ltb 0 count
      then read_to disk_offset count position
      else return

  -- The first cluster from `cluster_offset` on, then the others; `count` is what the caller asked for.
  unfoldable pub read_from : (disk_offset cluster_offset count : ℕ) → Cmd (List ℕ) (Unit {0})
  unfolding read_blocks read_to
  read_from disk_offset cluster_offset count =
      let tmp = 512 - cluster_offset in
      if ltb 0 cluster_offset
      then (do
        read_to (disk_offset + 512 - tmp) tmp 0
        read_blocks (count + 1) (disk_offset + 512) (count - tmp) tmp)
      else read_blocks (count + 1) disk_offset count 0

  unfoldable pub fat12_read : Node → (offset size : ℕ) → Cmd (List ℕ) ℕ
  unfolding read_from
  fat12_read node offset count =
      let size =
        if ltb node.length ((offset + count) % 2 ^ 32) then node.length - offset else count in
      let cluster_size = info.bpb.sectors_per_cluster * info.bpb.bytes_per_sector in
      let cluster_offset = offset % 512 in
      if count == 0
      then pure 0
      else if ltb node.length offset
      then pure 0
      else if cluster_size == 512
      then elim (skip_clusters disk info (offset / 512) (node.inode_nr % 2 ^ 16)) [
        | none ↦ λ _. fault
        | some cluster ↦
            let disk_offset = (info.data_offset + cluster) % 2 ^ 32 * 512 % 2 ^ 32 in
            if ltb (size + cluster_offset) 512
            then (do read_to (disk_offset + cluster_offset) size 0; pure size)
            else (do read_from disk_offset cluster_offset count; pure size)
      ]
      else λ _. panic
