-- ===== src/Fat12/Directory.antt =====
-- The directories of a FAT12 disk: `fat12_parse_directory_sector`, `fat12_finddir` and `fat12_readdir`.
use cyb_os.Prelude.{
  ℕ, zero, suc, ◌+◌, ◌*◌, ◌/◌, ◌%◌, ◌^◌, ◌&&◌, List, Option, none, some, get_or, take, drop, ltb,
  leb, ◌==◌, if◌then◌else◌,
}
use cyb_os.Prelude.Run.{Run, ok, fault, out_of_fuel}
use cyb_os.Klib.Text.{strncmp}
use cyb_os.Vfs.Types.{Name, Node, kind, fs_directory}
use cyb_os.Vfs.Dispatch.{fs_file}
use cyb_os.Fat12.Info.{FatInfo, byte2, byte4}
use cyb_os.Fat12.Fat.{fat12_get_next_cluster}
use cyb_os.Fat12.Filename.{fat12_convert_dos_to_c_filename, fat12_convert_c_to_dos_filename}

-- `fat12_dirent_t`: the eleven bytes of `Filename` and `Ext`, and the fields that are read.
pub record Dirent : Type 0 where
  pub filename : List ℕ
  pub attrib : ℕ
  pub first_cluster : ℕ
  pub file_size : ℕ

-- The 32 bytes of an entry.
unfoldable pub dirent_at : List ℕ → Dirent
dirent_at bytes = record {
  filename = take 11 bytes;
  attrib = get_or bytes 11 0;
  first_cluster = byte2 bytes 26;
  file_size = byte4 bytes 28;
}

-- The three results, 0, 1 and 2.
pub data Parsed : Type 0 where
  more : Parsed
  found : Node → Parsed
  no_more : Parsed

-- `filenode`: the directory's node with the fields of the entry.
unfoldable pub file_node : Node → Dirent → Node
file_node node entry = record node {
  inode_nr = entry.first_cluster;
  name = fat12_convert_dos_to_c_filename entry.filename;
  owner = 0;
  length = entry.file_size;
  flags = if entry.attrib == 16 then fs_directory else fs_file;
}

unfoldable pub fat12_parse_directory_sector :
    (entries : ℕ) → (direntbuf : List ℕ) → Node → (dos_name : List ℕ) → Parsed
unfolding dirent_at file_node
fat12_parse_directory_sector zero direntbuf node dos_name = more
fat12_parse_directory_sector (suc entries) direntbuf node dos_name =
    let entry = dirent_at direntbuf in
    let rest = fat12_parse_directory_sector entries (drop 32 direntbuf) node dos_name in
    if get_or direntbuf 0 0 == 0
    then no_more
    else if strncmp dos_name entry.filename 11 == 0
    then found (file_node node entry)
    else rest

-- What the device reads, and what `mount->fs_data` of the node holds.
module _ (disk : (offset size : ℕ) → List ℕ) (info : FatInfo) where
  abbrev pub sector_at : ℕ → List ℕ
  sector_at sector =
      disk (sector % 2 ^ 32 * info.bpb.bytes_per_sector % 2 ^ 32) info.bpb.bytes_per_sector

  -- The sectors of the root directory, from sector `i` on.
  unfoldable pub find_in_root : (rounds i : ℕ) → Node → (dos_name : List ℕ) → Option Node
  unfolding fat12_parse_directory_sector
  find_in_root zero i node dos_name = none
  find_in_root (suc rounds) i node dos_name =
      elim (fat12_parse_directory_sector info.num_root_entries_per_sector
        (sector_at (info.root_offset + i)) node dos_name) [
          | more ↦ find_in_root rounds (i + 1) node dos_name
          | found file ↦ some file
          | no_more ↦ none
        ]

  -- The clusters of another directory. A chain that runs in a circle is read for ever.
  unfoldable pub find_in_clusters :
      ℕ → (cluster : ℕ) → Node → (dos_name : List ℕ) → Run (Unit {0}) (Option Node)
  unfolding fat12_parse_directory_sector
  find_in_clusters zero cluster node dos_name = out_of_fuel
  find_in_clusters (suc fuel) cluster node dos_name =
      elim (fat12_parse_directory_sector info.num_root_entries_per_sector
        (sector_at (info.data_offset + cluster)) node dos_name) [
          | more ↦ elim (fat12_get_next_cluster info.fat cluster) [
            | none ↦ fault
            | some next ↦
                let rest = find_in_clusters fuel next node dos_name in
                if ltb 2 next && leb next 4087 then rest else ok none tt
          ]
          | found file ↦ ok (some file) tt
          | no_more ↦ ok none tt
        ]

  unfoldable pub fat12_finddir : ℕ → Node → Name → Run (Unit {0}) (Option Node)
  unfolding find_in_root find_in_clusters
  fat12_finddir fuel node name =
      let dos_name = (fat12_convert_c_to_dos_filename name).0 in
      if kind node == fs_directory
      then if node.inode_nr == 0
        then ok (find_in_root info.root_size_sectors 0 node dos_name) tt
        else find_in_clusters fuel (node.inode_nr % 2 ^ 16) node dos_name
      else ok none tt

  -- `count` steps along the table.
  unfoldable pub skip_clusters : (count cluster : ℕ) → Option ℕ
  skip_clusters zero cluster = some cluster
  skip_clusters (suc count) cluster = elim (fat12_get_next_cluster info.fat cluster) [
    | none ↦ none
    | some next ↦ skip_clusters count next
  ]

  -- The name and the number of an entry of a sector.
  unfoldable pub entry_in : List ℕ → (index_needed : ℕ) → Option (Name × ℕ)
  unfolding dirent_at
  entry_in direntbuf index_needed =
      let entry = drop (index_needed * 32) direntbuf in
      if get_or entry 0 0 == 0
      then none
      else some (fat12_convert_dos_to_c_filename (take 11 entry), (dirent_at entry).first_cluster)

  -- Sectors of fewer than 32 bytes divide by zero.
  unfoldable pub fat12_readdir : Node → (index : ℕ) → Run (Unit {0}) (Option (Name × ℕ))
  unfolding skip_clusters entry_in
  fat12_readdir node index =
      let dirs_per_sector = info.bpb.bytes_per_sector / 32 in
      let sector_needed = index / dirs_per_sector in
      let index_needed = index % dirs_per_sector in
      if kind node == fs_directory
      then if dirs_per_sector == 0
        then fault
        else if node.inode_nr == 0
        then ok (entry_in (sector_at (info.root_offset + sector_needed)) index_needed) tt
        else elim (skip_clusters sector_needed (node.inode_nr % 2 ^ 16)) [
          | none ↦ fault
          | some cluster ↦ ok (entry_in (sector_at (info.data_offset + cluster)) index_needed) tt
        ]
      else ok none tt
