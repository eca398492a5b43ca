-- ===== src/Ext2/Directory.antt =====
-- The directories of an ext2 disk: `ext2_finddir` and `ext2_readdir`.
use Prim.Native.Nat.{bit_and}
use cyb_os.Prelude.{
  ℕ, zero, suc, ◌/◌, ◌%◌, ◌^◌, Bool, ◌&&◌, not, List, [], ◌∷◌, ◌++◌, Option, none, some, get_or,
  length, take, drop, ltb, ◌==◌, if◌then◌else◌,
}
use cyb_os.Prelude.Run.{Run, ok, fault, panic, out_of_fuel}
use cyb_os.Klib.Text.{strlen, strncmp, strncpy}
use cyb_os.Vfs.Types.{Name, Node, kind, fs_directory}
use cyb_os.Vfs.Dispatch.{fs_file}
use cyb_os.Fat12.Info.{byte2, byte4}
use cyb_os.Ext2.Info.{Inode, Ext2, ext2_read_block, ext2_read_inode}

-- `ext2_dir_t`
pub record DirEntry : Type 0 where
  pub inode_nr : ℕ
  pub rec_len : ℕ
  pub name_len : ℕ
  pub name : List ℕ

-- The entry at a place of the buffer; `none` for a place behind what was read.
unfoldable pub entry_at : List ℕ → Option DirEntry
entry_at bytes =
    if ltb (length bytes) 8
    then none
    else some (record {
      inode_nr = byte4 bytes 0;
      rec_len = byte2 bytes 4;
      name_len = get_or bytes 6 0;
      name = take (get_or bytes 6 0) (drop 8 bytes);
    })

-- The condition of the search: the entry is passed when it is none of the last, has another length and does not begin
-- the name.
unfoldable pub passed_over : Name → DirEntry → Bool
passed_over name entry =
    not (entry.name_len == strlen name % 256) && not (strncmp name entry.name entry.name_len == 0)

-- The search through the entries. An entry of length 0 is looked at for ever.
unfoldable pub search_entries : ℕ → Name → List ℕ → Run (Unit {0}) (Option DirEntry)
unfolding entry_at passed_over
search_entries zero name bytes = out_of_fuel
search_entries (suc fuel) name bytes = elim (entry_at bytes) [
  | none ↦ fault
  | some entry ↦
      let rest = search_entries fuel name (drop entry.rec_len bytes) in
      if entry.inode_nr == 0
      then ok none tt
      else if passed_over name entry
      then rest
      else ok (some entry) tt
]

-- What is done with an entry that is not the last.
unfoldable pub at_entry :
    Option DirEntry
    → (DirEntry → Run (Unit {0}) (Option DirEntry))
    → Run (Unit {0}) (Option DirEntry)
at_entry none go_on = fault
at_entry (some entry) go_on = if entry.inode_nr == 0 then ok none tt else go_on entry

-- The entry `index` places on. `index` falls, so a round is left for each.
unfoldable pub nth_dir_entry : (index : ℕ) → List ℕ → Run (Unit {0}) (Option DirEntry)
nth_dir_entry zero bytes = at_entry (entry_at bytes) (λ entry. ok (some entry) tt)
nth_dir_entry (suc index) bytes =
    at_entry (entry_at bytes) (λ entry. nth_dir_entry index (drop entry.rec_len bytes))

module _ (disk : (offset size : ℕ) → List ℕ) (info : Ext2) where
  -- The blocks of the directory, `rounds` of them: `none` for a block that cannot be read and for more than twelve.
  unfoldable pub read_blocks_of : (rounds : ℕ) → (pointers : List ℕ) → Option (List ℕ)
  read_blocks_of zero pointers = some []
  read_blocks_of (suc rounds) [] = none
  read_blocks_of (suc rounds) (block ∷ pointers) =
      let rest = read_blocks_of rounds pointers in
      if block == 0 then some [] else elim (ext2_read_block disk info block 1) [
        | none ↦ none
        | some bytes ↦ elim rest [ none ↦ none | some behind ↦ some (bytes ++ behind) ]
      ]

  -- The whole directory. An inode that cannot be read is NULL, and is read through.
  unfoldable pub directory_of : ℕ → Run (Unit {0}) (Option (List ℕ))
  unfolding read_blocks_of
  directory_of inode_nr = elim (ext2_read_inode disk info inode_nr) [
    | ok none s ↦ fault
    | ok (some inode) s ↦
        ok (read_blocks_of (inode.size_low / info.block_size) inode.direct_pointer_block) tt
    | fault ↦ fault
    | panic ↦ panic
    | out_of_fuel ↦ out_of_fuel
  ]

  -- The node of an entry: the directory's node, with the fields of the inode.
  unfoldable pub node_of : Node → DirEntry → Inode → Node
  node_of node entry file_inode = record node {
    inode_nr = entry.inode_nr;
    name = strncpy entry.name entry.name_len;
    owner = file_inode.uid;
    length = file_inode.size_low;
    flags =
        if bit_and file_inode.type_and_permissions (2 ^ 14) == 2 ^ 14
        then fs_directory
        else fs_file;
  }

  unfoldable pub found_node : Node → Option DirEntry → Run (Unit {0}) (Option Node)
  unfolding node_of
  found_node node none = ok none tt
  found_node node (some entry) = elim (ext2_read_inode disk info entry.inode_nr) [
    | ok none s ↦ fault
    | ok (some file_inode) s ↦ ok (some (node_of node entry file_inode)) tt
    | fault ↦ fault
    | panic ↦ panic
    | out_of_fuel ↦ out_of_fuel
  ]

  abbrev pub then_run :
      {A B : Type 0} → Run (Unit {0}) A → (A → Run (Unit {0}) B) → Run (Unit {0}) B
  then_run (ok a s) k = k a
  then_run fault k = fault
  then_run panic k = panic
  then_run out_of_fuel k = out_of_fuel

  -- Blocks of no bytes divide by zero.
  unfoldable pub ext2_finddir : ℕ → Node → Name → Run (Unit {0}) (Option Node)
  unfolding directory_of search_entries found_node
  ext2_finddir fuel node name =
      if kind node == fs_directory
      then if info.block_size == 0
        then fault
        else then_run (directory_of node.inode_nr) (λ buffer. elim buffer [
          | none ↦ ok none tt
          | some bytes ↦ then_run (search_entries fuel name bytes) (found_node node)
        ])
      else ok none tt

  unfoldable pub ext2_readdir : Node → (index : ℕ) → Run (Unit {0}) (Option (Name × ℕ))
  unfolding directory_of nth_dir_entry
  ext2_readdir node index =
      if kind node == fs_directory
      then if info.block_size == 0
        then fault
        else then_run (directory_of node.inode_nr) (λ buffer. elim buffer [
          | none ↦ ok none tt
          | some bytes ↦ then_run (nth_dir_entry index bytes) (λ found. elim found [
            | none ↦ ok none tt
            | some entry ↦ ok (some (strncpy entry.name entry.name_len, entry.inode_nr)) tt
          ])
        ])
      else ok none tt
