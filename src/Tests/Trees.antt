-- ===== src/Tests/Trees.antt =====
-- The theorems on ext2 and on CybFS.
use cyb_os.Prelude.{ℕ, ◌≡◌, ◌++◌, refl, arith, List, [], ◌∷◌, some, replicate, take, drop}
use cyb_os.Prelude.Run.{ok}
use cyb_os.Ext2.Directory.{DirEntry, nth_dir_entry}
use cyb_os.Ext2.Entries.{AreEntries, write_entries, nth_dir_entry-write}
use cyb_os.Cybfs.Layout.{CybFile, helloworlddata, cybfs_type_file}
use cyb_os.Cybfs.{cybfs_read, cybfs_mount}
use cyb_os.Cybfs.Slice.{cybfs_read-slice}

abbrev entries : List (ℕ × List ℕ × List ℕ)
entries = (2, b'.' ∷ [], 0 ∷ 0 ∷ 0 ∷ []) ∷ (11, b'l' ∷ b's' ∷ [], 0 ∷ 0 ∷ []) ∷ []

entries-AreEntries : AreEntries entries
unfolding AreEntries
entries-AreEntries = (
  omega arith,
  omega arith,
  omega arith,
  omega arith,
  (omega arith, omega arith, omega arith, omega arith, tt),
)

nth_dir_entry-write_example :
    (e : DirEntry) × (nth_dir_entry 1 (write_entries entries) ≡ ok (some e) tt)
    × (e.inode_nr ≡ 11)
    × (e.name ≡ b'l' ∷ b's' ∷ [])
    × (e.name_len ≡ 2)
nth_dir_entry-write_example =
    nth_dir_entry-write entries 1 11 (b'l' ∷ b's' ∷ []) (0 ∷ 0 ∷ []) entries-AreEntries refl

abbrev hello : CybFile
hello = record {
  inode_nr = 0;
  parent_inode_nr = 0;
  name = b'h' ∷ [];
  type = cybfs_type_file;
  device_major_num = 0;
  device_minor_num = 0;
  length = 12;
  data_bytes = helloworlddata;
}

-- Ten bytes from the sixth on: the file has seven of them.
cybfs_read-slice_example :
    cybfs_read (hello ∷ []) (cybfs_mount 9 []) 5 10 (replicate 16 0)
    ≡ ok 7 (take 7 (drop 5 helloworlddata) ++ replicate 9 0)
unfolding cybfs_mount
cybfs_read-slice_example =
    cybfs_read-slice (hello ∷ []) (cybfs_mount 9 []) 5 10 (replicate 16 0) hello refl (omega arith)
      (omega arith) (omega arith) (omega arith)
