-- ===== src/Cybfs/Layout.antt =====
-- The files of CybFS that come with the kernel: the table of cybfs.c.
use cyb_os.Prelude.{ℕ, List, [], ◌∷◌}
use cyb_os.Vfs.Types.{Name}

abbrev pub cybfs_type_file : ℕ
cybfs_type_file = 1

abbrev pub cybfs_type_directory : ℕ
cybfs_type_directory = 2

abbrev pub cybfs_type_block_dev : ℕ
cybfs_type_block_dev = 3

abbrev pub cybfs_type_char_dev : ℕ
cybfs_type_char_dev = 4

-- `cybfs_file_t`; `data_bytes` is the memory at `data`.
pub record CybFile : Type 0 where
  pub inode_nr : ℕ
  pub parent_inode_nr : ℕ
  pub name : Name
  pub type : ℕ
  pub device_major_num : ℕ
  pub device_minor_num : ℕ
  pub length : ℕ
  pub data_bytes : List ℕ

abbrev file :
    (inode_nr parent_inode_nr : ℕ) → Name → (type major minor length : ℕ) → List ℕ → CybFile
file inode_nr parent_inode_nr name type major minor length data_bytes = record {
  inode_nr = inode_nr;
  parent_inode_nr = parent_inode_nr;
  name = name;
  type = type;
  device_major_num = major;
  device_minor_num = minor;
  length = length;
  data_bytes = data_bytes;
}

abbrev directory : (inode_nr parent_inode_nr : ℕ) → Name → CybFile
directory inode_nr parent_inode_nr name =
    file inode_nr parent_inode_nr name cybfs_type_directory 0 0 0 []

-- A string with its two NULs.
abbrev pub helloworlddata : List ℕ
helloworlddata =
    72 ∷ 101 ∷ 108 ∷ 108 ∷ 111 ∷ 32 ∷ 119 ∷ 111 ∷ 114 ∷ 108 ∷ 100 ∷ 33 ∷ 10 ∷ 84 ∷ 104 ∷ 105 ∷ 115
    ∷ 32 ∷ 102 ∷ 105 ∷ 108 ∷ 101 ∷ 32 ∷ 105 ∷ 115 ∷ 32 ∷ 116 ∷ 104 ∷ 101 ∷ 32 ∷ 102 ∷ 105 ∷ 114
    ∷ 115 ∷ 116 ∷ 32 ∷ 114 ∷ 101 ∷ 97 ∷ 100 ∷ 97 ∷ 98 ∷ 108 ∷ 101 ∷ 32 ∷ 102 ∷ 105 ∷ 108 ∷ 101 ∷ 32
    ∷ 102 ∷ 114 ∷ 111 ∷ 109 ∷ 32 ∷ 67 ∷ 121 ∷ 98 ∷ 79 ∷ 83 ∷ 33 ∷ 10 ∷ 10 ∷ 72 ∷ 97 ∷ 118 ∷ 101 ∷ 32
    ∷ 102 ∷ 117 ∷ 110 ∷ 33 ∷ 10 ∷ 0 ∷ 0 ∷ []

abbrev pub cybfs_default_layout : List CybFile
cybfs_default_layout =
    file 0 0 (b'c' ∷ b'y' ∷ b'b' ∷ b'f' ∷ b's' ∷ b'-' ∷ b'r' ∷ b'o' ∷ b'o' ∷ b't' ∷ []) 0 0 0 0 []
    ∷ directory 1 0 (b'S' ∷ b'Y' ∷ b'S' ∷ b'T' ∷ b'E' ∷ b'M' ∷ [])
    ∷ directory 2 1 (b'.' ∷ [])
    ∷ directory 3 1 (b'.' ∷ b'.' ∷ [])
    ∷ directory 4 0 (b'P' ∷ b'R' ∷ b'O' ∷ b'G' ∷ b'R' ∷ b'A' ∷ b'M' ∷ [])
    ∷ directory 5 4 (b'.' ∷ [])
    ∷ directory 6 4 (b'.' ∷ b'.' ∷ [])
    ∷ directory 7 0 (b'D' ∷ b'E' ∷ b'V' ∷ b'I' ∷ b'C' ∷ b'E' ∷ [])
    ∷ directory 8 7 (b'.' ∷ [])
    ∷ directory 9 7 (b'.' ∷ b'.' ∷ [])
    ∷ directory 10 0 (b'I' ∷ b'N' ∷ b'F' ∷ b'O' ∷ [])
    ∷ directory 11 10 (b'.' ∷ [])
    ∷ directory 12 10 (b'.' ∷ b'.' ∷ [])
    ∷ directory 13 0 (b'U' ∷ b'S' ∷ b'E' ∷ b'R' ∷ [])
    ∷ directory 14 13 (b'.' ∷ [])
    ∷ directory 15 13 (b'.' ∷ b'.' ∷ [])
    ∷ file 16 1 (b'k' ∷ b'e' ∷ b'r' ∷ b'n' ∷ b'e' ∷ b'l' ∷ b'.' ∷ b'b' ∷ b'i' ∷ b'n' ∷ [])
        cybfs_type_file 0 0 0 []
    ∷ file 17 1
        (b'b' ∷ b'o' ∷ b'o' ∷ b't' ∷ b'l' ∷ b'v' ∷ b'l' ∷ b'1' ∷ b'.' ∷ b'b' ∷ b'i' ∷ b'n' ∷ [])
        cybfs_type_file 0 0 0 []
    ∷ file 18 1
        (b'b' ∷ b'o' ∷ b'o' ∷ b't' ∷ b'l' ∷ b'v' ∷ b'l' ∷ b'2' ∷ b'.' ∷ b'b' ∷ b'i' ∷ b'n' ∷ [])
        cybfs_type_file 0 0 0 []
    ∷ file 19 1 (b'f' ∷ b'a' ∷ b't' ∷ b'1' ∷ b'2' ∷ b'.' ∷ b'd' ∷ b'r' ∷ b'v' ∷ []) cybfs_type_file
        0 0 0 []
    ∷ file 20 1 (b'c' ∷ b'y' ∷ b'b' ∷ b'f' ∷ b's' ∷ b'.' ∷ b'd' ∷ b'r' ∷ b'v' ∷ []) cybfs_type_file
        0 0 0 []
    ∷ directory 21 13 (
        b'J' ∷ b'o' ∷ b's' ∷ b'h' ∷ b'u' ∷ b'a' ∷ b' ' ∷ b'T' ∷ b'h' ∷ b'i' ∷ b'j' ∷ b's' ∷ b's'
        ∷ b'e' ∷ b'n' ∷ [])
    ∷ directory 22 21 (b'.' ∷ [])
    ∷ directory 23 21 (b'.' ∷ b'.' ∷ [])
    ∷ file 24 21
        (b'h' ∷ b'e' ∷ b'l' ∷ b'l' ∷ b'o' ∷ b'w' ∷ b'o' ∷ b'r' ∷ b'l' ∷ b'd' ∷ b'.' ∷ b't' ∷ b'x'
          ∷ b't' ∷ [])
        cybfs_type_file 0 0 78 helloworlddata
    ∷ directory 25 13 (b'B' ∷ b'i' ∷ b'l' ∷ b'l' ∷ b' ' ∷ b'G' ∷ b'a' ∷ b't' ∷ b'e' ∷ b's' ∷ [])
    ∷ directory 26 25 (b'.' ∷ [])
    ∷ directory 27 25 (b'.' ∷ b'.' ∷ [])
    ∷ directory 28 13 (
        b'L' ∷ b'i' ∷ b'n' ∷ b'u' ∷ b's' ∷ b' ' ∷ b'T' ∷ b'o' ∷ b'r' ∷ b'v' ∷ b'a' ∷ b'l' ∷ b'd'
        ∷ b's' ∷ [])
    ∷ directory 29 28 (b'.' ∷ [])
    ∷ directory 30 28 (b'.' ∷ b'.' ∷ [])
    ∷ directory 31 13 (b'S' ∷ b't' ∷ b'e' ∷ b'v' ∷ b'e' ∷ b' ' ∷ b'J' ∷ b'o' ∷ b'b' ∷ b's' ∷ [])
    ∷ directory 32 32 (b'.' ∷ [])
    ∷ directory 33 32 (b'.' ∷ b'.' ∷ [])
    ∷ file 34 10 (b'c' ∷ b'p' ∷ b'u' ∷ []) cybfs_type_file 0 0 0 []
    ∷ file 35 10 (b'm' ∷ b'e' ∷ b'm' ∷ b'o' ∷ b'r' ∷ b'y' ∷ []) cybfs_type_file 0 0 0 []
    ∷ file 36 10 (b'f' ∷ b'd' ∷ b'c' ∷ []) cybfs_type_file 0 0 0 []
    ∷ file 37 10 (b'h' ∷ b'd' ∷ b'c' ∷ []) cybfs_type_file 0 0 0 []
    ∷ file 38 7 (b'F' ∷ b'L' ∷ b'O' ∷ b'P' ∷ b'P' ∷ b'Y' ∷ b'0' ∷ []) cybfs_type_block_dev 1 0 0 []
    ∷ file 39 7 (b'F' ∷ b'L' ∷ b'O' ∷ b'P' ∷ b'P' ∷ b'Y' ∷ b'1' ∷ []) cybfs_type_block_dev 1 1 0 []
    ∷ file 40 7 (b'F' ∷ b'L' ∷ b'O' ∷ b'P' ∷ b'P' ∷ b'Y' ∷ b'2' ∷ []) cybfs_type_block_dev 1 2 0 []
    ∷ file 41 7 (b'F' ∷ b'L' ∷ b'O' ∷ b'P' ∷ b'P' ∷ b'Y' ∷ b'3' ∷ []) cybfs_type_block_dev 1 3 0 []
    ∷ []
