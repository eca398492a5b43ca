-- ===== src/Elf/Format.antt =====
-- The headers of elf.h, and which files are taken.
use cyb_os.Prelude.{ℕ, ◌==◌, ◌&&◌, not, Bool, false, if◌then◌else◌, List, get_or}
use cyb_os.Fat12.Info.{byte2, byte4}

-- `elf32_ehdr`, the fields that are read.
pub record Header : Type 0 where
  pub indent : List ℕ
  pub type : ℕ
  pub machine : ℕ
  pub version : ℕ
  pub entry : ℕ
  pub phoff : ℕ
  pub shoff : ℕ
  pub phnum : ℕ
  pub shnum : ℕ
  pub shstrndx : ℕ

unfoldable pub header_at : List ℕ → Header
header_at b = record {
  indent = b;
  type = byte2 b 16;
  machine = byte2 b 18;
  version = byte4 b 20;
  entry = byte4 b 24;
  phoff = byte4 b 28;
  shoff = byte4 b 32;
  phnum = byte2 b 44;
  shnum = byte2 b 48;
  shstrndx = byte2 b 50;
}

abbrev pub header_bytes : ℕ
header_bytes = 52

-- `elf32_shdr`, the fields that are read; 40 bytes.
pub record Section : Type 0 where
  pub type : ℕ
  pub addr : ℕ
  pub offset : ℕ
  pub size : ℕ

abbrev pub section_bytes : ℕ
section_bytes = 40

-- `elf32_phdr`, the fields that are read; 32 bytes.
pub record Segment : Type 0 where
  pub type : ℕ
  pub offset : ℕ
  pub vaddr : ℕ
  pub filesz : ℕ
  pub memsz : ℕ

abbrev pub segment_bytes : ℕ
segment_bytes = 32

abbrev pub sht_progbits : ℕ
sht_progbits = 1

abbrev pub sht_nobits : ℕ
sht_nobits = 8

abbrev pub pt_load : ℕ
pt_load = 1

-- The test of the signature fails only where none of the four bytes is right.
abbrev pub lacks_elf_signature : Header → Bool
lacks_elf_signature hdr =
    not (get_or hdr.indent 0 0 == 127)
    && (not (get_or hdr.indent 1 0 == b'E')
        && (not (get_or hdr.indent 2 0 == b'L') && not (get_or hdr.indent 3 0 == b'F')))

-- The tests of `load_binary_elf`, in their order: whether the file is taken.
unfoldable pub accepts : Header → Bool
accepts hdr =
    if lacks_elf_signature hdr
    then false
    else if not (get_or hdr.indent 4 0 == 1)
    then false
    else if not (get_or hdr.indent 5 0 == 1)
    then false
    else if not (get_or hdr.indent 6 0 == 1)
    then false
    else if not (hdr.type == 2)
    then false
    else if not (hdr.machine == 3)
    then false
    else hdr.version == 1
