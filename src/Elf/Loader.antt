-- ===== src/Elf/Loader.antt =====
-- The loader of elf.c and `sys_execve`. The bytes are those of the physical memory; each access goes through the page
-- tables, and one to a page that is not there is a fault.
use cyb_os.Prelude.{
  ℕ, zero, suc, ◌+◌, ◌-◌, ◌*◌, ◌/◌, ◌%◌, ◌^◌, ◌==◌, ◌||◌, Bool, true, false, if◌then◌else◌, Option,
  none, some, List, [], ◌∷◌, ◌++◌, ltb, length, drop, replicate,
}
use cyb_os.Prelude.Run.{ok, fault, panic, out_of_fuel, Cmd, pure, ◌>>=◌, ◌>>◌, gets, modify, return}
use cyb_os.Vfs.Types.{Name, Node, Vfs, Drivers}
use cyb_os.Vfs.Lookup.{vfs_get_node_from_path}
use cyb_os.Vfs.Dispatch.{FileOps, vfs_read}
use cyb_os.Mem.State.{Mem, page_of, offset_of}
use cyb_os.Mem.Kmem.{kmalloc, kmalloc_physical, kmalloc_pageboundary_physical, kfree}
use cyb_os.Mem.Paging.{allocate_virtual_memory}
use cyb_os.Elf.Format.{
  Header, header_at, header_bytes, Section, section_bytes, Segment, segment_bytes, sht_progbits,
  sht_nobits, pt_load, accepts,
}

-- The memory manager, the bytes at the physical addresses, the files, and the two variables of elf.c.
pub record Loader (S : Type 0) : Type 0 where
  pub mem : Mem
  pub bytes : ℕ → ℕ
  pub vfs : Vfs
  pub files : S
  pub string_table_buffer : ℕ
  pub string_table_buffer_size : ℕ

-- The physical address that the page tables of a directory give; bit 0 of an entry is set if the page is there.
abbrev pub address_of : (directory : ℕ) → Mem → (address : ℕ) → Option ℕ
address_of directory mem address =
    let frame = address / 2 ^ 12 in
    let table = (mem.directories directory).tables (frame / 1024) in
    let entry = mem.pages table (frame % 1024) in
    if table == 0 || entry % 2 == 0 then none else some (page_of entry + offset_of address)

-- Whether `count` bytes from an address on are there.
unfoldable pub is_mapped : (directory : ℕ) → Mem → (count address : ℕ) → Bool
is_mapped directory mem zero address = true
is_mapped directory mem (suc count) address =
    elim (address_of directory mem address) as (λ _. Bool) [
      | none ↦ false
      | some p ↦ is_mapped directory mem count (address + 1)
    ]

-- The memory as the virtual addresses show it.
abbrev pub seen_at : (directory : ℕ) → Mem → (bytes : ℕ → ℕ) → (address : ℕ) → ℕ
seen_at directory mem bytes address = elim (address_of directory mem address) as (λ _. ℕ) [
  | none ↦ 0
  | some p ↦ bytes p
]

abbrev pub word_at : (ℕ → ℕ) → (address : ℕ) → ℕ
word_at m address =
    m address + 2 ^ 8 * m (address + 1) + 2 ^ 16 * m (address + 2) + 2 ^ 24 * m (address + 3)

unfoldable pub section_at : (ℕ → ℕ) → (address : ℕ) → Section
section_at m address = record {
  type = word_at m (address + 4);
  addr = word_at m (address + 12);
  offset = word_at m (address + 16);
  size = word_at m (address + 20);
}

unfoldable pub segment_at : (ℕ → ℕ) → (address : ℕ) → Segment
segment_at m address = record {
  type = word_at m address;
  offset = word_at m (address + 4);
  vaddr = word_at m (address + 8);
  filesz = word_at m (address + 16);
  memsz = word_at m (address + 20);
}

module _ {S : Type 0} where
  -- A call of the memory manager.
  abbrev pub on_mem : {A : Type 0} → Cmd Mem A → Cmd (Loader S) A
  on_mem m s = elim (m s.mem) [
    | ok a mem ↦ ok a (record s { mem = mem })
    | fault ↦ fault
    | panic ↦ panic
    | out_of_fuel ↦ out_of_fuel
  ]

  abbrev pub on_vfs : {A : Type 0} → Cmd Vfs A → Cmd (Loader S) A
  on_vfs m s = elim (m s.vfs) [
    | ok a vfs ↦ ok a (record s { vfs = vfs })
    | fault ↦ fault
    | panic ↦ panic
    | out_of_fuel ↦ out_of_fuel
  ]

  -- `fuel` is that of the memory manager and of the lookup, `directory` the page directory of the current task.
  module _ (drivers : Drivers) (ops : ℕ → FileOps S) (fuel directory : ℕ) where
    -- The memory at the virtual addresses, of which `count` bytes from `address` on are read.
    abbrev pub memory_from : (address count : ℕ) → Cmd (Loader S) (ℕ → ℕ)
    memory_from address count s =
        if is_mapped directory s.mem count address
        then ok (seen_at directory s.mem s.bytes) s
        else fault

    -- Bytes that are written from a virtual address on.
    unfoldable pub store_bytes : (address : ℕ) → List ℕ → Cmd (Loader S) (Unit {0})
    store_bytes address [] = return
    store_bytes address (b ∷ bytes) = do
      mem ← gets (λ s. s.mem)
      elim (address_of directory mem address) [
        | none ↦ λ _. fault
        | some p ↦ do
          modify (λ s. record s { bytes = λ q. if q == p then b else s.bytes q })
          store_bytes (address + 1) bytes
      ]

    unfoldable pub memset : (address value count : ℕ) → Cmd (Loader S) (Unit {0})
    unfolding store_bytes
    memset address value count = store_bytes address (replicate count value)

    -- The bytes that a read gives; at most `size` of them are written.
    unfoldable pub read_node : Node → (offset size : ℕ) → Cmd (Loader S) (List ℕ)
    unfolding vfs_read
    read_node node offset size = do
      files ← gets (λ s. s.files)
      let ((count, bytes), files') = vfs_read ops node offset size files
      modify (λ s. record s { files = files' })
      pure bytes

    -- `vfs_read` to an address.
    unfoldable pub read_to_memory : Node → (offset size address : ℕ) → Cmd (Loader S) (Unit {0})
    unfolding read_node store_bytes
    read_to_memory node offset size address = do
      bytes ← read_node node offset size
      store_bytes address bytes

    -- A table of headers in memory of its own.
    abbrev pub read_table : Node → (offset size : ℕ) → Cmd (Loader S) ℕ
    read_table node offset size = do
      table ← on_mem (kmalloc fuel size)
      if table == 0 then return else read_to_memory node offset size table
      pure table

    unfoldable pub elf_init_string_section : Node → Header → Cmd (Loader S) (Unit {0})
    unfolding read_to_memory section_at
    elf_init_string_section node hdr = if hdr.shstrndx == 0 then return else (do
      table ← read_table node hdr.shoff (hdr.shnum * section_bytes)
      if table == 0 then return else (do
        m ← memory_from (table + hdr.shstrndx * section_bytes) section_bytes
        let entry = section_at m (table + hdr.shstrndx * section_bytes)
        buffer ← on_mem (kmalloc fuel entry.size)
        modify
            (λ s. record s { string_table_buffer = buffer; string_table_buffer_size = entry.size })
        read_to_memory node entry.offset entry.size buffer
        on_mem (kfree table)))

    -- The address of a name, `none` for the text that says that there is none.
    unfoldable pub elf_get_section_string : (offset : ℕ) → Cmd (Loader S) (Option ℕ)
    elf_get_section_string offset = do
      buffer ← gets (λ s. s.string_table_buffer)
      size ← gets (λ s. s.string_table_buffer_size)
      if buffer == 0
          then pure none
          else if ltb size offset
          then pure none
          else pure (some (buffer + offset))

    -- The `switch` of `elf_do_section_header`.
    unfoldable pub load_section : Node → Section → Cmd (Loader S) (Unit {0})
    unfolding read_to_memory memset
    load_section node section =
        if section.type == sht_progbits
        then (do
          (address, phys_address) ← on_mem (kmalloc_pageboundary_physical fuel section.size)
          on_mem (allocate_virtual_memory fuel directory phys_address section.size section.addr)
          read_to_memory node section.offset section.size section.addr)
        else if section.type == sht_nobits
        then (do
          (address, phys_address) ← on_mem (kmalloc_physical fuel section.size)
          on_mem (allocate_virtual_memory fuel directory phys_address section.size section.addr)
          memset section.offset 0 section.size)
        else return

    -- The sections from `sh_ptr` on; one without an address or a size is passed over.
    unfoldable pub load_sections : (count : ℕ) → Node → (sh_ptr : ℕ) → Cmd (Loader S) (Unit {0})
    unfolding section_at load_section
    load_sections zero node sh_ptr = return
    load_sections (suc count) node sh_ptr = do
      m ← memory_from sh_ptr section_bytes
      let section = section_at m sh_ptr
      if section.addr == 0 || section.size == 0 then return else load_section node section
      load_sections count node (sh_ptr + section_bytes)

    unfoldable pub elf_do_section_header : Node → Header → Cmd (Loader S) Bool
    unfolding read_to_memory load_sections
    elf_do_section_header node hdr = do
      table ← read_table node hdr.shoff (hdr.shnum * section_bytes)
      if table == 0
          then pure false
          else (do load_sections hdr.shnum node table; on_mem (kfree table); pure true)

    unfoldable pub load_segment : Node → Segment → Cmd (Loader S) (Unit {0})
    unfolding read_to_memory memset
    load_segment node segment =
        if segment.type == pt_load
        then (do
          (buffer, phys_address) ← on_mem (kmalloc_pageboundary_physical fuel segment.memsz)
          on_mem (allocate_virtual_memory fuel directory phys_address segment.memsz segment.vaddr)
          read_to_memory node segment.offset segment.filesz segment.vaddr
          if ltb segment.filesz segment.memsz
              then memset (buffer + segment.filesz) 0 (segment.memsz - segment.filesz)
              else return)
        else return

    unfoldable pub load_segments : (count : ℕ) → Node → (ph_ptr : ℕ) → Cmd (Loader S) (Unit {0})
    unfolding segment_at load_segment
    load_segments zero node ph_ptr = return
    load_segments (suc count) node ph_ptr = do
      m ← memory_from ph_ptr segment_bytes
      load_segment node (segment_at m ph_ptr)
      load_segments count node (ph_ptr + segment_bytes)

    -- Nothing calls this function.
    unfoldable pub elf_do_program_header : Node → Header → Cmd (Loader S) Bool
    unfolding read_to_memory load_segments
    elf_do_program_header node hdr = do
      table ← read_table node hdr.phoff (hdr.phnum * segment_bytes)
      if table == 0
          then pure false
          else (do load_segments hdr.phnum node table; on_mem (kfree table); pure true)

    -- The entry point, or 0. `garbage` and `stack` are what the local variables hold at first: the node and the header.
    unfoldable pub load_binary_elf : (garbage : Node) → (stack : List ℕ) → Name → Cmd (Loader S) ℕ
    unfolding read_node header_at accepts elf_init_string_section elf_do_section_header
    load_binary_elf garbage stack path = do
      found ← on_vfs (vfs_get_node_from_path drivers fuel garbage path)
      elim found [
        | none ↦ pure 0
        | some node ↦ do
          bytes ← read_node node 0 header_bytes
          let hdr = header_at (bytes ++ drop (length bytes) stack)
          if accepts hdr
              then (do
                elf_init_string_section node hdr
                loaded ← elf_do_section_header node hdr
                if loaded then pure hdr.entry else pure 0)
              else pure 0
      ]

    -- The result, 0 on every path, and the new `eip` where it changes.
    unfoldable pub sys_execve :
        (garbage : Node) → (stack : List ℕ) → Name → Cmd (Loader S) (ℕ × Option ℕ)
    unfolding load_binary_elf
    sys_execve garbage stack path = do
      entrypoint ← load_binary_elf garbage stack path
      if entrypoint == 0 then pure (0, none) else pure (0, some entrypoint)
