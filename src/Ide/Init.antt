-- ===== src/Ide/Init.antt =====
-- The search for drives: `ide_init_drive`, `ide_init_channel`, `ide_init_controller` and `ide_init` of ide.c.
use Prim.Native.Nat.{bit_and, bit_or}
use cyb_os.Prelude.{
  ℕ, zero, suc, ◌+◌, ◌-◌, ◌*◌, ◌%◌, ◌^◌, ◌==◌, ◌&&◌, not, Bool, true, false, if◌then◌else◌, Option,
  none, some, List, [], ◌∷◌, get_or, get_elem?, replicate,
}
use cyb_os.Prelude.Run.{
  Run, ok, fault, panic, out_of_fuel, Cmd, pure, ◌>>=◌, ◌>>◌, gets, modify, return,
}
use cyb_os.Klib.Printf.{word, do_printf}
use cyb_os.Fat12.Info.{byte2, byte4}
use cyb_os.Port.{Io, Hardware}
use cyb_os.Pci.{PciDevice, PciList, pci_config_get_dword, pci_find_next_class}
use cyb_os.Ide.State.{
  Ide, Place, Drive, DriveType, ata, atapi, Channel, drive, dev_major_ide,
  ide_controller_max_channels, channel_of, drive_at, set_drive, set_channel, register,
}
use cyb_os.Ide.Register.{
  ide_reg_data, ide_reg_lba1, ide_reg_lba2, ide_reg_hddevsel, ide_reg_command, ide_reg_status,
  ide_reg_control, ide_sr_bsy, ide_sr_drq, ide_sr_err, ide_port_write, ide_port_read,
  ide_port_read_buffer, ide_sleep,
}
use cyb_os.Ide.Partition.{drive_number, format_name, ide_read_partition_table}

-- `model`: each two bytes swapped, twenty times, and a NUL.
unfoldable pub swapped : (rounds : ℕ) → List ℕ → (i : ℕ) → List ℕ
swapped zero info i = 0 ∷ []
swapped (suc rounds) info i =
    get_or info (54 + i + 1) 0 ∷ get_or info (54 + i) 0 ∷ swapped rounds info (i + 2)

-- What the drive says of itself; both ways of addressing read the size in the same place.
unfoldable pub identified : Drive → DriveType → List ℕ → Drive
unfolding swapped
identified d type info =
    let command_sets = byte4 info 164 in
    record d {
      enabled = true;
      type = type;
      signature = byte2 info 0;
      capabilities = byte2 info 98;
      command_sets = command_sets;
      size = byte4 info 120;
      lba48 = not (bit_and command_sets (2 ^ 26) == 0);
      model = swapped 20 info 0;
    }

-- `IDE%dC%dD%d`
abbrev pub drive_format : List ℕ
drive_format = b'I' ∷ b'D' ∷ b'E' ∷ b'%' ∷ b'd' ∷ b'C' ∷ b'%' ∷ b'd' ∷ b'D' ∷ b'%' ∷ b'd' ∷ []

-- The kind of drive that the bytes of the cylinder tell, `none` for none that is known.
unfoldable pub packet_type : (cl ch : ℕ) → Option DriveType
packet_type cl ch =
    if cl == 20 && ch == 235
    then some atapi
    else if cl == 105 && ch == 150
    then some atapi
    else none

module _ (hardware : Hardware) (fuel : ℕ) where
  -- Whether the drive answers with an error, once it is no longer busy.
  unfoldable pub wait_identified : (rounds : ℕ) → Channel → Cmd (Io Ide) Bool
  unfolding ide_port_read
  wait_identified zero channel = λ _. out_of_fuel
  wait_identified (suc rounds) channel = do
    let rest = wait_identified rounds channel
    status ← ide_port_read hardware channel ide_reg_status
    if not (bit_and status ide_sr_err == 0)
        then pure true
        else if bit_and status ide_sr_bsy == 0 && not (bit_and status ide_sr_drq == 0)
        then pure false
        else rest

  -- The kind of drive, `none` for one that is not known.
  unfoldable pub detect_type : Channel → (err : Bool) → Cmd (Io Ide) (Option DriveType)
  unfolding ide_port_read ide_port_write ide_sleep packet_type
  detect_type channel err =
      if err
      then (do
        cl ← ide_port_read hardware channel ide_reg_lba1
        ch ← ide_port_read hardware channel ide_reg_lba2
        elim (packet_type cl ch) [
          | none ↦ pure none
          | some type ↦ do
            ide_port_write channel ide_reg_command 161
            ide_sleep hardware channel 1
            pure (some type)
        ])
      else pure (some ata)

  -- The rest of `ide_init_drive`, for a drive that is there.
  unfoldable pub set_up_drive :
      (garbage : List ℕ) → Place → Channel → DriveType → Cmd (Io Ide) (Unit {0})
  unfolding ide_port_read_buffer identified register ide_read_partition_table do_printf
  set_up_drive garbage place channel type = do
    info ← ide_port_read_buffer hardware channel ide_reg_data 128
    d ← drive_at place
    set_drive place (identified d type info)
    filename ←
        format_name drive_format
          (word place.controller ∷ word place.channel ∷ word place.drive ∷ [])
    register (record {
      major_num = dev_major_ide;
      minor_num = drive_number place;
      target = drive place;
      filename = filename;
    })
    elim type [ ata ↦ ide_read_partition_table hardware fuel fuel garbage place 0 | atapi ↦ return ]

  unfoldable pub ide_init_drive : (garbage : List ℕ) → Place → Cmd (Io Ide) (Unit {0})
  unfolding ide_port_write ide_port_read ide_sleep wait_identified detect_type set_up_drive
  ide_init_drive garbage place = do
    channel ← channel_of place
    d ← drive_at place
    set_drive place (record d { enabled = false })
    ide_port_write channel ide_reg_hddevsel (bit_or 160 (place.drive * 2 ^ 4))
    ide_sleep hardware channel 1
    ide_port_write channel ide_reg_command 236
    ide_sleep hardware channel 1
    found ← ide_port_read hardware channel ide_reg_status
    if found == 0 then return else (do
      err ← wait_identified fuel channel
      type ← detect_type channel err
      elim type [ none ↦ return | some t ↦ set_up_drive garbage place channel t ])

  unfoldable pub ide_init_channel :
      (garbage : List ℕ) → (controller channel : ℕ) → Cmd (Io Ide) (Unit {0})
  unfolding ide_port_write ide_init_drive
  ide_init_channel garbage controller channel = do
    c ← gets (λ s. s.own.channels controller channel)
    ide_port_write c ide_reg_control 2
    ide_init_drive garbage (record { controller = controller; channel = channel; drive = 0 })
    ide_init_drive garbage (record { controller = controller; channel = channel; drive = 1 })

  -- The channels from `n` on; `no_int` is left as it is.
  unfoldable pub init_channels :
      (rounds n : ℕ)
      → (garbage : List ℕ) → (controller bm_ide : ℕ) → (io_port : List ℕ) → Cmd (Io Ide) (Unit {0})
  unfolding ide_init_channel
  init_channels zero n garbage controller bm_ide io_port = return
  init_channels (suc rounds) n garbage controller bm_ide io_port = do
    c ← gets (λ s. s.own.channels controller n)
    set_channel controller n (record c {
      base = get_or io_port (n * 2) 0;
      dev_ctl = (get_or io_port (n * 2 + 1) 0 + 4) % 2 ^ 16;
      bm_ide = bm_ide;
    })
    ide_init_channel garbage controller n
    init_channels rounds (n + 1) garbage controller bm_ide io_port

  unfoldable pub ide_init_controller :
      (garbage : List ℕ)
      → (controller : ℕ) → PciDevice
      → (io_port : List ℕ) → Cmd (Io Ide) (Unit {0})
  unfolding init_channels pci_config_get_dword
  ide_init_controller garbage controller pci_dev io_port = do
    let bar4 = bit_and (pci_config_get_dword pci_dev 32) (2 ^ 32 - 4)
    init_channels ide_controller_max_channels 0 garbage controller (bar4 % 2 ^ 16) io_port
    modify (λ s. record s {
      own = record s.own {
        controllers_enabled = λ c. if c == controller then true else s.own.controllers_enabled c;
      };
    })

  abbrev pub ide_controller_ioports : List (List ℕ)
  ide_controller_ioports = (496 ∷ 1008 ∷ 368 ∷ 880 ∷ 488 ∷ 992 ∷ 360 ∷ 864 ∷ []) ∷ []

  -- The loop over the controllers on the bus. A second one has no row of ports: a read past the table.
  unfoldable pub init_controllers :
      (rounds : ℕ)
      → (garbage : List ℕ) → PciList
      → (pci_dev : Option ℕ) → (controller : ℕ) → Cmd (Io Ide) (Unit {0})
  unfolding pci_find_next_class ide_init_controller
  init_controllers zero garbage pci pci_dev controller = λ _. out_of_fuel
  init_controllers (suc rounds) garbage pci pci_dev controller =
      let found : Run PciList (Option ℕ) = pci_find_next_class fuel pci_dev (some 1) (some 1) pci in
      elim found [
        | ok none _ ↦ return
        | ok (some i) _ ↦ elim (get_elem? pci i) [
          | none ↦ λ _. fault
          | some dev ↦ elim (get_elem? ide_controller_ioports controller) [
            | none ↦ λ _. fault
            | some io_port ↦ do
              ide_init_controller garbage controller dev io_port
              init_controllers rounds garbage pci (some i) (controller + 1)
          ]
        ]
        | fault ↦ λ _. fault
        | panic ↦ λ _. panic
        | out_of_fuel ↦ λ _. out_of_fuel
      ]

  abbrev pub no_drive : Drive
  no_drive = record {
    enabled = false;
    type = ata;
    size = 0;
    signature = 0;
    capabilities = 0;
    command_sets = 0;
    model = replicate 41 0;
    lba48 = false;
    databuf = replicate 512 0;
  }

  abbrev pub no_channel : Channel
  no_channel = record { base = 0; dev_ctl = 0; no_int = 0; bm_ide = 0 }

  unfoldable pub ide_init : (garbage : List ℕ) → PciList → Cmd (Io Ide) (Unit {0})
  unfolding init_controllers
  ide_init garbage pci = do
    modify (λ s. record s {
      own = record s.own {
        channels = λ _ _. no_channel;
        drives = λ _. no_drive;
        controllers_enabled = λ _. false;
      };
    })
    init_controllers fuel garbage pci none 0
