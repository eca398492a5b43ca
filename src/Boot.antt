-- ===== src/Boot.antt =====
-- The parameters of the kernel, and the mount of the root: kernel.c. What it prints is left out.
pub mod Parameter
use cyb_os.Prelude.{
  ℕ, zero, suc, ◌+◌, ◌==◌, ◌||◌, Bool, true, false, if◌then◌else◌, Option, none, some, List, [],
  ◌∷◌, ltb, drop,
}
use cyb_os.Prelude.Run.{Run, ok, fault, panic, out_of_fuel, Cmd, pure, ◌>>=◌, ◌>>◌, return}
use cyb_os.Klib.Text.{strlen, strncpy, strcmp, strstr}
use cyb_os.Vfs.Types.{Name, Node, Vfs, Drivers}
use cyb_os.Vfs.Lookup.{span_until, vfs_get_node_from_path}
use cyb_os.Vfs.Mount.{sys_mount}

-- Where the value begins, and the character that ends it: a quote at the start ends it, otherwise a blank does.
unfoldable pub value_at : List ℕ → ℕ × List ℕ
value_at [] = (b' ', [])
value_at (c ∷ rest) = if c == b'\'' || c == b'"' then (c, rest) else (b' ', c ∷ rest)

-- `none` stands for 0, with the buffer left alone. The buffer has `room` bytes; the value and its NUL are not checked
-- against that: what is longer is written past the end.
unfoldable pub get_boot_parameter :
    {S : Type 0} → (room : ℕ) → (boot_parameters arg : List ℕ) → Cmd S (Option (List ℕ))
unfolding strlen strncpy strstr span_until value_at
get_boot_parameter room boot_parameters arg = elim (strstr boot_parameters arg) [
  | none ↦ pure none
  | some found ↦
      let (tc, c) = value_at (drop (strlen arg) found) in
      let l = span_until tc c in if ltb l room then pure (some (strncpy c l)) else (λ _. fault)
]

abbrev pub mountoption_remount : ℕ
mountoption_remount = 1

-- `root=`, `root_type=`
abbrev pub root_key : List ℕ
root_key = b'r' ∷ b'o' ∷ b'o' ∷ b't' ∷ b'=' ∷ []

abbrev pub root_type_key : List ℕ
root_type_key = b'r' ∷ b'o' ∷ b'o' ∷ b't' ∷ b'_' ∷ b't' ∷ b'y' ∷ b'p' ∷ b'e' ∷ b'=' ∷ []

-- `ROOT`, `/`
abbrev pub root_mount : Name
root_mount = b'R' ∷ b'O' ∷ b'O' ∷ b'T' ∷ []

abbrev pub root_path : Name
root_path = b'/' ∷ []

-- `DEVICE:/IDE0C0D0P0`, `ext2`, `HARDDISK1`
abbrev pub first_partition : Name
first_partition =
    b'D' ∷ b'E' ∷ b'V' ∷ b'I' ∷ b'C' ∷ b'E' ∷ b':' ∷ b'/' ∷ b'I' ∷ b'D' ∷ b'E' ∷ b'0' ∷ b'C' ∷ b'0'
    ∷ b'D' ∷ b'0' ∷ b'P' ∷ b'0' ∷ []

abbrev pub ext2_tag : Name
ext2_tag = b'e' ∷ b'x' ∷ b't' ∷ b'2' ∷ []

abbrev pub harddisk_mount : Name
harddisk_mount = b'H' ∷ b'A' ∷ b'R' ∷ b'D' ∷ b'D' ∷ b'I' ∷ b'S' ∷ b'K' ∷ b'1' ∷ []

-- The root of a mount, `NAME:/`.
abbrev pub root_of : Name → Name
root_of [] = b':' ∷ b'/' ∷ []
root_of (c ∷ name) = c ∷ root_of name

-- The listings of the three roots are output; their lookups are kept.
unfoldable pub mount_root_system :
    Drivers → (fuel : ℕ) → (garbage : Node) → (boot_params : List ℕ) → Cmd Vfs (Unit {0})
unfolding get_boot_parameter sys_mount vfs_get_node_from_path
mount_root_system drivers fuel garbage boot_params = do
  device ← get_boot_parameter 255 boot_params root_key
  type ←
      (if (elim device [ none ↦ true | some _ ↦ false ])
        then (λ _. panic)
        else get_boot_parameter 10 boot_params root_type_key)
  let fs_type : List ℕ = elim type [ none ↦ [] | some t ↦ t ]
  mounted ← sys_mount drivers fuel garbage device fs_type root_mount root_path mountoption_remount
  if mounted then return else (λ _. panic)
  vfs_get_node_from_path drivers fuel garbage (root_of root_mount) >>= λ _. return
  vfs_get_node_from_path drivers fuel garbage
        (b'D' ∷ b'E' ∷ b'V' ∷ b'I' ∷ b'C' ∷ b'E' ∷ b':' ∷ b'/' ∷ [])
      >>= λ _. return
  sys_mount drivers fuel garbage (some first_partition) ext2_tag harddisk_mount root_path
        mountoption_remount
      >>= λ _. return
  vfs_get_node_from_path drivers fuel garbage (root_of harddisk_mount) >>= λ _. return

-- The program that is run first, for `char init_prog[50]`.
unfoldable pub init_program : (boot_params : List ℕ) → (default key : List ℕ) → Cmd Vfs (List ℕ)
unfolding get_boot_parameter
init_program boot_params default key = do
  given ← get_boot_parameter 50 boot_params key
  pure (elim given [ none ↦ default | some path ↦ path ])

unfoldable pub queue_find_item : (item queue_find_item_str : List ℕ) → Bool
unfolding strcmp
queue_find_item item queue_find_item_str = strcmp item queue_find_item_str == 0
