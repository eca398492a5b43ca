-- ===== src/Vfs/Lookup.antt =====
-- From a path to a node: `vsf_get_mount`, `vfs_finddir` and `vfs_get_node_from_path` of vfs.c.
pub mod Colon
pub mod Walk
pub mod Path
use cyb_os.Prelude.{
  ℕ, zero, suc, ◌+◌, ◌≡◌, Bool, true, false, ◌&&◌, not, List, [], ◌∷◌, Option, none, some, ltb,
  ◌==◌, if◌then◌else◌, get_elem?,
}
use cyb_os.Prelude.Run.{fault, panic, out_of_fuel, Cmd, pure, ◌>>=◌, ◌>>◌, gets, return}
use cyb_os.Klib.Text.{strcmp, strncpy}
use cyb_os.Vfs.Types.{Name, Node, kind, MountPoint, Vfs, Drivers, fs_directory}

-- The bytes up to the first one that is `c`, and from there on.
unfoldable pub span_until : ℕ → List ℕ → ℕ
span_until c [] = 0
span_until c (x ∷ str) = if x == c then 0 else suc (span_until c str)

unfoldable pub skip_until : ℕ → List ℕ → List ℕ
skip_until c [] = []
skip_until c (x ∷ str) = if x == c then x ∷ str else skip_until c str

-- The first enabled mount of this name: its index, for its address.
unfoldable pub find_mount : Name → List MountPoint → Option ℕ
find_mount name [] = none
find_mount name (slot ∷ mounts) =
    if slot.enabled && strcmp slot.mount name == 0
    then some 0
    else elim (find_mount name mounts) [ none ↦ none | some i ↦ some (suc i) ]

-- `char mount[11]`
abbrev pub mount_buffer : ℕ
mount_buffer = 11

-- The mount and the path behind the colon. A name that does not fit the buffer is written past its
-- end: a fault.
unfoldable pub vsf_get_mount : Name → Cmd Vfs (Option (ℕ × Name))
vsf_get_mount full_path = elim (skip_until b':' full_path) [
  | [] ↦ pure none
  | colon ∷ path ↦ do
    let len = span_until b':' full_path
    if ltb len mount_buffer then return else (λ _. fault)
    mounts ← gets (λ v. v.mounts)
    pure
        (elim (find_mount (strncpy full_path len) mounts) [ none ↦ none | some i ↦ some (i, path) ])
]

-- `char component[255]`
abbrev pub component_buffer : ℕ
component_buffer = 255

module _ (drivers : Drivers) where
  unfoldable pub vfs_finddir : Node → Name → Node → Option Node
  vfs_finddir node name target =
      if kind node == fs_directory
      then if node.fileops == 0
        then none
        else elim (drivers.finddir node.fileops) [ none ↦ none | some find ↦ find node name target ]
      else none

  -- The loop. `garbage` is what `new_node` holds, which nothing initialises.
  unfoldable pub walk : ℕ → (garbage node : Node) → Name → Cmd Vfs (Option Node)
  walk zero garbage node c = λ _. out_of_fuel
  walk (suc fuel) garbage node [] = pure (some node)
  walk (suc fuel) garbage node (x ∷ rest) = do
    let c = if x == b'/' then rest else x ∷ rest
    let cs = span_until b'/' c
    let component = strncpy c cs
    let behind = skip_until b'/' c
    let stay = walk fuel garbage node behind
    if kind node == fs_directory
        then (do
          if ltb cs component_buffer then return else (λ _. fault)
          if strcmp component (b'.' ∷ []) == 0
              then stay
              else if strcmp component (b'.' ∷ b'.' ∷ []) == 0
              then (λ _. panic)
              else elim (vfs_finddir node component garbage) [
                | none ↦ pure none
                | some new_node ↦ walk fuel garbage new_node behind
              ])
        else pure none

  -- What follows the search for the mount. `node->mount = mount`: the address of slot `i`, which is never
  -- NULL.
  unfoldable pub follow : ℕ → (garbage : Node) → Option (ℕ × Name) → Cmd Vfs (Option Node)
  unfolding walk
  follow fuel garbage none = pure none
  follow fuel garbage (some (i, [])) = pure none
  follow fuel garbage (some (i, slash ∷ c)) =
      if slash == b'/'
      then (do
        mounts ← gets (λ v. v.mounts)
        elim (get_elem? {A = MountPoint} mounts i) [
          | none ↦ λ _. fault
          | some slot ↦ elim slot.supernode [
            | none ↦ λ _. fault
            | some supernode ↦ walk fuel garbage (record supernode { mount = i + 1 }) c
          ]
        ])
      else pure none

  unfoldable pub vfs_get_node_from_path : ℕ → (garbage : Node) → Name → Cmd Vfs (Option Node)
  vfs_get_node_from_path fuel garbage path = vsf_get_mount path >>= follow fuel garbage
