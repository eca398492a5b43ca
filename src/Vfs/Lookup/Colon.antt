-- ===== src/Vfs/Lookup/Colon.antt =====
-- `vsf_get_mount` splits a path at its first colon.
use cyb_os.Prelude.{
  ℕ, ◌≡◌, refl, ap, false, List, [], ◌∷◌, ◌++◌, arith, ltb, ◌==◌, if◌then◌else◌, length, none, some,
}
use cyb_os.Prelude.Run.{ok, fault}
use cyb_os.Klib.Text.{strncpy}
use cyb_os.Vfs.Types.{Name, Vfs}
use cyb_os.Vfs.Lookup.{span_until, skip_until, find_mount, mount_buffer, vsf_get_mount}

-- `c` is not among the bytes.
abbrev pub Lacks : ℕ → List ℕ → Type 0
Lacks c [] = Unit {0}
Lacks c (x ∷ str) = ((x == c) ≡ false) × Lacks c str

pub span_until-append :
    (c : ℕ) (front rest : List ℕ)
    → Lacks c front
    → span_until c (front ++ (c ∷ rest)) ≡ length front
unfolding span_until
span_until-append c [] rest h = ground arith
span_until-append c (x ∷ front) rest h = ground (arith, span_until-append c front rest h.1)

pub skip_until-append :
    (c : ℕ) (front rest : List ℕ) → Lacks c front → skip_until c (front ++ (c ∷ rest)) ≡ c ∷ rest
unfolding skip_until
skip_until-append c [] rest h = ground arith
skip_until-append c (x ∷ front) rest h = rw h.0 (skip_until-append c front rest h.1)

pub strncpy-append : (front rest : List ℕ) → strncpy (front ++ rest) (length front) ≡ front
unfolding strncpy
strncpy-append [] [] = refl
strncpy-append [] (x ∷ rest) = refl
strncpy-append (x ∷ front) rest = ap (λ l. x ∷ l) (strncpy-append front rest)

-- `vsf_get_mount` of `MOUNT:PATH`, with a name of at most ten bytes and no colon in it: the first
-- enabled mount of that name, with the path, or NULL where there is none. A longer name overruns the array
-- on the stack.
pub vsf_get_mount_lem :
    (mount path : Name) (v : Vfs)
    → Lacks b':' mount
    → vsf_get_mount (mount ++ (b':' ∷ path)) v ≡ (
        if ltb (length mount) mount_buffer
        then ok (elim (find_mount mount v.mounts) [ none ↦ none | some i ↦ some (i, path) ]) v
        else fault)
unfolding vsf_get_mount
vsf_get_mount_lem mount path v h = ground (
  arith,
  skip_until-append b':' mount path h,
  span_until-append b':' mount path h,
  strncpy-append mount (b':' ∷ path),
)
