-- ===== src/Keyboard/Buffer.antt =====
-- The buffer of keys of keyboard.c.
pub mod Fifo
pub mod Refine
use cyb_os.Prelude.{
  ℕ, zero, suc, ◌+◌, ◌-◌, Bool, true, false, List, [], ◌∷◌, ◌++◌, Option, none, some, take, drop,
  set, ltb, leb, ◌==◌, if◌then◌else◌,
}
use cyb_os.Prelude.Run.{ok, fault, out_of_fuel, Cmd, pure, ◌>>=◌, ◌>>◌, gets, modify, return}

abbrev pub max_keybuf : ℕ
max_keybuf = 256

-- `keybuf` has `max_keybuf` bytes; the first `keyptr` of them are keys.
pub record KeyBuffer : Type 0 where
  pub keybuf : List ℕ
  pub keyptr : ℕ

-- `keybuf[keyptr++] = byte`
unfoldable pub push_byte : ℕ → Cmd KeyBuffer (Unit {0})
push_byte byte k =
    if ltb k.keyptr max_keybuf
    then ok tt (record { keybuf = set k.keybuf k.keyptr byte; keyptr = k.keyptr + 1 })
    else fault

-- The loop: `count` bytes of those that follow the length. A read behind the key is a fault.
unfoldable pub push_bytes : ℕ → List ℕ → Cmd KeyBuffer (Unit {0})
unfolding push_byte
push_bytes zero bytes = return
push_bytes (suc count) [] = λ _. fault
push_bytes (suc count) (byte ∷ bytes) = do push_byte byte; push_bytes count bytes

-- `key[0]`, and the bytes from `key[1]` on. The result is whether there was room.
unfoldable pub keyboard_stuffkey : (count : ℕ) → List ℕ → Cmd KeyBuffer Bool
unfolding push_bytes
keyboard_stuffkey count bytes = do
  keyptr ← gets (λ k. k.keyptr)
  if leb max_keybuf (keyptr + count) then pure false else (do push_bytes count bytes; pure true)

-- `memcpy` of all bytes but the first, one place down. The last byte stays.
unfoldable pub shift_down : List ℕ → List ℕ
shift_down buf = take (max_keybuf - 1) (drop 1 buf) ++ drop (max_keybuf - 1) buf

-- `none`: it waits, until another call puts a key there.
unfoldable pub keyboard_poll : Cmd KeyBuffer (Option ℕ)
unfolding shift_down
keyboard_poll k = if k.keyptr == 0 then ok none k else elim k.keybuf [
  | [] ↦ fault
  | ch ∷ rest ↦ ok (some ch) (record { keybuf = shift_down k.keybuf; keyptr = k.keyptr - 1 })
]
