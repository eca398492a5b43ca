-- ===== src/Keyboard/Buffer/Refine.antt =====
-- The buffer of keys is a bounded queue.
use mathlib.Core.List.{append_assoc, append-nil}
use cyb_os.Prelude.{
  ℕ, zero, suc, ◌+◌, ◌-◌, ◌≤◌, ◌<◌, ◌≡◌, refl, ◌∙◌, ap, true, false, List, [], ◌∷◌, ◌++◌, some,
  arith, take, drop, set, length, length-set, length-take, length-drop, length-append, get_or, inl,
  inr, leb, ◌==◌, Bool-cases,
}
use cyb_os.Prelude.Run.{Run, ok, Cmd, pure, ◌>>=◌, and_then}
use cyb_os.Keyboard.Buffer.{
  KeyBuffer, max_keybuf, push_byte, push_bytes, keyboard_stuffkey, shift_down, keyboard_poll,
}
use cyb_os.Keyboard.Buffer.Fifo.{
  KeyCall, stuff, poll, Answer, stuffed, polled, stuff_fifo, poll_fifo, call_fifo, run_fifo,
}

-- The buffer holds these keys.
pub record Holds (k : KeyBuffer) (queue : List ℕ) : Type 0 where
  pub size : length k.keybuf ≡ max_keybuf
  pub count : k.keyptr ≡ length queue
  pub keys : take (length queue) k.keybuf ≡ queue
  pub room : length queue < max_keybuf

-- The calls of the code, one after another.
unfoldable pub call : KeyCall → Cmd KeyBuffer Answer
call (stuff bytes) = do room ← keyboard_stuffkey (length bytes) bytes; pure (stuffed room)
call poll = do ch ← keyboard_poll; pure (polled ch)

unfoldable pub run : List KeyCall → Cmd KeyBuffer (List Answer)
unfolding call
run [] = pure []
run (c ∷ calls) = do answer ← call c; answers ← run calls; pure (answer ∷ answers)

take-set :
    (xs : List ℕ) (n v : ℕ) → n < length xs → take (suc n) (set xs n v) ≡ take n xs ++ (v ∷ [])
take-set [] n v l = absurd (omega arith)
take-set (x ∷ xs) zero v l = refl
take-set (x ∷ xs) (suc n) v l = ap (λ t. x ∷ t) (take-set xs n v (omega arith))

take-append : (xs ys : List ℕ) (n : ℕ) → n ≤ length xs → take n (xs ++ ys) ≡ take n xs
take-append xs ys zero l = refl
take-append [] ys (suc n) l = absurd (omega arith)
take-append (x ∷ xs) ys (suc n) l = ap (λ t. x ∷ t) (take-append xs ys n (omega arith))

take-take : (xs : List ℕ) (n m : ℕ) → n ≤ m → take n (take m xs) ≡ take n xs
take-take xs zero m l = refl
take-take xs (suc n) zero l = absurd (omega arith)
take-take [] (suc n) (suc m) l = refl
take-take (x ∷ xs) (suc n) (suc m) l = ap (λ t. x ∷ t) (take-take xs n m (omega arith))

push_byte-Holds :
    (k : KeyBuffer) (queue : List ℕ) (byte : ℕ)
    → Holds k queue
    → length queue + 1 < max_keybuf
    → let k' : KeyBuffer = record { keybuf = set k.keybuf k.keyptr byte; keyptr = k.keyptr + 1 } in
      (push_byte byte k ≡ ok tt k') × Holds k' (queue ++ (byte ∷ []))
unfolding push_byte
push_byte-Holds k queue byte h room = (
  ground (arith, h.count),
  record {
    size = omega (arith, h.size, length-set k.keybuf k.keyptr byte);
    count = omega (arith, h.count, length-append queue (byte ∷ []));
    keys =
        rw
          (
            h.count,
            longer,
            take-set k.keybuf (length queue) byte (omega (arith, h.size, h.room)),
            h.keys,
          )
          refl;
    room = omega (arith, room, length-append queue (byte ∷ []));
  },
)
  where
    longer : length (queue ++ (byte ∷ [])) ≡ suc (length queue)
    longer = omega (arith, length-append queue (byte ∷ []))

-- One step of the code and of the queue: the same answer, and the buffer holds the queue again.
pub record Agrees {A : Type 0} (r : Run KeyBuffer A) (answer : A) (queue : List ℕ) : Type 0 where
  pub after : KeyBuffer
  pub runs : r ≡ ok answer after
  pub holds : Holds after queue

then-Agrees :
    {A B : Type 0} (f : A → B) {r : Run KeyBuffer A} {a : A} {queue : List ℕ}
    → Agrees r a queue
    → Agrees (and_then r (λ a. pure (f a))) (f a) queue
then-Agrees f agrees = record {
  after = agrees.after;
  runs = rw agrees.runs refl;
  holds = agrees.holds;
}

push_bytes-Agrees :
    (bytes : List ℕ) (k : KeyBuffer) (queue : List ℕ)
    → Holds k queue
    → length queue + length bytes < max_keybuf
    → Agrees (push_bytes (length bytes) bytes k) tt (queue ++ bytes)
unfolding push_bytes
push_bytes-Agrees [] k queue h room = record {
  after = k;
  runs = refl;
  holds = rw (append-nil queue) h;
}
push_bytes-Agrees (byte ∷ bytes) k queue h room =
    let (one, holds) = push_byte-Holds k queue byte h (omega (arith, room)) in
    let rest =
      push_bytes-Agrees bytes _ (queue ++ (byte ∷ [])) holds
        (omega (arith, room, length-append queue (byte ∷ []))) in
    record {
      after = rest.after;
      runs = rw one rest.runs;
      holds = rw (← append_assoc queue (byte ∷ []) bytes) rest.holds;
    }

pub stuff-Agrees :
    (bytes : List ℕ) (k : KeyBuffer) (queue : List ℕ)
    → Holds k queue
    → let (room, behind) = stuff_fifo bytes queue in
      Agrees (keyboard_stuffkey (length bytes) bytes k) room behind
unfolding stuff_fifo keyboard_stuffkey
stuff-Agrees bytes k queue h = elim (Bool-cases (leb max_keybuf (length queue + length bytes))) [
  | inl e ↦ rw e (record { after = k; runs = rw (h.count, e) refl; holds = h })
  | inr e ↦
      rw (free e, e)
        (then-Agrees (λ _. true) (push_bytes-Agrees bytes k queue h (ground (arith, e))))
]
  where
    free :
        leb max_keybuf (length queue + length bytes) ≡ false
        → leb max_keybuf (k.keyptr + length bytes) ≡ false
    free e = rw h.count e

shifted :
    (ch : ℕ) (buf queue : List ℕ)
    → length queue < max_keybuf
    → length (ch ∷ buf) ≡ max_keybuf
    → take (length queue) buf ≡ queue
    → take (length queue) (shift_down (ch ∷ buf)) ≡ queue
unfolding shift_down
shifted ch buf queue l size keys =
    take-append (take 255 buf) (drop 254 buf) (length queue)
      (omega (arith, l, size, length-take 255 buf))
    ∙ take-take buf (length queue) 255 (omega (arith, l))
    ∙ keys

length-shift_down : (buf : List ℕ) → length buf ≡ max_keybuf → length (shift_down buf) ≡ max_keybuf
unfolding shift_down
length-shift_down buf size = omega (
  arith,
  size,
  length-append (take 255 (drop 1 buf)) (drop 255 buf),
  length-take 255 (drop 1 buf),
  length-drop 1 buf,
  length-drop 255 buf,
)

poll-Agrees :
    (k : KeyBuffer) (queue : List ℕ)
    → Holds k queue
    → let (ch, behind) = poll_fifo queue in Agrees (keyboard_poll k) ch behind
unfolding poll_fifo keyboard_poll
poll-Agrees k [] h = record { after = k; runs = rw h.count refl; holds = h }
poll-Agrees k (ch ∷ queue) h = go k.keybuf k.keyptr h
  where
    go :
        (buf : List ℕ) (keyptr : ℕ)
        → (let k : KeyBuffer = record { keybuf = buf; keyptr = keyptr } in
            Holds k (ch ∷ queue) → Agrees (keyboard_poll k) (some ch) queue)
    go [] keyptr h = absurd (omega (arith, h.size))
    go (x ∷ buf) keyptr h = record {
      after = record { keybuf = shift_down (x ∷ buf); keyptr = length queue };
      runs =
          let first : x ≡ ch = ap (λ l. get_or l 0 0) h.keys in
          let some_left : (suc (length queue) == 0) ≡ false = ground arith in
          let one_less : suc (length queue) - 1 ≡ length queue = omega arith in
          rw (h.count, some_left, one_less, first) refl;
      holds = record {
        size = length-shift_down (x ∷ buf) h.size;
        count = refl;
        keys = shifted x buf queue (omega (arith, h.room)) h.size (ap (drop 1) h.keys);
        room = omega (arith, h.room);
      };
    }

call-Agrees :
    (c : KeyCall) (k : KeyBuffer) (queue : List ℕ)
    → Holds k queue
    → let (answer, behind) = call_fifo c queue in Agrees (call c k) answer behind
unfolding call call_fifo
call-Agrees (stuff bytes) k queue h = then-Agrees stuffed (stuff-Agrees bytes k queue h)
call-Agrees poll k queue h = then-Agrees polled (poll-Agrees k queue h)

-- For every list of calls of `keyboard_stuffkey` and `keyboard_poll`, on a buffer of 256 bytes that holds some keys,
-- the answers of the code are those of a queue that refuses a key when 256 bytes or more would be in it, and the
-- buffer holds what the queue holds then.
pub run-refines :
    (calls : List KeyCall) (k : KeyBuffer) (queue : List ℕ)
    → Holds k queue
    → let (answers, last) = run_fifo calls queue in
      (k' : KeyBuffer) × (run calls k ≡ ok answers k') × Holds k' last
unfolding run run_fifo
run-refines [] k queue h = (k, refl, h)
run-refines (c ∷ calls) k queue h =
    let one = call-Agrees c k queue h in
    let (k', runs, holds) = run-refines calls one.after (call_fifo c queue).1 one.holds in
    (k', rw (one.runs, runs) refl, holds)
