-- ===== src/Tests/Queues.antt =====
-- The theorems on queues, at a queue of one item.
use cyb_os.Prelude.{◌≡◌, refl, true, ◌==◌, some, [], ◌∷◌, arith}
use cyb_os.Prelude.Run.{ok}
use cyb_os.Queue.{Queue, queue_prepend, queue_seek}
use cyb_os.Queue.Ends.{IsQueue}
use cyb_os.Queue.Seek.{queue_seek-prepend}

abbrev one_item : Queue
one_item = record {
  items = λ p. record { prev = 0; next = 0; data_ptr = 7 };
  head = 16;
  tail = 16;
  count = 1;
}

one_item-IsQueue : IsQueue one_item (16 ∷ [])
one_item-IsQueue = record {
  head = refl;
  tail = refl;
  links = (omega arith, refl, refl, refl, tt);
  count = refl;
}

queue_seek-prepend_example :
    (q' : Queue) × (queue_prepend 32 9 one_item ≡ ok true q')
    × IsQueue q' (32 ∷ 16 ∷ [])
    × (queue_seek 3 (some (λ d. d == 7)) one_item ≡ ok 16 one_item)
    × (queue_seek 3 (some (λ d. d == 7)) q' ≡ ok 16 q')
queue_seek-prepend_example =
    queue_seek-prepend 3 32 9 (λ d. d == 7) (16 ∷ []) one_item one_item-IsQueue refl refl
      (omega arith)
