-- ===== src/Queue/Seek.antt =====
-- Which item a search finds.
use cyb_os.Prelude.{
  ℕ, zero, suc, ◌<◌, ◌≡◌, refl, ap, ◌∙◌, Bool, true, false, ◌==◌, List, [], ◌∷◌, some, arith,
  length, if◌then◌else◌,
}
use cyb_os.Prelude.Run.{ok}
use cyb_os.Queue.{Item, Queue, seek_from, queue_seek, queue_prepend}
use cyb_os.Queue.Ends.{IsQueue, Linked, head_of, holds, queue_prepend-IsQueue}

-- The first of these addresses whose item has data that the callback takes, and NULL if there is none.
abbrev pub first_found : (ℕ → Item) → (ℕ → Bool) → List ℕ → ℕ
first_found m found [] = 0
first_found m found (p ∷ list) = if found (m p).data_ptr then p else first_found m found list

seek_from-first_found :
    (fuel before : ℕ) (found : ℕ → Bool) (list : List ℕ) (q : Queue)
    → Linked q.items before list
    → length list < fuel
    → seek_from fuel found (head_of list) q ≡ ok (first_found q.items found list) q
unfolding seek_from
seek_from-first_found zero before found list q h lt = absurd (omega arith)
seek_from-first_found (suc fuel) before found [] q h lt = refl
seek_from-first_found (suc fuel) before found (p ∷ list) q (ne, out, back, on, h) lt =
    let ih = seek_from-first_found fuel p found list q h (omega arith) in ground (arith, on, ih)

-- On a well-formed queue `queue_seek` comes to its end in one round more than there are items, leaves the queue as it
-- is and returns the first item from the head whose data the callback takes, or NULL if there is none.
pub queue_seek-first_found :
    (fuel : ℕ) (found : ℕ → Bool) (list : List ℕ) (q : Queue)
    → IsQueue q list
    → length list < fuel
    → queue_seek fuel (some found) q ≡ ok (first_found q.items found list) q
unfolding queue_seek
queue_seek-first_found fuel found list q is lt =
    ap (λ p. seek_from fuel found p q) is.head
    ∙ seek_from-first_found fuel 0 found list q is.links lt

first_found-same :
    (m n : ℕ → Item) (found : ℕ → Bool) (item : ℕ) (list : List ℕ)
    → holds item list ≡ false
    → ((p : ℕ) → (p == item) ≡ false → (n p).data_ptr ≡ (m p).data_ptr)
    → first_found n found list ≡ first_found m found list
first_found-same m n found item [] out same = refl
first_found-same m n found item (p ∷ list) out same =
    let ih = first_found-same m n found item list (ground arith) same in
    let e = same p (ground arith) in ground (arith, e, ih)

-- `queue_prepend`, with fresh memory for the item, on a well-formed queue, and a search behind it. The new queue is
-- well-formed, with the item in front of the others, the links in both directions, the tail and the count included. The
-- search comes to its end in as many rounds as there are items now and one more. It returns the new item if the callback
-- takes its data, and otherwise what a search in the queue before returns, which is the first item whose data the
-- callback takes, or NULL if there is none.
pub queue_seek-prepend :
    (fuel item data_ptr : ℕ) (found : ℕ → Bool) (list : List ℕ) (q : Queue)
    → IsQueue q list
    → holds item list ≡ false
    → (item == 0) ≡ false
    → suc (length list) < fuel
    → (q' : Queue) × (queue_prepend item data_ptr q ≡ ok true q')
      × IsQueue q' (item ∷ list)
      × (queue_seek fuel (some found) q ≡ ok (first_found q.items found list) q)
      × (queue_seek fuel (some found) q'
          ≡ ok (if found data_ptr then item else first_found q.items found list) q')
queue_seek-prepend fuel item data_ptr found list q is out ne lt =
    let (q', put, is', own, same) = queue_prepend-IsQueue q list item data_ptr is out ne in
    let before = queue_seek-first_found fuel found list q is (omega arith) in
    let after = queue_seek-first_found fuel found (item ∷ list) q' is' (omega arith) in
    let others = first_found-same q.items q'.items found item list out same in
    let of_own = ap (λ d. if found d then item else first_found q'.items found list) own in
    let of_others = ap (λ r. if found data_ptr then item else r) others in
    (q', put, is', before, after ∙ ap (λ r. ok r q') (of_own ∙ of_others))
