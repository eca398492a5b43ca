-- ===== src/Queue/Ends.antt =====
-- Insertions at the ends of a queue, and the removal of its only item.
use cyb_os.Prelude.{
  ℕ, ◌+◌, ◌%◌, ◌^◌, ◌≡◌, ◌≢◌, refl, Bool, true, false, ◌||◌, List, [], ◌∷◌, arith, length, ◌==◌,
}
use cyb_os.Prelude.Run.{ok, fault}
use cyb_os.Queue.{Item, Queue, written, queue_insert, queue_prepend, queue_remove}

abbrev pub holds : ℕ → List ℕ → Bool
holds p [] = false
holds p (q ∷ rest) = p == q || holds p rest

abbrev pub head_of : List ℕ → ℕ
head_of [] = 0
head_of (p ∷ rest) = p

abbrev pub tail_of : ℕ → List ℕ → ℕ
tail_of before [] = before
tail_of before (p ∷ rest) = tail_of p rest

-- The items at these addresses are distinct and linked both ways, the first behind `before`.
abbrev pub Linked : (ℕ → Item) → ℕ → List ℕ → Type 0
Linked m before [] = Unit {0}
Linked m before (p ∷ rest) =
    (p ≢ 0)
    × (holds p rest ≡ false)
    × ((m p).prev ≡ before)
    × ((m p).next ≡ head_of rest)
    × Linked m p rest

-- The items of a queue, from head to tail.
pub record IsQueue (q : Queue) (list : List ℕ) : Type 0 where
  pub head : q.head ≡ head_of list
  pub tail : q.tail ≡ tail_of 0 list
  pub links : Linked q.items 0 list
  pub count : q.count ≡ length list % 2 ^ 32

Linked-same :
    (m n : ℕ → Item) (before : ℕ) (list : List ℕ)
    → Linked m before list
    → ((p : ℕ) → holds p list ≡ true → n p ≡ m p)
    → Linked n before list
Linked-same m n before [] h same = tt
Linked-same m n before (p ∷ rest) (ne, out, back, on, h) same =
    let e : n p ≡ m p = same p (ground arith) in
    (ne, out, rw e back, rw e on, Linked-same m n p rest h (λ q i. same q (ground arith)))

holds-apart :
    (p q : ℕ) (list : List ℕ) → holds p list ≡ false → holds q list ≡ true → (q == p) ≡ false
holds-apart p q [] out within = ground arith
holds-apart p q (r ∷ list) out within = ground (arith, holds-apart p q list)

-- The items with a new one in front of the old head.
abbrev in_front : (ℕ → Item) → (item data_ptr head : ℕ) → ℕ → Item
in_front m item data_ptr head =
    written
      (written (written m item (λ i. record i { data_ptr = data_ptr })) item
        (λ i. record i { next = head; prev = 0 }))
      head (λ i. record i { prev = item })

prepend-cons :
    (q : Queue) (item data_ptr : ℕ)
    → (q.head == 0) ≡ false
    → (item == 0) ≡ false
    → queue_prepend item data_ptr q
      ≡ ok true (record q {
        items = in_front q.items item data_ptr q.head;
        head = item;
        count = (q.count + 1) % 2 ^ 32;
      })
unfolding queue_prepend queue_insert
prepend-cons q item data_ptr some_head ne = ground arith

prepend-empty :
    (q : Queue) (item data_ptr : ℕ)
    → (q.head == 0) ≡ true
    → (item == 0) ≡ false
    → queue_prepend item data_ptr q
      ≡ ok true (record q {
        items =
            written
              (written q.items item (λ i. record i { data_ptr = data_ptr }))
              item
              (λ i. record i { next = 0; prev = 0 });
        head = item;
        tail = item;
        count = (q.count + 1) % 2 ^ 32;
      })
unfolding queue_prepend queue_insert
prepend-empty q item data_ptr no_head ne = ground arith

-- On a well-formed queue `queue_prepend`, with fresh memory for the item, puts it in front of the others: the
-- queue is well-formed, the links in both directions, the tail and the count included, and the other items keep their
-- data.
pub queue_prepend-IsQueue :
    (q : Queue) (list : List ℕ) (item data_ptr : ℕ)
    → IsQueue q list
    → holds item list ≡ false
    → (item == 0) ≡ false
    → (q' : Queue) × (queue_prepend item data_ptr q ≡ ok true q')
      × IsQueue q' (item ∷ list)
      × ((q'.items item).data_ptr ≡ data_ptr)
      × ((p : ℕ) → (p == item) ≡ false → (q'.items p).data_ptr ≡ (q.items p).data_ptr)
queue_prepend-IsQueue q [] item data_ptr is out ne = (
  _,
  prepend-empty q item data_ptr (ground (arith, is.head)) ne,
  record {
    head = refl;
    tail = refl;
    links = (ground arith, refl, ground arith, ground arith, tt);
    count = omega (arith, is.count);
  },
  ground arith,
  λ p other. ground arith,
)
queue_prepend-IsQueue q (p ∷ list) item data_ptr is out ne =
    let (pne, pout, back, on, rest) = is.links in
    (
      _,
      prepend-cons q item data_ptr (ground (arith, is.head)) ne,
      record {
        head = refl;
        tail = is.tail;
        links = (
          ground arith,
          out,
          ground (arith, is.head),
          ground (arith, is.head),
          (
            pne,
            pout,
            ground (arith, is.head),
            ground (arith, is.head, on),
            Linked-same q.items (in_front q.items item data_ptr q.head) p list rest (λ r i.
                ground
                  (arith, is.head, holds-apart p r list pout i, holds-apart item r (p ∷ list) out)),
          ),
        );
        count = omega (arith, is.count);
      },
      ground (arith, is.head),
      λ p other. ground arith,
    )

-- The removal of the only item of a well-formed queue writes through NULL.
pub queue_remove_fault :
    (q : Queue) (item : ℕ) → IsQueue q (item ∷ []) → queue_remove item q ≡ fault
unfolding queue_remove
queue_remove_fault q item is = ground (arith, is.head, is.count, is.links.0, is.links.3)
