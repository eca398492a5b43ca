-- ===== src/Queue.antt =====
-- The doubly linked queue of queue.c. The address that `kmalloc` returns is an argument of the insertions;
-- freed memory is not reused.
pub mod Ends
pub mod Seek
use cyb_os.Prelude.{
  ℕ, zero, suc, ◌+◌, ◌-◌, ◌%◌, ◌^◌, Bool, true, false, ◌==◌, if◌then◌else◌, Option, none, some,
  List, [], ◌∷◌, ◌++◌,
}
use cyb_os.Prelude.Run.{Run, ok, fault, out_of_fuel, Cmd, pure, ◌>>=◌, ◌>>◌, gets, modify, return}

-- `queue_item_t`; addresses are numbers, 0 is NULL.
pub record Item : Type 0 where
  pub prev : ℕ
  pub next : ℕ
  pub data_ptr : ℕ

-- `queue_t`, with the memory that holds the items.
pub record Queue : Type 0 where
  pub items : ℕ → Item
  pub head : ℕ
  pub tail : ℕ
  pub count : ℕ

-- The items with the one at `p` changed.
abbrev pub written : (ℕ → Item) → ℕ → (Item → Item) → ℕ → Item
written items p f a = if a == p then f (items p) else items a

-- `item->field = …` and a read of it.
abbrev pub change : ℕ → (Item → Item) → Cmd Queue (Unit {0})
change p f q = if p == 0 then fault else ok tt (record q { items = written q.items p f })

abbrev pub item_at : ℕ → Cmd Queue Item
item_at p q = if p == 0 then fault else ok (q.items p) q

-- A fresh queue in the memory of another one.
unfoldable pub queue_init : Queue → Queue
queue_init q = record q { head = 0; tail = 0; count = 0 }

unfoldable pub queue_insert : (item data_ptr dst : ℕ) → Cmd Queue Bool
queue_insert item data_ptr dst = do
  change item (λ i. record i { data_ptr = data_ptr })
  modify (λ q. record q { count = (q.count + 1) % 2 ^ 32 })
  head ← gets (λ q. q.head)
  tail ← gets (λ q. q.tail)
  if head == 0
      then (do
        modify (λ q. record q { head = item; tail = item })
        change item (λ i. record i { next = 0; prev = 0 }))
      else if dst == 0
      then (do
        change item (λ i. record i { next = head; prev = 0 })
        change head (λ i. record i { prev = item })
        modify (λ q. record q { head = item }))
      else if dst == tail
      then (do
        change item (λ i. record i { next = 0; prev = tail })
        change tail (λ i. record i { next = item })
        modify (λ q. record q { tail = item }))
      else (do
        d ← item_at dst
        change item (λ i. record i { next = d.next; prev = dst })
        change d.next (λ i. record i { prev = item })
        change dst (λ i. record i { next = item }))
  pure true

unfoldable pub queue_append : (item data_ptr : ℕ) → Cmd Queue Bool
queue_append item data_ptr = gets (λ q. q.tail) >>= λ tail. queue_insert item data_ptr tail

unfoldable pub queue_prepend : (item data_ptr : ℕ) → Cmd Queue Bool
queue_prepend item data_ptr = queue_insert item data_ptr 0

unfoldable pub queue_remove : ℕ → Cmd Queue Bool
queue_remove item = do
  count ← gets (λ q. q.count)
  if count == 0 then pure false else (do
    i ← item_at item
    head ← gets (λ q. q.head)
    tail ← gets (λ q. q.tail)
    if item == head
        then (do
          modify (λ q. record q { head = i.next })
          change i.next (λ j. record j { prev = 0 }))
        else if item == tail
        then (do
          modify (λ q. record q { tail = i.prev })
          change i.prev (λ j. record j { next = 0 }))
        else (do
          change i.prev (λ j. record j { next = i.next })
          change i.next (λ j. record j { prev = i.prev }))
    modify (λ q. record q { count = (q.count + (2 ^ 32 - 1)) % 2 ^ 32 })
    pure true)

unfoldable pub queue_iterate : ℕ → Cmd Queue ℕ
queue_iterate current_item =
    if current_item == 0 then gets (λ q. q.head) else (item_at current_item >>= λ i. pure i.next)

-- The loop of `queue_seek`, over the items from `item` on. The callback gets the data of an item.
unfoldable pub seek_from : (fuel : ℕ) → (callback : ℕ → Bool) → (item : ℕ) → Cmd Queue ℕ
seek_from zero callback item = λ _. out_of_fuel
seek_from (suc fuel) callback item = do
  let rest = (do i ← item_at item; seek_from fuel callback i.next)
  if item == 0
      then pure 0
      else (do i ← item_at item; if callback i.data_ptr then pure item else rest)

unfoldable pub queue_seek : (fuel : ℕ) → (callback : Option (ℕ → Bool)) → Cmd Queue ℕ
unfolding seek_from
queue_seek fuel callback = do
  item ← gets (λ q. q.head)
  elim callback [ none ↦ pure 0 | some found ↦ seek_from fuel found item ]

-- The data that the callback is called with, in order; it leaves the queue as it is.
unfoldable pub queue_destroy : (fuel : ℕ) → (has_callback : Bool) → Cmd Queue (List ℕ)
unfolding queue_remove
queue_destroy zero has_callback = λ _. out_of_fuel
queue_destroy (suc fuel) has_callback = do
  count ← gets (λ q. q.count)
  item ← gets (λ q. q.tail)
  let rest = queue_destroy fuel has_callback
  if count == 0 then pure [] else (do
    called ← (if has_callback then (do i ← item_at item; pure (i.data_ptr ∷ [])) else pure [])
    removed ← queue_remove item
    others ← rest
    pure (called ++ others))
