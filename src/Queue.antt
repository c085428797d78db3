-- ===== src/Queue.antt =====
-- libcwmp/src/queue.c and libcwmp/include/cwmp/queue.h: the task queue, a singly linked list of
-- heap nodes. `D` is what a `void *` of a task points to; a null pointer is `none`. The address that
-- `malloc` returns is an argument, 0 where it fails. A read or write through a null or freed pointer
-- is a fault, `none`. The mutex is not modelled: a call is one step.
pub mod Chain
pub mod Fifo
pub mod Run
pub mod Priority
pub mod Free
mod Tests
use netcwmp.Common.{
  ℕ, zero, suc, ◌+◌, ◌-◌, Bool, Option, none, some, leb, ◌==◌, if◌then◌else◌, ℤ, pos, negsuc,
}

abbrev pub Ptr : Type 0
Ptr = ℕ

abbrev pub null : Ptr
null = 0

-- `QUEUE_PRIORITY_COMMON`, `QUEUE_PRIORITY_HIGH`
abbrev pub common_priority : ℕ
common_priority = 1

abbrev pub high_priority : ℕ
high_priority = 2

-- `qnode_t` but for its link.
pub record Item (D : Type 0) : Type 0 where
  pub content : Option D
  pub arg1 : Option D
  pub arg2 : Option D
  pub datatype : ℤ
  pub priority : ℕ

pub record Node (D : Type 0) : Type 0 where
  pub item : Item D
  pub next : Ptr

abbrev pub Heap : Type 0 → Type 0
Heap D = Ptr → Option (Node D)

-- `queue_t`, beside the heap that its nodes live in.
pub record Queue (D : Type 0) : Type 0 where
  pub heap : Heap D
  pub size : ℕ
  pub first : Ptr
  pub last : Ptr

-- The result of `queue_pop`: its return value, what it stores in `*data` (`none`: nothing), and the
-- queue.
abbrev pub Popped : Type 0 → Type 0
Popped D = ℤ × Option (Option D) × Queue D

module _ {D : Type 0} where
  pub write : Heap D → Ptr → Option (Node D) → Heap D
  write h p c q = if p == q then c else h q

  -- `p->next = q`
  pub set_next : Ptr → Ptr → Heap D → Option (Heap D)
  unfolding write
  set_next p q h = elim (h p) [
    | none ↦ none
    | some n ↦ some (write h p (some (record n { next = q })))
  ]

  abbrev pub node : Item D → Ptr → Node D
  node i p = record { item = i; next = p }

  -- `q->last->next = node; q->last = node;`
  pub append : Ptr → Queue D → Option (Queue D)
  unfolding set_next
  append fresh q = elim (set_next q.last fresh q.heap) [
    | none ↦ none
    | some h ↦ some (record q { heap = h; last = fresh })
  ]

  -- What both ways to add a task do first: fill the node, count it.
  pub fill : Ptr → Item D → Queue D → Queue D
  unfolding write
  fill fresh i q = record q { heap = write q.heap fresh (some (node i null)); size = q.size + 1 }

  -- `queue_push`
  pub queue_push : Ptr → Option D → ℤ → Queue D → Option (Queue D)
  unfolding append fill
  queue_push fresh content datatype q =
      let i : Item D = record {
        content = content;
        arg1 = none;
        arg2 = none;
        datatype = datatype;
        priority = common_priority;
      } in
      if fresh == null
      then some q
      else if q.first == null
      then some (record (fill fresh i q) { first = fresh; last = fresh })
      else append fresh (fill fresh i q)

  -- `node->next = first->next; q->first = node;`
  pub put_first : Ptr → Ptr → Queue D → Option (Queue D)
  unfolding set_next
  put_first fresh next q = elim (set_next fresh next q.heap) [
    | none ↦ none
    | some h ↦ some (record q { heap = h; first = fresh })
  ]

  -- `queue_add` on a queue that has a first node.
  pub add_behind : Ptr → Item D → Queue D → Option (Queue D)
  unfolding append put_first
  add_behind fresh i q = elim (q.heap q.first) [
    | none ↦ none
    | some n ↦ if leb n.item.priority i.priority then put_first fresh n.next q else append fresh q
  ]

  -- `queue_add`
  pub queue_add : Ptr → Item D → Queue D → Option (Queue D)
  unfolding fill add_behind
  queue_add fresh i q =
      if fresh == null
      then some q
      else if q.first == null
      then some (record (fill fresh i q) { first = fresh; last = fresh })
      else add_behind fresh i (fill fresh i q)

  -- The part of `queue_pop` behind its test, at the first node.
  pub take_node : Node D → Queue D → Popped D
  unfolding write
  take_node n q = (
    n.item.datatype,
    some n.item.content,
    record {
      heap = write q.heap q.first none;
      size = q.size - 1;
      first = n.next;
      last = if n.next == null then null else q.last;
    },
  )

  -- `queue_pop`
  pub queue_pop : Queue D → Option (Popped D)
  unfolding take_node
  queue_pop q =
      if q.first == null
      then some (negsuc 0, none, q)
      else elim (q.heap q.first) [ none ↦ none | some n ↦ some (take_node n q) ]

  -- `queue_create`, in a given heap.
  pub queue_create : Heap D → Queue D
  queue_create h = record { heap = h; size = 0; first = null; last = null }

  -- `queue_is_empty`
  pub queue_is_empty : Queue D → Bool
  queue_is_empty q = q.first == null

  -- The loop of `queue_free` on fuel: it frees the nodes up to, and without, the last one. The heap
  -- that it leaves; `none` is a fault, or fuel that ran out.
  pub free_nodes : ℕ → Ptr → Heap D → Option (Heap D)
  unfolding write
  free_nodes zero p h = none
  free_nodes (suc k) p h = elim (h p) [
    | none ↦ none
    | some n ↦ if n.next == null then some h else free_nodes k n.next (write h p none)
  ]

  -- `queue_free` but for the queue's own record, which goes back to its pool.
  pub queue_free : ℕ → Queue D → Option (Heap D)
  queue_free fuel q = free_nodes fuel q.first q.heap
