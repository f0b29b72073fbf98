-- ===== src/LinkedList.antt =====
-- The linked list of src/common/list.c. Nodes live at addresses of a heap; a `lkdList` stands
-- outside it, so a function that updates one returns the new value. Addresses are numbers, 0 is
-- NULL. What `malloc` and `strdup` return are arguments.
pub mod Whole
pub mod Chain
pub mod Ends
pub mod Find
pub mod Remove
pub mod Release
pub mod Dup
pub mod FreeFn
use mini_pubsub_broker.Base.{
  ℕ, zero, suc, ◌+◌, ◌-◌, ◌%◌, ◌^◌, Bool, true, false, Option, none, some, List, [], ◌∷◌, ◌++◌,
  ◌==◌, if◌then◌else◌,
}
use mini_pubsub_broker.Client.{Run, ok, fault, out_of_fuel, ◌>>=◌, ◌>>◌}

-- `node_t`.
pub record Node : Type 0 where
  pub next : ℕ
  pub item : ℕ
  pub free_fn : ℕ

abbrev pub Heap : Type 0
Heap = ℕ → Option Node

-- `lkdList`; `size` is a `size_t`.
pub record LkdList : Type 0 where
  pub head : ℕ
  pub tail : ℕ
  pub size : ℕ
  pub autofree : Bool

-- `LIST_OK` and `LIST_ERR`.
pub data ListStatus : Type 0 where
  list_ok list_err : ListStatus

-- An item that is given back: by `free`, or by the function of its node.
pub data Freed : Type 0 where
  by_free : ℕ → Freed
  by_fn : ℕ → ℕ → Freed

abbrev pub write : Heap → ℕ → Option Node → Heap
write h p n q = if q == p then n else h q

abbrev pub found : Option Node → Run Node
found none = fault
found (some n) = ok n

-- `*p`.
unfoldable pub load : Heap → ℕ → Run Node
load h p = if p == 0 then fault else found (h p)

-- `p->next = q`.
unfoldable pub set_next : Heap → ℕ → ℕ → Run Heap
unfolding load
set_next h p q = load h p >>= λ n. ok (write h p (some (record n { next = q })))

-- `free(p)`.
unfoldable pub free : Heap → ℕ → Run Heap
unfolding load
free h p = load h p >>= λ n. ok (write h p none)

unfoldable pub lkd_list_create : LkdList
lkd_list_create = record { head = 0; tail = 0; size = 0; autofree = false }

-- `p ? p->item : NULL`.
unfoldable pub item_at : Heap → ℕ → Run ℕ
unfolding load
item_at h p = if p == 0 then ok 0 else (load h p >>= λ n. ok n.item)

unfoldable pub lkd_list_head : Heap → Option LkdList → Run ℕ
unfolding item_at
lkd_list_head h none = ok 0
lkd_list_head h (some self) = item_at h self.head

unfoldable pub lkd_list_tail : Heap → Option LkdList → Run ℕ
unfolding item_at
lkd_list_tail h none = ok 0
lkd_list_tail h (some self) = item_at h self.tail

-- `_lkd_list_node_create`, with what the caller then puts into the node.
abbrev pub new_node : ℕ → Node
new_node item = record { next = 0; item = item; free_fn = 0 }

-- `self->size++` and `self->size--`.
abbrev pub more : ℕ → ℕ
more n = (n + 1) % 2 ^ 64

abbrev pub less : ℕ → ℕ
less n = (n + 2 ^ 64 - 1) % 2 ^ 64

-- A string item is copied when the list owns its items; `strdup` gives the address that this call
-- returns for an item.
abbrev pub owned : LkdList → (ℕ → ℕ) → ℕ → ℕ
owned self strdup item = if self.autofree then strdup item else item

unfoldable pub link_last : Heap → LkdList → ℕ → Run (LkdList × Heap)
unfolding set_next
link_last h self node =
    if self.tail == 0
    then ok (record self { head = node; tail = node; size = more self.size }, h)
    else set_next h self.tail node >>= λ h'.
        ok (record self { tail = node; size = more self.size }, h')

-- `fresh` is the address that `malloc` returns.
unfoldable pub lkd_list_append :
    Heap → LkdList → (ℕ → ℕ) → (fresh item : ℕ) → Run (ListStatus × LkdList × Heap)
unfolding link_last
lkd_list_append h self strdup fresh item =
    if item == 0
    then ok (list_err, self, h)
    else if fresh == 0
    then ok (list_err, self, h)
    else link_last (write h fresh (some (new_node (owned self strdup item)))) self fresh
      >>= λ (self', h'). ok (list_ok, self', h')

-- The node is not initialised: `junk` is what its `free_fn` holds.
unfoldable pub lkd_list_push :
    Heap → LkdList → (ℕ → ℕ) → (junk fresh item : ℕ) → ListStatus × LkdList × Heap
lkd_list_push h self strdup junk fresh item =
    let node : Node = record { next = self.head; item = owned self strdup item; free_fn = junk } in
    let self' = record self {
      head = fresh;
      tail = if self.tail == 0 then fresh else self.tail;
      size = more self.size;
    } in
    if item == 0
    then (list_err, self, h)
    else if fresh == 0
    then (list_err, self, h)
    else (list_ok, self', write h fresh (some node))

-- With the node that `self->head` points at.
unfoldable pub pop_node : Heap → LkdList → Node → ℕ × LkdList × Heap
pop_node h self n = (
  n.item,
  record self {
    head = n.next;
    tail = if self.tail == self.head then 0 else self.tail;
    size = less self.size;
  },
  write h self.head none,
)

unfoldable pub lkd_list_pop : Heap → LkdList → Run (ℕ × LkdList × Heap)
unfolding load pop_node
lkd_list_pop h self =
    if self.head == 0 then ok (0, self, h) else (load h self.head >>= λ n. ok (pop_node h self n))
