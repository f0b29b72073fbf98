-- ===== src/LinkedList/Whole.antt =====
-- The operations of src/common/list.c that go through a list: remove, set_freefn, release, dup.
use mini_pubsub_broker.Base.{
  ℕ, zero, suc, ◌+◌, Bool, true, Option, none, some, List, [], ◌∷◌, ◌++◌, ◌==◌, if◌then◌else◌,
}
use mini_pubsub_broker.Client.{Run, ok, out_of_fuel, ◌>>=◌}
use mini_pubsub_broker.LinkedList.{
  Node, Heap, LkdList, ListStatus, list_ok, list_err, Freed, by_free, by_fn, write, load, set_next,
  free, less, lkd_list_create, lkd_list_append,
}

-- The loop that looks for an item, with the node behind the one that it comes to.
unfoldable pub find_node : ℕ → Heap → (item prev node : ℕ) → Run (ℕ × ℕ)
unfolding load
find_node zero h item prev node = out_of_fuel
find_node (suc k) h item prev node =
    if node == 0
    then ok (prev, node)
    else (load h node >>= λ n.
        let rest = find_node k h item node n.next in
        if n.item == item then ok (prev, node) else rest)

-- How the item of a node is given back.
abbrev pub release : Bool → Node → List Freed
release autofree n =
    if n.free_fn == 0
    then (if autofree then by_free n.item ∷ [] else [])
    else by_fn n.free_fn n.item ∷ []

-- `prev ? prev->next = next : self->head = next`.
unfoldable pub unlink : Heap → LkdList → (prev next : ℕ) → Run (LkdList × Heap)
unfolding set_next
unlink h self prev next =
    if prev == 0
    then ok (record self { head = next }, h)
    else (set_next h prev next >>= λ h'. ok (self, h'))

unfoldable pub remove_node : Heap → LkdList → ℕ × ℕ → Run (ListStatus × LkdList × Heap × List Freed)
unfolding load unlink free
remove_node h self (prev, node) = if node == 0 then ok (list_err, self, h, []) else do
  n ← load h node
  (self', h') ← unlink h self prev n.next
  h'' ← free h' node
  ok (
    list_ok,
    record self' { tail = if n.next == 0 then prev else self'.tail; size = less self'.size },
    h'',
    release self.autofree n,
  )

-- The loop takes at most one round more than there are nodes.
unfoldable pub lkd_list_remove : Heap → LkdList → ℕ → Run (ListStatus × LkdList × Heap × List Freed)
unfolding find_node remove_node
lkd_list_remove h self item = find_node (self.size + 1) h item 0 self.head >>= remove_node h self

-- The loop over the nodes from an address.
unfoldable pub set_fn : ℕ → Heap → (item fn node : ℕ) → Run (ℕ × Heap)
unfolding load
set_fn zero h item fn node = out_of_fuel
set_fn (suc k) h item fn node =
    if node == 0
    then ok (0, h)
    else (load h node >>= λ n.
        let rest = set_fn k h item fn n.next in
        if n.item == item then ok (item, write h node (some (record n { free_fn = fn }))) else rest)

unfoldable pub lkd_list_set_freefn : Heap → LkdList → (item fn : ℕ) → Bool → Run (ℕ × Heap)
unfolding set_fn
lkd_list_set_freefn h self item fn at_tail =
    set_fn (self.size + 1) h item fn (if at_tail then self.tail else self.head)

unfoldable pub release_loop : ℕ → Heap → Bool → ℕ → Run (Heap × List Freed)
unfolding load free
release_loop zero h autofree node = out_of_fuel
release_loop (suc k) h autofree node = if node == 0 then ok (h, []) else do
  n ← load h node
  h' ← free h node
  (h'', freed) ← release_loop k h' autofree n.next
  ok (h'', release autofree n ++ freed)

-- The list is gone behind it, and the caller's pointer is NULL.
unfoldable pub lkd_list_release : Heap → Option LkdList → Run (Option LkdList × Heap × List Freed)
unfolding release_loop
lkd_list_release h none = ok (none, h, [])
lkd_list_release h (some self) =
    release_loop (self.size + 1) h self.autofree self.head >>= λ (h', freed). ok (none, h', freed)

unfoldable pub lkd_list_size : LkdList → ℕ
lkd_list_size self = self.size

unfoldable pub lkd_list_autofree : Option LkdList → Option LkdList
lkd_list_autofree none = none
lkd_list_autofree (some self) = some (record self { autofree = true })

-- What follows an append to the copy: the next node, or the end of the copy.
unfoldable pub dup_next :
    (Heap → LkdList → Run (Option LkdList × Heap × List Freed))
    → ListStatus × LkdList × Heap
    → Run (Option LkdList × Heap × List Freed)
unfolding lkd_list_release
dup_next next (list_ok, copy, h) = next h copy
dup_next next (list_err, copy, h) = lkd_list_release h (some copy)

-- `malloc i` is what the call for the `i`-th node returns, and `strdup i` the call for its item.
unfoldable pub dup_loop :
    ℕ
    → (ℕ → ℕ → ℕ)
    → (ℕ → ℕ)
    → (i node : ℕ) → Heap
    → LkdList
    → Run (Option LkdList × Heap × List Freed)
unfolding load dup_next
dup_loop zero strdup malloc i node h copy = out_of_fuel
dup_loop (suc k) strdup malloc i node h copy = if node == 0 then ok (some copy, h, []) else do
  n ← load h node
  r ← lkd_list_append h copy (strdup i) (malloc i) n.item
  dup_next (dup_loop k strdup malloc (i + 1) n.next) r

unfoldable pub lkd_list_dup :
    Heap → Option LkdList → (ℕ → ℕ → ℕ) → (ℕ → ℕ) → Run (Option LkdList × Heap × List Freed)
unfolding dup_loop lkd_list_create
lkd_list_dup h none strdup malloc = ok (none, h, [])
lkd_list_dup h (some self) strdup malloc =
    dup_loop (self.size + 1) strdup malloc 0 self.head h
      (record lkd_list_create { autofree = self.autofree })
