-- ===== src/Tests/LinkedList.antt =====
-- Lists of two nodes.
use mini_pubsub_broker.Base.{
  ◌*◌, ℕ, ◌+◌, ◌≡◌, refl, true, false, none, some, List, [], ◌∷◌, ◌++◌, ◌==◌, if◌then◌else◌, arith,
  ne→==,
}
use mini_pubsub_broker.Client.{ok, ◌>>=◌}
use mini_pubsub_broker.LinkedList.{Heap, LkdList, by_fn, lkd_list_append, lkd_list_push}
use mini_pubsub_broker.LinkedList.Whole.{lkd_list_remove, lkd_list_release, lkd_list_dup}
use mini_pubsub_broker.LinkedList.Chain.{Cell, IsList, SameOutside}
use mini_pubsub_broker.LinkedList.Ends.{cell, Inserted, lkd_list_append-append}
use mini_pubsub_broker.LinkedList.Remove.{Removes, lkd_list_remove-first}
use mini_pubsub_broker.LinkedList.Release.{
  Without, all_given_back, lkd_list_release-Without, lkd_list_release-push,
}
use mini_pubsub_broker.LinkedList.Dup.{copies, lkd_list_dup-copies}

abbrev cells : List Cell
cells = cell 10 101 0 ∷ cell 20 102 7 ∷ []

abbrev heap : Heap
heap = λ q.
    if q == 10
    then some (record { next = 20; item = 101; free_fn = 0 })
    else if q == 20
    then some (record { next = 0; item = 102; free_fn = 7 })
    else none

abbrev list : LkdList
list = record { head = 10; tail = 20; size = 2; autofree = false }

list-IsList : IsList heap list cells
list-IsList = record {
  chain = (omega arith, refl, refl, (omega arith, refl, refl, tt));
  head = refl;
  tail = refl;
  size = refl;
  fits = omega arith;
}

abbrev strdup : ℕ → ℕ
strdup item = item + 1000

lkd_list_append-append_example :
    Inserted heap false (cells ++ (cell 30 103 0 ∷ [])) (lkd_list_append heap list strdup 30 103)
lkd_list_append-append_example =
    lkd_list_append-append heap list cells strdup 30 103 list-IsList (omega arith) (omega arith)
      refl (omega arith)

lkd_list_remove-first_example :
    Removes heap false (cell 10 101 0 ∷ []) (cell 20 102 7) [] (lkd_list_remove heap list 102)
lkd_list_remove-first_example =
    lkd_list_remove-first heap list (cell 10 101 0 ∷ []) (cell 20 102 7) [] 102 list-IsList
      (omega arith, tt) refl

lkd_list_release-Without_example :
    (g : Heap) × (lkd_list_release heap (some list) ≡ ok (none, g, all_given_back false cells))
    × Without cells heap g
lkd_list_release-Without_example = lkd_list_release-Without heap list cells list-IsList

lkd_list_release-push_example :
    (g : Heap) × ((ok (lkd_list_push heap list strdup 9 30 103) >>= λ (status, l', h').
    lkd_list_release h' (some l'))
      ≡ ok (none, g, by_fn 9 103 ∷ all_given_back false cells))
lkd_list_release-push_example =
    lkd_list_release-push heap list cells strdup 9 30 103 list-IsList (omega arith) (omega arith)
      refl (omega arith) (omega arith)

abbrev malloc : ℕ → ℕ
malloc i = i + 30

heap_unused : (j : ℕ) → heap (malloc j) ≡ none
heap_unused j = rw (ne→== (malloc j) 10 (λ e. omega arith), ne→== (malloc j) 20 (λ e. omega arith))

-- Each call has an address of its own.
abbrev strdups : ℕ → ℕ → ℕ
strdups i item = item + 1000 * (i + 1)

-- The list, which owns its items.
abbrev owning : LkdList
owning = record list { autofree = true }

owning-IsList : IsList heap owning cells
owning-IsList = record {
  chain = list-IsList.chain;
  head = list-IsList.head;
  tail = list-IsList.tail;
  size = list-IsList.size;
  fits = list-IsList.fits;
}

lkd_list_dup-copies_example :
    let zs = copies strdups malloc 0 cells in
    (copy : LkdList) × (g : Heap) × (lkd_list_dup heap (some owning) strdups malloc
      ≡ ok (some copy, g, []))
    × (copy.autofree ≡ true)
    × IsList g copy zs
    × IsList g owning cells
    × SameOutside zs heap g
lkd_list_dup-copies_example =
    lkd_list_dup-copies heap owning cells strdups malloc owning-IsList
      (omega arith, (omega arith, tt))
      (record {
        positive = λ j le. omega arith;
        unused = λ j le. heap_unused j;
        differ = λ j k ne e. ne (omega arith);
      })
