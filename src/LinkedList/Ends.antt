-- ===== src/LinkedList/Ends.antt =====
-- `lkd_list_append`, `lkd_list_push` and `lkd_list_pop` on a list.
use mini_pubsub_broker.Base.{
  ℕ, ◌+◌, ◌^◌, ◌≡◌, ◌<◌, refl, ap, ◌∙◌, sym, Bool, none, some, List, [], ◌∷◌, ◌++◌, ◌==◌,
  if◌then◌else◌, length, length-append, arith, ne→==, ==_refl,
}
use mini_pubsub_broker.Client.{Run, ok, ◌>>=◌}
use mini_pubsub_broker.LinkedList.{
  Node, Heap, LkdList, ListStatus, list_ok, write, new_node, owned, more, link_last,
  lkd_list_append, lkd_list_push, lkd_list_pop, pop_node,
}
use mini_pubsub_broker.LinkedList.Chain.{
  Cell, node_of, first, last_at, last_cell, is_at, IsList, SameOutside, Chain-write, is_at-none,
  last_at-append, last_at-last_cell, is_at-last_cell, last_cell-points, ne_of_is_at, Chain-relink,
  not_is_at-append, ne_of_not_is_at, Chain-append,
}

abbrev pub cell : ℕ → ℕ → ℕ → Cell
cell at item free_fn = record { at = at; item = item; free_fn = free_fn }

-- The outcome of an insertion: the list with these cells, and no other address written.
abbrev pub Inserted : Heap → Bool → List Cell → Run (ListStatus × LkdList × Heap) → Type 0
Inserted h autofree xs r =
    (l : LkdList) × (g : Heap) × (r ≡ ok (list_ok, l, g))
    × (l.autofree ≡ autofree)
    × IsList g l xs
    × SameOutside xs h g

link_last-tail :
    (h : Heap) (l : LkdList) (p : ℕ) (n : Node)
    → 0 < l.tail
    → h l.tail ≡ some n
    → link_last h l p
      ≡ ok
          (record l { tail = p; size = more l.size }, write h l.tail (some (record n { next = p })))
unfolding link_last
link_last-tail h l p n positive e = rw (ne→== l.tail 0 (omega arith), e)

module _ (h : Heap) (fresh item : ℕ) (positive : 0 < fresh) (unused : h fresh ≡ none) where
  abbrev with_node : Heap
  with_node = write h fresh (some (new_node item))

  abbrev appended : List Cell → List Cell
  appended xs = xs ++ (cell fresh item 0 ∷ [])

  -- Behind a last node.
  link_last-cons :
      (l : LkdList) (c : Cell) (xs : List Cell)
      → IsList h l (c ∷ xs)
      → length (c ∷ xs) + 1 < 2 ^ 64
      → (l' : LkdList) × (g : Heap) × (link_last with_node l fresh ≡ ok (l', g))
        × (l'.autofree ≡ l.autofree)
        × IsList g l' (appended (c ∷ xs))
        × SameOutside (appended (c ∷ xs)) h g
  unfolding link_last
  link_last-cons l c xs is room =
      let longer = length-append (c ∷ xs) (cell fresh item 0 ∷ []) in
      let grown : more l.size ≡ length (appended (c ∷ xs)) = omega (arith, longer) in
      let bound : length (appended (c ∷ xs)) < 2 ^ 64 = omega (arith, longer) in
      let d = last_cell c xs in
      let out = is_at-none h fresh (c ∷ xs) 0 unused is.chain in
      let before = Chain-write h fresh (some (new_node item)) (c ∷ xs) 0 out is.chain in
      let (d_pos, d_node) = last_cell-points with_node c xs 0 before in
      let at_tail : l.tail ≡ d.at = is.tail ∙ last_at-last_cell c xs in
      let ne = ne_of_is_at fresh d.at (c ∷ xs) out (is_at-last_cell c xs) in
      let g = write with_node d.at (some (node_of d fresh)) in
      let l' = record l { tail = fresh; size = more l.size } in
      let new : g fresh ≡ some (new_node item) = rw (ne→== fresh d.at ne, ==_refl fresh) in
      (
        l',
        g,
        link_last-tail with_node l fresh (node_of d 0) (omega arith) (ap with_node at_tail ∙ d_node)
            ∙ ap (λ p. ok (l', write with_node p (some (node_of d fresh)))) at_tail,
        refl,
        record {
          chain =
              Chain-append g (c ∷ xs) (cell fresh item 0 ∷ []) 0
                (Chain-relink with_node c xs 0 fresh before) (positive, new, refl, tt)
                (λ a i. rw (ne→== fresh a (ne_of_is_at fresh a (c ∷ xs) out i)));
          head = is.head;
          tail = sym (last_at-append 0 (c ∷ xs) (cell fresh item 0 ∷ []));
          size = grown;
          fits = bound;
        },
        λ a o.
            let (o_xs, o_new) = not_is_at-append a (c ∷ xs) (cell fresh item 0 ∷ []) o in
            rw (
              ne→== a d.at (ne_of_is_at a d.at (c ∷ xs) o_xs (is_at-last_cell c xs)),
              ne→== a fresh (ne_of_not_is_at a (cell fresh item 0) [] o_new),
            ),
      )

  link_last-nil :
      (l : LkdList)
      → IsList h l []
      → (l' : LkdList) × (g : Heap) × (link_last with_node l fresh ≡ ok (l', g))
        × (l'.autofree ≡ l.autofree)
        × IsList g l' (appended [])
        × SameOutside (appended []) h g
  unfolding link_last
  link_last-nil l is = (
    record l { head = fresh; tail = fresh; size = more l.size },
    with_node,
    rw is.tail,
    refl,
    record {
      chain = (positive, rw (==_refl fresh), refl, tt);
      head = refl;
      tail = refl;
      size = omega arith;
      fits = omega arith;
    },
    λ a o. rw (ne→== a fresh (ne_of_not_is_at a (cell fresh item 0) [] o)),
  )

  link_last-appended :
      (l : LkdList) (xs : List Cell)
      → IsList h l xs
      → length xs + 1 < 2 ^ 64
      → (l' : LkdList) × (g : Heap) × (link_last with_node l fresh ≡ ok (l', g))
        × (l'.autofree ≡ l.autofree)
        × IsList g l' (appended xs)
        × SameOutside (appended xs) h g
  link_last-appended l [] is room = link_last-nil l is
  link_last-appended l (c ∷ xs) is room = link_last-cons l c xs is room

-- An append to a list: the item, or its copy where the list owns its items, stands in a new last
-- node, and only the node that was last is written besides.
pub lkd_list_append-append :
    (h : Heap) (l : LkdList) (xs : List Cell) (strdup : ℕ → ℕ) (fresh item : ℕ)
    → IsList h l xs
    → 0 < item
    → 0 < fresh
    → h fresh ≡ none
    → length xs + 1 < 2 ^ 64
    → Inserted h l.autofree
        (xs ++ (cell fresh (owned l strdup item) 0 ∷ []))
        (lkd_list_append h l strdup fresh item)
unfolding lkd_list_append
lkd_list_append-append h l xs strdup fresh item is some_item positive unused room =
    let (l', g, runs, kept, is', same) =
      link_last-appended h fresh (owned l strdup item) positive unused l xs is room in
    (
      l',
      g,
      rw (ne→== item 0 (omega arith), ne→== fresh 0 (omega arith))
          (ap (λ r. r >>= λ (self', h'). ok (list_ok, self', h')) runs),
      kept,
      is',
      same,
    )

push_tail :
    (h : Heap) (l : LkdList) (xs : List Cell) (fresh : ℕ)
    → IsList h l xs
    → (if l.tail == 0 then fresh else l.tail) ≡ last_at fresh xs
push_tail h l [] fresh is = rw is.tail
push_tail h l (c ∷ xs) fresh is =
    let (positive, _) = last_cell-points h c xs 0 is.chain in
    let at_tail : l.tail ≡ (last_cell c xs).at = is.tail ∙ last_at-last_cell c xs in
    rw (ne→== l.tail 0 (omega arith)) is.tail

-- A push onto a list: a new first node, whose free function is what the memory held.
pub lkd_list_push-cons :
    (h : Heap) (l : LkdList) (xs : List Cell) (strdup : ℕ → ℕ) (junk fresh item : ℕ)
    → IsList h l xs
    → 0 < item
    → 0 < fresh
    → h fresh ≡ none
    → length xs + 1 < 2 ^ 64
    → Inserted h l.autofree
        (cell fresh (owned l strdup item) junk ∷ xs)
        (ok (lkd_list_push h l strdup junk fresh item))
unfolding lkd_list_push
lkd_list_push-cons h l xs strdup junk fresh item is some_item positive unused room =
    let out = is_at-none h fresh xs 0 unused is.chain in
    (
      record l { head = fresh; tail = if l.tail == 0 then fresh else l.tail; size = more l.size },
      write h fresh (some (node_of (cell fresh (owned l strdup item) junk) l.head)),
      rw (ne→== item 0 (omega arith), ne→== fresh 0 (omega arith)),
      refl,
      record {
        chain = (
          positive,
          rw (==_refl fresh, is.head),
          out,
          Chain-write h fresh (some (node_of (cell fresh (owned l strdup item) junk) l.head)) xs 0
              out is.chain,
        );
        head = refl;
        tail = push_tail h l xs fresh is;
        size = omega (arith, is.size);
        fits = omega arith;
      },
      λ a o. rw (ne→== a fresh (ne_of_not_is_at a (cell fresh item junk) xs o)),
    )

-- What is left behind a pop.
pub record Popped (h : Heap) (c : Cell) (xs : List Cell) (item : ℕ) (l : LkdList) (g : Heap)
    : Type 0 where
  pub got : item ≡ c.item
  pub left : IsList g l xs
  pub gone : g c.at ≡ none
  pub same : SameOutside (c ∷ []) h g

pop_tail :
    (h : Heap) (l : LkdList) (c : Cell) (xs : List Cell)
    → IsList h l (c ∷ xs)
    → (if l.tail == l.head then 0 else l.tail) ≡ last_at 0 xs
pop_tail h l c [] is = let e : l.tail ≡ l.head = is.tail ∙ sym is.head in rw (e, ==_refl l.head)
pop_tail h l c (d ∷ xs) is =
    let at_tail : l.tail ≡ (last_cell d xs).at = is.tail ∙ last_at-last_cell d xs in
    let ne = ne_of_is_at c.at (last_cell d xs).at (d ∷ xs) is.chain.2 (is_at-last_cell d xs) in
    rw (ne→== l.tail l.head (λ e. ne (sym is.head ∙ sym e ∙ at_tail))) is.tail

-- A pop yields the first item, unlinks and frees its node, and writes nowhere else.
pub lkd_list_pop-cons :
    (h : Heap) (l : LkdList) (c : Cell) (xs : List Cell)
    → IsList h l (c ∷ xs)
    → (item : ℕ) × (l' : LkdList) × (g : Heap) × (lkd_list_pop h l ≡ ok (item, l', g))
      × Popped h c xs item l' g
unfolding lkd_list_pop pop_node
lkd_list_pop-cons h l c xs is =
    let (positive, e, out, chain) = is.chain in
    let n = node_of c (first xs 0) in
    let (item, l', g) = pop_node h l n in
    (
      item,
      l',
      g,
      rw (ne→== l.head 0 (omega (arith, is.head)), ap h is.head ∙ e),
      record {
        got = refl;
        left = record {
          chain = Chain-write h l.head none xs 0 (ap (λ a. is_at a xs) is.head ∙ out) chain;
          head = refl;
          tail = pop_tail h l c xs is;
          size = omega (arith, is.size, is.fits);
          fits = omega (arith, is.fits);
        };
        gone = rw (is.head, ==_refl c.at);
        same = λ a o. rw (is.head, ne→== a c.at (ne_of_not_is_at a c [] o));
      },
    )
