-- ===== src/LinkedList/Remove.antt =====
-- `lkd_list_remove` on a list: the first node with the item goes, and is given back.
use mini_pubsub_broker.Base.{
  ℕ, ◌+◌, ◌≡◌, ◌≢◌, ◌<◌, refl, ap, ◌∙◌, sym, Bool, false, none, some, List, [], ◌∷◌, ◌++◌, ◌==◌,
  if◌then◌else◌, length-append, arith, ne→==, ==_refl,
}
use mini_pubsub_broker.Client.{Run, ok, ◌>>=◌}
use mini_pubsub_broker.LinkedList.{Heap, LkdList, ListStatus, list_ok, Freed, write, less}
use mini_pubsub_broker.LinkedList.Whole.{find_node, release, remove_node, lkd_list_remove}
use mini_pubsub_broker.LinkedList.Find.{Lacks, find_node-first}
use mini_pubsub_broker.LinkedList.Chain.{
  Cell, node_of, first, last_at, last_cell, is_at, Chain, IsList, SameOutside, Chain-write,
  last_at-append, last_at-last_cell, is_at-last_cell, last_cell-points, ne_of_is_at,
  not_is_at-append, is_at_head, not_is_at-tail, not_is_at-apart, ne_of_not_is_at, Chain-relink,
  Chain-append, Chain-front, Chain-back, Chain-apart,
}

-- What becomes of the item of a cell.
abbrev pub given_back : Bool → Cell → List Freed
given_back autofree c = release autofree (node_of c 0)

-- The tail of the list without the node.
remove_tail :
    (h : Heap) (l : LkdList) (pre : List Cell) (c : Cell) (post : List Cell)
    → IsList h l (pre ++ (c ∷ post))
    → (if first post 0 == 0 then last_at 0 pre else l.tail) ≡ last_at 0 (pre ++ post)
remove_tail h l pre c [] is = sym (last_at-append 0 pre [])
remove_tail h l pre c (d ∷ post) is =
    let (_, _, _, next) = Chain-back h pre (c ∷ (d ∷ post)) 0 is.chain in
    rw (ne→== d.at 0 (omega (arith, next.0)))
      (is.tail ∙ last_at-append 0 pre (c ∷ (d ∷ post)) ∙ sym (last_at-append 0 pre (d ∷ post)))

-- What is left behind a removal.
pub record Removed (h : Heap) (pre : List Cell) (c : Cell) (post : List Cell) (l : LkdList)
    (g : Heap) : Type 0 where
  pub left : IsList g l (pre ++ post)
  pub gone : g c.at ≡ none
  pub same : SameOutside (pre ++ (c ∷ post)) h g

remove_node-head :
    (h : Heap) (l : LkdList) (c : Cell) (q : ℕ)
    → 0 < c.at
    → h c.at ≡ some (node_of c q)
    → remove_node h l (0, c.at)
      ≡ ok (
        list_ok,
        record l { head = q; tail = if q == 0 then 0 else l.tail; size = less l.size },
        write h c.at none,
        given_back l.autofree c,
      )
unfolding remove_node
remove_node-head h l c q positive e = rw (ne→== c.at 0 (omega arith), e)

remove_node-behind :
    (h : Heap) (l : LkdList) (d c : Cell) (q : ℕ)
    → 0 < d.at
    → 0 < c.at
    → c.at ≢ d.at
    → h d.at ≡ some (node_of d c.at)
    → h c.at ≡ some (node_of c q)
    → remove_node h l (d.at, c.at)
      ≡ ok (
        list_ok,
        record l { tail = if q == 0 then d.at else l.tail; size = less l.size },
        write (write h d.at (some (node_of d q))) c.at none,
        given_back l.autofree c,
      )
unfolding remove_node
remove_node-behind h l d c q d_pos c_pos ne ed ec =
    rw (ne→== c.at 0 (omega arith), ec, ne→== d.at 0 (omega arith), ed, ne→== c.at d.at ne, ec)

-- A run that removes a node from between two parts of a list.
abbrev pub Removes :
    Heap
    → Bool
    → List Cell
    → Cell
    → List Cell
    → Run (ListStatus × LkdList × Heap × List Freed)
    → Type 0
Removes h autofree pre c post r =
    (l : LkdList) × (g : Heap) × (r ≡ ok (list_ok, l, g, given_back autofree c))
    × Removed h pre c post l g

remove_node-first :
    (h : Heap) (l : LkdList) (c : Cell) (post : List Cell)
    → IsList h l (c ∷ post)
    → Removes h l.autofree [] c post (remove_node h l (0, c.at))
remove_node-first h l c post is =
    let (positive, e, out, chain) = is.chain in
    (
      record l {
        head = first post 0;
        tail = if first post 0 == 0 then 0 else l.tail;
        size = less l.size;
      },
      write h c.at none,
      remove_node-head h l c (first post 0) positive e,
      record {
        left = record {
          chain = Chain-write h c.at none post 0 out chain;
          head = refl;
          tail = remove_tail h l [] c post is;
          size = omega (arith, is.size, is.fits);
          fits = omega (arith, is.fits);
        };
        gone = rw (==_refl c.at);
        same = λ a o. rw (ne→== a c.at (ne_of_not_is_at a c post o));
      },
    )

remove_node-inside :
    (h : Heap) (l : LkdList) (b : Cell) (bs : List Cell) (c : Cell) (post : List Cell)
    → IsList h l (b ∷ (bs ++ (c ∷ post)))
    → Removes h l.autofree (b ∷ bs) c post (remove_node h l (last_at b.at bs, c.at))
remove_node-inside h l b bs c post is =
    let pre = b ∷ bs in
    let d = last_cell b bs in
    let q = first post 0 in
    let front : Chain h pre c.at = Chain-front h pre (c ∷ post) 0 is.chain in
    let (positive, e, out, back) = Chain-back h pre (c ∷ post) 0 is.chain in
    let apart = Chain-apart h pre (c ∷ post) 0 is.chain in
    let (d_pos, d_node) = last_cell-points h b bs c.at front in
    let d_in = is_at-last_cell b bs in
    let c_out : is_at c.at pre ≡ false =
      not_is_at-apart c.at pre (c ∷ post) apart (is_at_head c post) in
    let g1 = write h d.at (some (node_of d q)) in
    let g = write g1 c.at none in
    let longer = length-append pre (c ∷ post) in
    let shorter = length-append pre post in
    (
      record l { tail = if q == 0 then d.at else l.tail; size = less l.size },
      g,
      ap (λ p. remove_node h l (p, c.at)) (last_at-last_cell b bs)
          ∙ remove_node-behind h l d c q d_pos positive (ne_of_is_at c.at d.at pre c_out d_in)
              d_node e,
      record {
        left = record {
          chain =
              Chain-append g pre post 0
                (Chain-write g1 c.at none pre q c_out (Chain-relink h b bs c.at q front))
                (Chain-write g1 c.at none post 0 out (
                  Chain-write h d.at (some (node_of d q)) post 0
                    (not_is_at-tail d.at c post (apart d.at d_in)) back))
                (λ a i. not_is_at-tail a c post (apart a i));
          head = is.head;
          tail =
              ap (λ (p : ℕ). if q == 0 then p else l.tail) (sym (last_at-last_cell b bs))
              ∙ remove_tail h l pre c post is;
          size = omega (arith, is.size, is.fits, longer, shorter);
          fits = omega (arith, is.fits, longer, shorter);
        };
        gone = rw (==_refl c.at);
        same = λ a o.
            let (o_pre, o_post) = not_is_at-append a pre (c ∷ post) o in
            rw (
              ne→== a c.at (ne_of_not_is_at a c post o_post),
              ne→== a d.at (ne_of_is_at a d.at pre o_pre d_in),
            );
      },
    )

remove_node-Removes :
    (h : Heap) (l : LkdList) (pre : List Cell) (c : Cell) (post : List Cell)
    → IsList h l (pre ++ (c ∷ post))
    → Removes h l.autofree pre c post (remove_node h l (last_at 0 pre, c.at))
remove_node-Removes h l [] c post is = remove_node-first h l c post is
remove_node-Removes h l (b ∷ bs) c post is = remove_node-inside h l b bs c post is

-- A list of which some node is the first with the item: the node is unlinked and freed, its item
-- is given back by its own function or, where the list owns its items, by `free`, and no other
-- node is lost.
pub lkd_list_remove-first :
    (h : Heap) (l : LkdList) (pre : List Cell) (c : Cell) (post : List Cell) (item : ℕ)
    → IsList h l (pre ++ (c ∷ post))
    → Lacks item pre
    → c.item ≡ item
    → Removes h l.autofree pre c post (lkd_list_remove h l item)
unfolding lkd_list_remove
lkd_list_remove-first h l pre c post item is lacks hit =
    let looked =
      ap (λ p. find_node (l.size + 1) h item 0 p) is.head
      ∙ find_node-first (l.size + 1) h item 0 pre c post is.chain lacks hit
          (omega (arith, is.size, length-append pre (c ∷ post))) in
    let (l', g, runs, removed) = remove_node-Removes h l pre c post is in
    (l', g, ap (λ r. r >>= remove_node h l) looked ∙ runs, removed)
