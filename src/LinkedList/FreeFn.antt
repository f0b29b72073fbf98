-- ===== src/LinkedList/FreeFn.antt =====
-- `lkd_list_set_freefn`: the function of the first node with an item, or of the last node.
use mini_pubsub_broker.Base.{
  ℕ, zero, suc, ◌+◌, ◌≡◌, ◌<◌, refl, ap, ◌∙◌, sym, false, some, List, [], ◌∷◌, ◌++◌, length,
  length-append, arith, ne→==, ==_refl,
}
use mini_pubsub_broker.Client.{ok}
use mini_pubsub_broker.LinkedList.{Heap, LkdList, write}
use mini_pubsub_broker.LinkedList.Whole.{set_fn, lkd_list_set_freefn}
use mini_pubsub_broker.LinkedList.Chain.{
  Cell, node_of, first, is_at, Chain, IsList, SameOutside, Chain-write, last_at-append,
  ne_of_not_is_at, not_is_at-append,
}
use mini_pubsub_broker.LinkedList.Find.{Lacks}

abbrev pub with_fn : Cell → ℕ → Cell
with_fn c fn = record c { free_fn = fn }

set_fn-first :
    (k : ℕ) (h : Heap) (item fn : ℕ) (pre : List Cell) (c : Cell) (post : List Cell)
    → Chain h (pre ++ (c ∷ post)) 0
    → Lacks item pre
    → c.item ≡ item
    → length pre < k
    → set_fn k h item fn (first (pre ++ (c ∷ post)) 0)
      ≡ ok (item, write h c.at (some (node_of (with_fn c fn) (first post 0))))
unfolding set_fn
set_fn-first zero h item fn pre c post chain lacks hit fuel = absurd (omega arith)
set_fn-first (suc k) h item fn [] c post (positive, e, _, _) lacks hit fuel =
    rw (ne→== c.at 0 (omega arith), e, hit, ==_refl item)
set_fn-first (suc k) h item fn (b ∷ pre) c post (positive, e, _, chain) lacks hit fuel =
    rw (ne→== b.at 0 (omega arith), e, ne→== b.item item lacks.0)
      (set_fn-first k h item fn pre c post chain lacks.1 hit (omega arith))

first-with_fn :
    (pre : List Cell) (c : Cell) (fn : ℕ) (post : List Cell) (q : ℕ)
    → first (pre ++ (c ∷ post)) q ≡ first (pre ++ (with_fn c fn ∷ post)) q
first-with_fn [] c fn post q = refl
first-with_fn (b ∷ pre) c fn post q = refl

is_at-with_fn :
    (a : ℕ) (pre : List Cell) (c : Cell) (fn : ℕ) (post : List Cell)
    → is_at a (pre ++ (with_fn c fn ∷ post)) ≡ is_at a (pre ++ (c ∷ post))
is_at-with_fn a [] c fn post = refl
is_at-with_fn a (b ∷ pre) c fn post = rw (is_at-with_fn a pre c fn post)

Chain-with_fn :
    (h : Heap) (pre : List Cell) (c : Cell) (fn : ℕ) (post : List Cell) (q : ℕ)
    → Chain h (pre ++ (c ∷ post)) q
    → Chain
        (write h c.at (some (node_of (with_fn c fn) (first post q))))
        (pre ++ (with_fn c fn ∷ post))
        q
Chain-with_fn h [] c fn post q (positive, e, out, chain) =
    (positive, rw (==_refl c.at), out, Chain-write h c.at _ post q out chain)
Chain-with_fn h (b ∷ pre) c fn post q (positive, e, out, chain) =
    let (_, out_c) = not_is_at-append b.at pre (c ∷ post) out in
    (
      positive,
      rw (ne→== b.at c.at (ne_of_not_is_at b.at c post out_c))
          (e ∙ ap (λ p. some (node_of b p)) (first-with_fn pre c fn post q)),
      is_at-with_fn b.at pre c fn post ∙ out,
      Chain-with_fn h pre c fn post q chain,
    )

-- From the head: the function is set at the first node with the item, and nothing else changes.
pub lkd_list_set_freefn-first :
    (h : Heap) (l : LkdList) (pre : List Cell) (c : Cell) (post : List Cell) (item fn : ℕ)
    → IsList h l (pre ++ (c ∷ post))
    → Lacks item pre
    → c.item ≡ item
    → (g : Heap) × (lkd_list_set_freefn h l item fn false ≡ ok (item, g))
      × IsList g l (pre ++ (with_fn c fn ∷ post))
      × SameOutside (c ∷ []) h g
unfolding lkd_list_set_freefn
lkd_list_set_freefn-first h l pre c post item fn is lacks hit =
    let longer = length-append pre (c ∷ post) in
    let same_length = length-append pre (with_fn c fn ∷ post) in
    (
      write h c.at (some (node_of (with_fn c fn) (first post 0))),
      ap (λ p. set_fn (l.size + 1) h item fn p) is.head
          ∙ set_fn-first (l.size + 1) h item fn pre c post is.chain lacks hit
              (omega (arith, is.size)),
      record {
        chain = Chain-with_fn h pre c fn post 0 is.chain;
        head = is.head ∙ first-with_fn pre c fn post 0;
        tail =
            is.tail
            ∙ last_at-append 0 pre (c ∷ post)
            ∙ sym (last_at-append 0 pre (with_fn c fn ∷ post));
        size = omega (arith, is.size);
        fits = omega (arith, is.fits);
      },
      λ a o. rw (ne→== a c.at (ne_of_not_is_at a c [] o)),
    )
