-- ===== src/LinkedList/Release.antt =====
-- `lkd_list_release`: every node is freed, and every item is given back.
use mini_pubsub_broker.Base.{
  ℕ, zero, suc, ◌+◌, ◌≡◌, ◌<◌, refl, ap, ◌∙◌, Bool, none, some, List, [], ◌∷◌, ◌++◌, if◌then◌else◌,
  length, arith, ne→==, ◌^◌,
}
use mini_pubsub_broker.Client.{ok, ◌>>=◌}
use mini_pubsub_broker.LinkedList.{Heap, LkdList, Freed, by_fn, write, owned, lkd_list_push}
use mini_pubsub_broker.LinkedList.Whole.{release_loop, lkd_list_release}
use mini_pubsub_broker.LinkedList.Chain.{Cell, node_of, first, is_at, Chain, IsList, Chain-write}
use mini_pubsub_broker.LinkedList.Ends.{cell, lkd_list_push-cons}
use mini_pubsub_broker.LinkedList.Remove.{given_back}

-- The items in the order of their nodes.
abbrev pub all_given_back : Bool → List Cell → List Freed
all_given_back autofree [] = []
all_given_back autofree (c ∷ xs) = given_back autofree c ++ all_given_back autofree xs

release_loop-next :
    (k : ℕ) (h : Heap) (autofree : Bool) (c : Cell) (q : ℕ)
    → 0 < c.at
    → h c.at ≡ some (node_of c q)
    → release_loop (suc k) h autofree c.at ≡ (
        release_loop k (write h c.at none) autofree q >>= λ (g, freed).
        ok (g, given_back autofree c ++ freed))
unfolding release_loop
release_loop-next k h autofree c q positive e = rw (ne→== c.at 0 (omega arith), e)

-- The heap less the nodes of a list.
abbrev pub Without : List Cell → Heap → Heap → Type 0
Without xs h g = (a : ℕ) → g a ≡ (if is_at a xs then none else h a)

Without-cons :
    (c : Cell) (xs : List Cell) (h g : Heap)
    → Without xs (write h c.at none) g
    → Without (c ∷ xs) h g
Without-cons c xs h g without a = ground (arith, without a)

release_loop-Without :
    (k : ℕ) (h : Heap) (autofree : Bool) (xs : List Cell)
    → Chain h xs 0
    → length xs < k
    → (g : Heap) × (release_loop k h autofree (first xs 0) ≡ ok (g, all_given_back autofree xs))
      × Without xs h g
unfolding release_loop
release_loop-Without zero h autofree xs chain fuel = absurd (omega arith)
release_loop-Without (suc k) h autofree [] chain fuel = (h, refl, λ a. refl)
release_loop-Without (suc k) h autofree (c ∷ xs) (positive, e, out, chain) fuel =
    let (g, runs, without) =
      release_loop-Without k (write h c.at none) autofree xs
        (Chain-write h c.at none xs 0 out chain) (omega arith) in
    (
      g,
      release_loop-next k h autofree c (first xs 0) positive e
          ∙ ap (λ r. r >>= λ (g, freed). ok (g, given_back autofree c ++ freed)) runs,
      Without-cons c xs h g without,
    )

-- A release frees exactly the nodes of the list, gives back each item once and in order, and
-- leaves NULL in the caller's pointer.
pub lkd_list_release-Without :
    (h : Heap) (l : LkdList) (xs : List Cell)
    → IsList h l xs
    → (g : Heap) × (lkd_list_release h (some l) ≡ ok (none, g, all_given_back l.autofree xs))
      × Without xs h g
unfolding lkd_list_release
lkd_list_release-Without h l xs is =
    let (g, runs, without) =
      release_loop-Without (l.size + 1) h l.autofree xs is.chain (omega (arith, is.size)) in
    (
      g,
      ap (λ p. release_loop (l.size + 1) h l.autofree p >>= λ (h', freed). ok (none, h', freed))
            is.head
          ∙ ap (λ r. r >>= λ (h', freed). ok (none, h', freed)) runs,
      without,
    )

-- A pushed node whose memory held some other number than 0 where its free function stands: the
-- release of the list calls that address as a function, on the item.
pub lkd_list_release-push :
    (h : Heap) (l : LkdList) (xs : List Cell) (strdup : ℕ → ℕ) (junk fresh item : ℕ)
    → IsList h l xs
    → 0 < item
    → 0 < fresh
    → h fresh ≡ none
    → length xs + 1 < 2 ^ 64
    → 0 < junk
    → (g : Heap) × ((ok (lkd_list_push h l strdup junk fresh item) >>= λ (status, l', h').
          lkd_list_release h' (some l'))
        ≡ ok (none, g, by_fn junk (owned l strdup item) ∷ all_given_back l.autofree xs))
lkd_list_release-push h l xs strdup junk fresh item is some_item positive unused room held =
    let (l', h', pushed, kept, is', same) =
      lkd_list_push-cons h l xs strdup junk fresh item is some_item positive unused room in
    let c = cell fresh (owned l strdup item) junk in
    let (g, runs, without) = lkd_list_release-Without h' l' (c ∷ xs) is' in
    (
      g,
      ap (λ r. r >>= λ (status, l', h'). lkd_list_release h' (some l')) pushed
          ∙ runs
          ∙ ap (λ b. ok (none, g, all_given_back b (c ∷ xs))) kept
          ∙ rw (ne→== junk 0 (omega arith)),
    )
