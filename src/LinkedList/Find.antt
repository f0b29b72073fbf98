-- ===== src/LinkedList/Find.antt =====
-- The loop of `lkd_list_remove` that looks for an item.
use mini_pubsub_broker.Base.{
  ℕ, zero, suc, ◌+◌, ◌≡◌, ◌≢◌, ◌<◌, refl, ap, ◌∙◌, some, List, [], ◌∷◌, ◌++◌, length, arith, ne→==,
  ==_refl,
}
use mini_pubsub_broker.Client.{ok, ◌>>=◌}
use mini_pubsub_broker.LinkedList.{Heap, LkdList, list_err}
use mini_pubsub_broker.LinkedList.Whole.{find_node, remove_node, lkd_list_remove}
use mini_pubsub_broker.LinkedList.Chain.{Cell, node_of, first, last_at, Chain, IsList}

-- No node of the list has the item.
abbrev pub Lacks : ℕ → List Cell → Type 0
Lacks item [] = Unit {0}
Lacks item (c ∷ xs) = (c.item ≢ item) × Lacks item xs

find_node-hit :
    (k : ℕ) (h : Heap) (item prev : ℕ) (c : Cell) (q : ℕ)
    → 0 < c.at
    → h c.at ≡ some (node_of c q)
    → c.item ≡ item
    → find_node (suc k) h item prev c.at ≡ ok (prev, c.at)
unfolding find_node
find_node-hit k h item prev c q positive e hit =
    rw (ne→== c.at 0 (omega arith), e, hit, ==_refl item)

find_node-next :
    (k : ℕ) (h : Heap) (item prev : ℕ) (c : Cell) (q : ℕ)
    → 0 < c.at
    → h c.at ≡ some (node_of c q)
    → c.item ≢ item
    → find_node (suc k) h item prev c.at ≡ find_node k h item c.at q
unfolding find_node
find_node-next k h item prev c q positive e miss =
    rw (ne→== c.at 0 (omega arith), e, ne→== c.item item miss)

-- The loop comes to the first node with the item, with the node in front of it.
pub find_node-first :
    (k : ℕ) (h : Heap) (item prev : ℕ) (pre : List Cell) (c : Cell) (post : List Cell)
    → Chain h (pre ++ (c ∷ post)) 0
    → Lacks item pre
    → c.item ≡ item
    → length pre < k
    → find_node k h item prev (first (pre ++ (c ∷ post)) 0) ≡ ok (last_at prev pre, c.at)
find_node-first zero h item prev pre c post chain lacks hit fuel = absurd (omega arith)
find_node-first (suc k) h item prev [] c post (positive, e, _, _) lacks hit fuel =
    find_node-hit k h item prev c (first post 0) positive e hit
find_node-first (suc k) h item prev (b ∷ pre) c post (positive, e, out, chain) lacks hit fuel =
    find_node-next k h item prev b (first (pre ++ (c ∷ post)) 0) positive e lacks.0
    ∙ find_node-first k h item b.at pre c post chain lacks.1 hit (omega arith)

find_node-none :
    (k : ℕ) (h : Heap) (item prev : ℕ) (xs : List Cell)
    → Chain h xs 0
    → Lacks item xs
    → length xs < k
    → find_node k h item prev (first xs 0) ≡ ok (last_at prev xs, 0)
unfolding find_node
find_node-none zero h item prev xs chain lacks fuel = absurd (omega arith)
find_node-none (suc k) h item prev [] chain lacks fuel = refl
find_node-none (suc k) h item prev (c ∷ xs) (positive, e, out, chain) lacks fuel =
    find_node-next k h item prev c (first xs 0) positive e lacks.0
    ∙ find_node-none k h item c.at xs chain lacks.1 (omega arith)

-- An item that the list lacks: nothing changes.
pub lkd_list_remove-Lacks :
    (h : Heap) (l : LkdList) (xs : List Cell) (item : ℕ)
    → IsList h l xs
    → Lacks item xs
    → lkd_list_remove h l item ≡ ok (list_err, l, h, [])
unfolding lkd_list_remove remove_node
lkd_list_remove-Lacks h l xs item is lacks =
    ap (λ p. find_node (l.size + 1) h item 0 p >>= remove_node h l) is.head
    ∙ ap (λ r. r >>= remove_node h l)
        (find_node-none (l.size + 1) h item 0 xs is.chain lacks (omega (arith, is.size)))
