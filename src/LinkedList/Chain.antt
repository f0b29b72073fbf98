-- ===== src/LinkedList/Chain.antt =====
-- The nodes of a list as the cells of a chain in the heap.
use mini_pubsub_broker.Base.{
  ℕ, ◌^◌, ◌≡◌, ◌≢◌, ◌<◌, refl, ap, ◌∙◌, sym, Bool, true, false, ◌||◌, Option, none, some, List, [],
  ◌∷◌, ◌++◌, ◌==◌, length, arith, ne→==, ==_refl,
}
use mini_pubsub_broker.Client.{ok, ◌>>=◌}
use mini_pubsub_broker.LinkedList.{Node, Heap, LkdList, write, load, set_next, free}

-- A node at its address, less its link.
pub record Cell : Type 0 where
  pub at : ℕ
  pub item : ℕ
  pub free_fn : ℕ

abbrev pub node_of : Cell → ℕ → Node
node_of c next = record { next = next; item = c.item; free_fn = c.free_fn }

-- Where a chain begins that is followed by an address, and where it ends behind one.
abbrev pub first : List Cell → ℕ → ℕ
first [] q = q
first (c ∷ xs) q = c.at

abbrev pub last_at : ℕ → List Cell → ℕ
last_at p [] = p
last_at p (c ∷ xs) = last_at c.at xs

abbrev pub last_cell : Cell → List Cell → Cell
last_cell c [] = c
last_cell c (d ∷ xs) = last_cell d xs

abbrev pub is_at : ℕ → List Cell → Bool
is_at a [] = false
is_at a (c ∷ xs) = c.at == a || is_at a xs

-- The cells stand in the heap, at addresses that differ, each linked to the next.
abbrev pub Chain : Heap → List Cell → ℕ → Type 0
Chain h [] q = Unit {0}
Chain h (c ∷ xs) q =
    (0 < c.at) × (h c.at ≡ some (node_of c (first xs q))) × (is_at c.at xs ≡ false) × Chain h xs q

-- A list holds just these cells.
pub record IsList (h : Heap) (l : LkdList) (xs : List Cell) : Type 0 where
  pub chain : Chain h xs 0
  pub head : l.head ≡ first xs 0
  pub tail : l.tail ≡ last_at 0 xs
  pub size : l.size ≡ length xs
  pub fits : length xs < 2 ^ 64

-- The heap is as it was, but at some cells.
abbrev pub SameOutside : List Cell → Heap → Heap → Type 0
SameOutside xs h g = (a : ℕ) → is_at a xs ≡ false → g a ≡ h a

pub load-some : (h : Heap) (p : ℕ) (n : Node) → 0 < p → h p ≡ some n → load h p ≡ ok n
unfolding load
load-some h p n pos e = ground arith

pub set_next-some :
    (h : Heap) (p q : ℕ) (n : Node)
    → 0 < p
    → h p ≡ some n
    → set_next h p q ≡ ok (write h p (some (record n { next = q })))
unfolding set_next
set_next-some h p q n pos e =
    ap (λ r. r >>= λ m. ok (write h p (some (record m { next = q })))) (load-some h p n pos e)

pub free-some :
    (h : Heap) (p : ℕ) (n : Node) → 0 < p → h p ≡ some n → free h p ≡ ok (write h p none)
unfolding free
free-some h p n pos e = ap (λ r. r >>= λ m. ok (write h p none)) (load-some h p n pos e)

-- A chain does not see what is written elsewhere.
pub Chain-write :
    (h : Heap) (p : ℕ) (n : Option Node) (xs : List Cell) (q : ℕ)
    → is_at p xs ≡ false
    → Chain h xs q
    → Chain (write h p n) xs q
Chain-write h p n [] q out chain = tt
Chain-write h p n (c ∷ xs) q out (positive, e, apart, chain) =
    (positive, ground arith, apart, Chain-write h p n xs q (ground arith) chain)

pub is_at-none :
    (h : Heap) (p : ℕ) (xs : List Cell) (q : ℕ) → h p ≡ none → Chain h xs q → is_at p xs ≡ false
is_at-none h p [] q e chain = refl
is_at-none h p (c ∷ xs) q e (positive, e', apart, chain) =
    ground (arith, is_at-none h p xs q e chain)

pub is_at-append : (a : ℕ) (xs ys : List Cell) → is_at a (xs ++ ys) ≡ (is_at a xs || is_at a ys)
is_at-append a [] ys = refl
is_at-append a (c ∷ xs) ys = ground (arith, is_at-append a xs ys)

pub first-append : (xs ys : List Cell) (q : ℕ) → first (xs ++ ys) q ≡ first xs (first ys q)
first-append [] ys q = refl
first-append (c ∷ xs) ys q = refl

pub last_at-append : (p : ℕ) (xs ys : List Cell) → last_at p (xs ++ ys) ≡ last_at (last_at p xs) ys
last_at-append p [] ys = refl
last_at-append p (c ∷ xs) ys = last_at-append c.at xs ys

pub last_at-last_cell : (c : Cell) (xs : List Cell) → last_at c.at xs ≡ (last_cell c xs).at
last_at-last_cell c [] = refl
last_at-last_cell c (d ∷ xs) = last_at-last_cell d xs

pub is_at-last_cell : (c : Cell) (xs : List Cell) → is_at (last_cell c xs).at (c ∷ xs) ≡ true
is_at-last_cell c [] = ground arith
is_at-last_cell c (d ∷ xs) = ground (arith, is_at-last_cell d xs)

-- The last node of a chain.
pub last_cell-points :
    (h : Heap) (c : Cell) (xs : List Cell) (q : ℕ)
    → Chain h (c ∷ xs) q
    → (0 < (last_cell c xs).at) × (h (last_cell c xs).at ≡ some (node_of (last_cell c xs) q))
last_cell-points h c [] q (positive, e, apart, chain) = (positive, e)
last_cell-points h c (d ∷ xs) q (positive, e, apart, chain) = last_cell-points h d xs q chain

pub ne_of_is_at : (a b : ℕ) (xs : List Cell) → is_at a xs ≡ false → is_at b xs ≡ true → a ≢ b
ne_of_is_at a b xs out within e = cc

-- A new link of the last node.
pub Chain-relink :
    (h : Heap) (c : Cell) (xs : List Cell) (q p : ℕ)
    → Chain h (c ∷ xs) q
    → Chain (write h (last_cell c xs).at (some (node_of (last_cell c xs) p))) (c ∷ xs) p
Chain-relink h c [] q p (positive, e, apart, chain) = (positive, ground arith, apart, tt)
Chain-relink h c (d ∷ xs) q p (positive, e, apart, chain) = (
  positive,
  rw
      (ne→== c.at (last_cell d xs).at
        (ne_of_is_at c.at (last_cell d xs).at (d ∷ xs) apart (is_at-last_cell d xs)))
      e,
  apart,
  Chain-relink h d xs q p chain,
)

-- Two chains are one if the first is followed by the second and they share no address.
pub Chain-append :
    (h : Heap) (xs ys : List Cell) (q : ℕ)
    → Chain h xs (first ys q)
    → Chain h ys q
    → ((a : ℕ) → is_at a xs ≡ true → is_at a ys ≡ false)
    → Chain h (xs ++ ys) q
Chain-append h [] ys q cx cy apart = cy
Chain-append h (c ∷ xs) ys q (positive, e, out, cx) cy apart = (
  positive,
  e ∙ ap (λ p. some (node_of c p)) (sym (first-append xs ys q)),
  is_at-append c.at xs ys ∙ ground (arith, apart c.at),
  Chain-append h xs ys q cx cy (λ a i. apart a (ground arith)),
)

pub Chain-front :
    (h : Heap) (xs ys : List Cell) (q : ℕ) → Chain h (xs ++ ys) q → Chain h xs (first ys q)
Chain-front h [] ys q chain = tt
Chain-front h (c ∷ xs) ys q (positive, e, out, chain) = (
  positive,
  e ∙ ap (λ p. some (node_of c p)) (first-append xs ys q),
  ground (arith, is_at-append c.at xs ys),
  Chain-front h xs ys q chain,
)

pub Chain-back : (h : Heap) (xs ys : List Cell) (q : ℕ) → Chain h (xs ++ ys) q → Chain h ys q
Chain-back h [] ys q chain = chain
Chain-back h (c ∷ xs) ys q (positive, e, out, chain) = Chain-back h xs ys q chain

-- The parts of a chain share no address.
pub Chain-apart :
    (h : Heap) (xs ys : List Cell) (q : ℕ)
    → Chain h (xs ++ ys) q
    → (a : ℕ) → is_at a xs ≡ true
    → is_at a ys ≡ false
Chain-apart h [] ys q chain a i = cc
Chain-apart h (c ∷ xs) ys q (positive, e, out, chain) a i =
    ground (arith, is_at-append c.at xs ys, Chain-apart h xs ys q chain a)

pub not_is_at-append :
    (a : ℕ) (xs ys : List Cell)
    → is_at a (xs ++ ys) ≡ false
    → (is_at a xs ≡ false) × (is_at a ys ≡ false)
not_is_at-append a xs ys h = ground (arith, is_at-append a xs ys)

pub ne_of_not_is_at : (a : ℕ) (c : Cell) (xs : List Cell) → is_at a (c ∷ xs) ≡ false → a ≢ c.at
ne_of_not_is_at a c xs h e = ground arith

-- What shares no address, seen from the second part.
pub not_is_at-apart :
    (a : ℕ) (xs ys : List Cell)
    → ((b : ℕ) → is_at b xs ≡ true → is_at b ys ≡ false)
    → is_at a ys ≡ true
    → is_at a xs ≡ false
not_is_at-apart a xs ys apart within = ground (arith, apart a)

pub is_at_head : (c : Cell) (xs : List Cell) → is_at c.at (c ∷ xs) ≡ true
is_at_head c xs = rw (==_refl c.at)

pub not_is_at-tail :
    (a : ℕ) (c : Cell) (xs : List Cell) → is_at a (c ∷ xs) ≡ false → is_at a xs ≡ false
not_is_at-tail a c xs h = ground arith

-- A chain in a heap that agrees at its addresses.
pub Chain-same :
    (h g : Heap) (xs : List Cell) (q : ℕ)
    → ((a : ℕ) → is_at a xs ≡ true → g a ≡ h a)
    → Chain h xs q
    → Chain g xs q
Chain-same h g [] q same chain = tt
Chain-same h g (c ∷ xs) q same (positive, e, out, chain) = (
  positive,
  same c.at (is_at_head c xs) ∙ e,
  out,
  Chain-same h g xs q (λ a i. same a (ground arith)) chain,
)

pub is_at_cons : (a : ℕ) (c : Cell) (xs : List Cell) → is_at a xs ≡ true → is_at a (c ∷ xs) ≡ true
is_at_cons a c xs h = ground arith
