-- ===== src/LinkedList/Dup.antt =====
-- `lkd_list_dup`: a second list with the same items, in nodes of its own.
use mini_pubsub_broker.Base.{
  ℕ, zero, suc, ◌+◌, ◌^◌, ◌≡◌, ◌≢◌, ◌<◌, ◌≤◌, refl, ap, ◌∙◌, sym, Bool, true, false, Option, none,
  some, List, [], ◌∷◌, ◌++◌, append_assoc, if◌then◌else◌, length, length-append, arith, ne→==,
  append-nil,
}
use mathlib.Core.Path.{subst}
use mini_pubsub_broker.Client.{Run, ok, ◌>>=◌}
use mini_pubsub_broker.LinkedList.{Heap, LkdList, Freed, owned, lkd_list_create, lkd_list_append}
use mini_pubsub_broker.LinkedList.Whole.{dup_next, dup_loop, lkd_list_dup}
use mini_pubsub_broker.LinkedList.Chain.{
  Cell, node_of, first, is_at, Chain, IsList, SameOutside, Chain-same, is_at-none, is_at-append,
  ne_of_is_at, not_is_at-append, is_at_cons,
}
use mini_pubsub_broker.LinkedList.Ends.{cell, lkd_list_append-append}

-- The nodes of the copy, from the `i`-th address that `malloc` returns on.
abbrev pub copies : (ℕ → ℕ → ℕ) → (ℕ → ℕ) → ℕ → List Cell → List Cell
copies strdup malloc i [] = []
copies strdup malloc i (c ∷ xs) =
    cell (malloc i) (strdup i c.item) 0 ∷ copies strdup malloc (i + 1) xs

abbrev pub HasItems : List Cell → Type 0
HasItems [] = Unit {0}
HasItems (c ∷ xs) = (0 < c.item) × HasItems xs

-- `malloc` returns addresses that differ, and that hold no node from the `i`-th call on.
pub record IsFresh (malloc : ℕ → ℕ) (h : Heap) (i : ℕ) : Type 0 where
  pub positive : (j : ℕ) → i ≤ j → 0 < malloc j
  pub unused : (j : ℕ) → i ≤ j → h (malloc j) ≡ none
  pub differ : (j k : ℕ) → j ≢ k → malloc j ≢ malloc k

dup_loop-next :
    (k : ℕ) (strdup : ℕ → ℕ → ℕ) (malloc : ℕ → ℕ) (i : ℕ) (h : Heap) (copy : LkdList) (c : Cell)
    (q : ℕ)
    → 0 < c.at
    → h c.at ≡ some (node_of c q)
    → dup_loop (suc k) strdup malloc i c.at h copy ≡ (
        lkd_list_append h copy (strdup i) (malloc i) c.item
        >>= dup_next (dup_loop k strdup malloc (i + 1) q))
unfolding dup_loop
dup_loop-next k strdup malloc i h copy c q positive e = rw (ne→== c.at 0 (omega arith), e)

-- The nodes that are still unused behind an append.
IsFresh-append :
    (malloc : ℕ → ℕ) (h g : Heap) (i item : ℕ) (ys : List Cell)
    → IsFresh malloc h i
    → Chain h ys 0
    → SameOutside (ys ++ (cell (malloc i) item 0 ∷ [])) h g
    → IsFresh malloc g (i + 1)
IsFresh-append malloc h g i item ys fresh chain same = record {
  positive = λ j le. fresh.positive j (omega arith);
  unused = λ j le.
      same (malloc j) (
        is_at-append (malloc j) ys (cell (malloc i) item 0 ∷ [])
        ∙ rw (
          is_at-none h (malloc j) ys 0 (fresh.unused j (omega arith)) chain,
          ne→== (malloc i) (malloc j) (fresh.differ i j (λ e. omega arith)),
        ))
      ∙ fresh.unused j (omega arith);
  differ = fresh.differ;
}

-- The loop with part of the list copied.
abbrev Copied :
    (ℕ → ℕ → ℕ)
    → (ℕ → ℕ)
    → ℕ
    → List Cell
    → List Cell
    → Heap
    → LkdList
    → Run (Option LkdList × Heap × List Freed)
    → Type 0
Copied strdup malloc i xs ys h copy r =
    let zs = ys ++ copies (λ j. owned copy (strdup j)) malloc i xs in
    (copy' : LkdList) × (g : Heap) × (r ≡ ok (some copy', g, []))
    × (copy'.autofree ≡ copy.autofree)
    × IsList g copy' zs
    × SameOutside zs h g

apart-append :
    (a m item : ℕ) (xs ys : List Cell)
    → is_at a ys ≡ false
    → is_at a xs ≡ true
    → is_at m xs ≡ false
    → is_at a (ys ++ (cell m item 0 ∷ [])) ≡ false
apart-append a m item xs ys out within new =
    is_at-append a ys (cell m item 0 ∷ []) ∙ rw (out, ne→== m a (ne_of_is_at m a xs new within))

-- One node is copied, and the loop goes on.
Copied-cons :
    (strdup : ℕ → ℕ → ℕ) (malloc : ℕ → ℕ) (i : ℕ) (c : Cell) (xs ys : List Cell) (h g : Heap)
    (copy copy' : LkdList) (r r' : Run (Option LkdList × Heap × List Freed))
    → r ≡ r'
    → copy'.autofree ≡ copy.autofree
    → SameOutside (ys ++ (cell (malloc i) (owned copy (strdup i) c.item) 0 ∷ [])) h g
    → Copied strdup malloc
        (i + 1)
        xs
        (ys ++ (cell (malloc i) (owned copy (strdup i) c.item) 0 ∷ []))
        g
        copy'
        r'
    → Copied strdup malloc i (c ∷ xs) ys h copy r
Copied-cons strdup malloc i c xs ys h g copy copy' r r' step kept same
      (copy'', g', runs, kept', is, same') =
    let new = cell (malloc i) (owned copy (strdup i) c.item) 0 in
    let e : (ys ++ (new ∷ [])) ++ copies (λ j. owned copy' (strdup j)) malloc (i + 1) xs
        ≡ ys ++ (new ∷ copies (λ j. owned copy (strdup j)) malloc (i + 1) xs) =
      append_assoc ys (new ∷ []) (copies (λ j. owned copy' (strdup j)) malloc (i + 1) xs)
      ∙ ap
          (λ b.
            ys ++ (new ∷ copies (λ j item. if b then strdup j item else item) malloc (i + 1) xs))
          kept in
    (
      copy'',
      g',
      step ∙ runs,
      kept' ∙ kept,
      subst (IsList g' copy'') e is,
      λ a o.
          let o' = ap (is_at a) e ∙ o in
          same' a o'
          ∙ same a
              (not_is_at-append a (ys ++ (new ∷ []))
                (copies (λ j. owned copy' (strdup j)) malloc (i + 1) xs) o').0,
    )

dup_loop-Copied :
    (xs : List Cell) (k : ℕ) (strdup : ℕ → ℕ → ℕ) (malloc : ℕ → ℕ) (i : ℕ) (ys : List Cell)
    (h : Heap) (copy : LkdList)
    → Chain h xs 0
    → HasItems xs
    → IsList h copy ys
    → ((a : ℕ) → is_at a xs ≡ true → is_at a ys ≡ false)
    → IsFresh malloc h i
    → length xs < k
    → length ys + length xs < 2 ^ 64
    → Copied strdup malloc i xs ys h copy (dup_loop k strdup malloc i (first xs 0) h copy)
unfolding dup_loop dup_next
dup_loop-Copied xs zero strdup malloc i ys h copy chain items is apart fresh fuel room =
    absurd (omega arith)
dup_loop-Copied [] (suc k) strdup malloc i ys h copy chain items is apart fresh fuel room =
    (copy, h, refl, refl, subst (IsList h copy) (sym (append-nil ys)) is, λ a o. refl)
dup_loop-Copied (c ∷ xs) (suc k) strdup malloc i ys h copy (positive, e, out, chain) items is apart
      fresh fuel room =
    let new = cell (malloc i) (owned copy (strdup i) c.item) 0 in
    let m_out : is_at (malloc i) (c ∷ xs) ≡ false =
      is_at-none h (malloc i) (c ∷ xs) 0 (fresh.unused i (omega arith)) (positive, e, out, chain) in
    let apart' = λ (a : ℕ) (within : is_at a (c ∷ xs) ≡ true).
      apart-append a (malloc i) (owned copy (strdup i) c.item) (c ∷ xs) ys (apart a within) within
        m_out in
    let (copy', g, runs, kept, is', same) =
      lkd_list_append-append h copy ys (strdup i) (malloc i) c.item is items.0
        (fresh.positive i (omega arith)) (fresh.unused i (omega arith)) (omega arith) in
    let rest =
      dup_loop-Copied xs k strdup malloc (i + 1) (ys ++ (new ∷ [])) g copy'
        (Chain-same h g xs 0 (λ a w. same a (apart' a (is_at_cons a c xs w))) chain) items.1 is'
        (λ a w. apart' a (is_at_cons a c xs w))
        (IsFresh-append malloc h g i (owned copy (strdup i) c.item) ys fresh is.chain same)
        (omega arith) (omega (arith, length-append ys (new ∷ []))) in
    Copied-cons strdup malloc i c xs ys h g copy copy' _ _
      (dup_loop-next k strdup malloc i h copy c (first xs 0) positive e
        ∙ ap (λ r. r >>= dup_next (dup_loop k strdup malloc (i + 1) (first xs 0))) runs)
      kept same rest

copies-apart :
    (strdup : ℕ → ℕ → ℕ) (malloc : ℕ → ℕ) (i : ℕ) (xs zs : List Cell) (a : ℕ)
    → ((j : ℕ) → i ≤ j → is_at (malloc j) zs ≡ false)
    → is_at a zs ≡ true
    → is_at a (copies strdup malloc i xs) ≡ false
copies-apart strdup malloc i [] zs a out within = refl
copies-apart strdup malloc i (c ∷ xs) zs a out within =
    rw (ne→== (malloc i) a (ne_of_is_at (malloc i) a zs (out i (omega arith)) within))
      (copies-apart strdup malloc (i + 1) xs zs a (λ j le. out j (omega arith)) within)

empty-IsList :
    (h : Heap) (autofree : Bool) → IsList h (record lkd_list_create { autofree = autofree }) []
unfolding lkd_list_create
empty-IsList h autofree = record {
  chain = tt;
  head = refl;
  tail = refl;
  size = refl;
  fits = omega arith;
}

-- A copy of a list holds the same items in order, or copies of them, each at the address that its own
-- call of `strdup` returns, where the list owns its items,
-- in new nodes without free functions; the list itself is as it was, and so is the rest of the
-- heap.
pub lkd_list_dup-copies :
    (h : Heap) (l : LkdList) (xs : List Cell) (strdup : ℕ → ℕ → ℕ) (malloc : ℕ → ℕ)
    → IsList h l xs
    → HasItems xs
    → IsFresh malloc h 0
    → let zs = copies (λ j. owned l (strdup j)) malloc 0 xs in
      (copy : LkdList) × (g : Heap) × (lkd_list_dup h (some l) strdup malloc
        ≡ ok (some copy, g, []))
      × (copy.autofree ≡ l.autofree)
      × IsList g copy zs
      × IsList g l xs
      × SameOutside zs h g
unfolding lkd_list_dup
lkd_list_dup-copies h l xs strdup malloc is items fresh =
    let c0 : LkdList = record lkd_list_create { autofree = l.autofree } in
    let (copy, g, runs, kept, is', same) =
      dup_loop-Copied xs (l.size + 1) strdup malloc 0 [] h c0 is.chain items
        (empty-IsList h l.autofree) (λ a w. refl) fresh (omega (arith, is.size))
        (omega (arith, is.fits)) in
    (
      copy,
      g,
      ap (λ p. dup_loop (l.size + 1) strdup malloc 0 p h c0) is.head ∙ runs,
      kept,
      is',
      record {
        chain =
            Chain-same h g xs 0
              (λ a w. same a (
                copies-apart (λ j. owned l (strdup j)) malloc 0 xs xs a
                  (λ j le. is_at-none h (malloc j) xs 0 (fresh.unused j le) is.chain) w))
              is.chain;
        head = is.head;
        tail = is.tail;
        size = is.size;
        fits = is.fits;
      },
      same,
    )
