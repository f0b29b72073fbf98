-- ===== src/Client/Create.antt =====
-- `sub_cli_create` of src/protocol/subcli.c.
use mini_pubsub_broker.Base.{
  ℕ, zero, suc, ◌+◌, ◌≡◌, ◌≤◌, refl, ap, ◌∙◌, false, none, [], ◌∷◌, ◌++◌, Bytes, length, take, set,
  length-append, pos, arith, codes,
}
use mini_pubsub_broker.Client.{Run, ok, ◌>>=◌, SubClient}
use mini_pubsub_broker.ObjectId.{create_objectid}
use mini_pubsub_broker.ObjectId.Parts.{create_objectid-parts}

-- `CLIENT_ID_LEN`.
abbrev pub client_id_len : ℕ
client_id_len = 24

-- What a new connection meets: the old contents of its block and of the block of its id, the time
-- and the process. The block's `argc` is taken as not negative.
pub record Origin : Type 0 where
  pub junk : SubClient
  pub memory : ℕ → ℕ
  pub tv_sec : ℕ
  pub pid : ℕ

-- A block of some bytes of memory.
unfoldable pub malloc : ℕ → (ℕ → ℕ) → Bytes
malloc zero memory = []
malloc (suc n) memory = memory 0 ∷ malloc n (λ i. memory (suc i))

-- The fields that the code does not set hold what the memory held. `id` is the first CLIENT_ID_LEN
-- bytes of its block, and `c->ev` is NULL, an event of nothing in no loop.
unfoldable pub sub_cli_create : Origin → ℕ → ℕ → Run SubClient
unfolding malloc
sub_cli_create o fd inc_counter = do
  id ←
      create_objectid o.tv_sec o.pid (pos inc_counter)
        (set (malloc (client_id_len + 1) o.memory) client_id_len 0)
  ok (record o.junk {
    fd = fd;
    id = take client_id_len id;
    ev = record { ev_read = false; ev_write = false; ev_persist = false };
    ev_pending = false;
    read_buf = [];
    wbuf = [];
    multi_bulk_len = 0;
    bulk_len = none;
  })

length-malloc : (n : ℕ) (memory : ℕ → ℕ) → length (malloc n memory) ≡ n
unfolding malloc
length-malloc zero memory = refl
length-malloc (suc n) memory = ap suc (length-malloc n (λ i. memory (suc i)))

length-set : (xs : Bytes) (i v : ℕ) → length (set xs i v) ≡ length xs
length-set [] i v = refl
length-set (x ∷ xs) zero v = refl
length-set (x ∷ xs) (suc i) v = ap suc (length-set xs i v)

length-take : (n : ℕ) (xs : Bytes) → n ≤ length xs → length (take n xs) ≡ n
length-take zero xs h = refl
length-take (suc n) [] h = absurd (omega arith)
length-take (suc n) (x ∷ xs) h = ap suc (length-take n xs (omega arith))

-- A new connection with its socket and its id.
abbrev pub created : Origin → ℕ → Bytes → SubClient
created o fd id = record o.junk {
  fd = fd;
  id = id;
  ev = record { ev_read = false; ev_write = false; ev_persist = false };
  ev_pending = false;
  read_buf = [];
  wbuf = [];
  multi_bulk_len = 0;
  bulk_len = none;
}

-- A connection is always made, with an id of 24 bytes.
pub sub_cli_create-created :
    (o : Origin) (fd n : ℕ)
    → (id : Bytes) × (sub_cli_create o fd n ≡ ok (created o fd id)) × (length id ≡ client_id_len)
unfolding sub_cli_create
sub_cli_create-created o fd n =
    let block = set (malloc (client_id_len + 1) o.memory) client_id_len 0 in
    let (a, b, c, e, (la, lb, lc), _) =
      create_objectid-parts o.tv_sec o.pid (pos n) block
        (length-set (malloc 25 o.memory) 24 0 ∙ length-malloc 25 o.memory) in
    let whole = a ++ (codes "ffffff" ++ (b ++ (c ++ (0 ∷ [])))) in
    (
      take client_id_len whole,
      ap (λ r. r >>= λ id. ok (created o fd (take client_id_len id))) e,
      length-take 24 whole (
          omega (
            arith,
            length-append a (codes "ffffff" ++ (b ++ (c ++ (0 ∷ [])))),
            length-append b (c ++ (0 ∷ [])),
            length-append c (0 ∷ []),
          )),
    )
