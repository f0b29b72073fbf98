-- ===== src/Client.antt =====
-- The subscriber's connection of src/protocol/subcli.c: its state, its argument vector, its life.
pub mod Returns
pub mod Create
use mini_pubsub_broker.Base.{
  ℕ, zero, suc, ◌+◌, ◌*◌, ◌≡◌, refl, Bool, Option, none, some, List, [], ◌∷◌, Bytes, length, set,
  replicate, false, ltb, if◌then◌else◌,
}

-- What a call may do: return, touch memory that it does not own, call `exit`, or (a loop of the
-- model) use up its fuel.
pub data Run {ℓ} (A : Type ℓ) : Type ℓ where
  ok : A → Run A
  fault : Run A
  exit : Run A
  out_of_fuel : Run A

infixl 5 ◌>>=◌ ◌>>◌
abbrev pub ◌>>=◌ {ℓ κ} : {A : Type ℓ} {B : Type κ} → Run A → (A → Run B) → Run B
ok a >>= k = k a
fault >>= k = fault
exit >>= k = exit
out_of_fuel >>= k = out_of_fuel

abbrev pub ◌>>◌ {ℓ} : {B : Type ℓ} → Run (Unit {0}) → Run B → Run B
m >> k = m >>= λ _. k

pub bind_assoc {ℓ κ μ} :
    {A : Type ℓ} {B : Type κ} {C : Type μ} (m : Run A) (f : A → Run B) (g : B → Run C)
    → (m >>= f) >>= g ≡ m >>= (λ a. f a >>= g)
bind_assoc (ok a) f g = refl
bind_assoc fault f g = refl
bind_assoc exit f g = refl
bind_assoc out_of_fuel f g = refl

-- `SUBCLI_OK` and `SUBCLI_ERR`.
pub data Status : Type 0 where
  subcli_ok subcli_err : Status

-- The limits of src/constant.h.
abbrev pub sub_read_buf_len : ℕ
sub_read_buf_len = 1024 * 16

abbrev pub sub_write_buf_len : ℕ
sub_write_buf_len = 1024 * 16

abbrev pub max_inline_read : ℕ
max_inline_read = 1024 * 16

abbrev pub max_bulk_len : ℕ
max_bulk_len = 1024 * 16

abbrev pub req_inline : ℕ
req_inline = 1

abbrev pub req_multibulk : ℕ
req_multibulk = 2

-- The events that are registered for a socket, without `EV_PERSIST`, which never changes.
pub record Events : Type 0 where
  pub ev_read : Bool
  pub ev_write : Bool
  pub ev_persist : Bool

-- `sub_client`. `ev_pending` says whether `ev` stands in the event loop, `wbuf` is the part of the
-- array in front of `wbufpos`, `bulk_len` is `none` at -1, and `argv` is the allocated array, with
-- `none` at a slot that holds no string yet. `argc` is an `int` that `sub_cli_create` does not set:
-- that the memory of a new connection holds no negative number there is an assumption.
pub record SubClient : Type 0 where
  pub fd : ℕ
  pub id : Bytes
  pub ev : Events
  pub ev_pending : Bool
  pub read_buf : Bytes
  pub wbuf : Bytes
  pub req_type : ℕ
  pub multi_bulk_len : ℕ
  pub bulk_len : Option ℕ
  pub argc : ℕ
  pub argv : List (Option Bytes)

-- `c->argv = malloc(sizeof(sds) * n)`.
abbrev pub alloc_argv : ℕ → SubClient → SubClient
alloc_argv n c = record c { argv = replicate n none }

-- `c->argv[c->argc++] = s`.
unfoldable pub push_arg : Bytes → SubClient → Run SubClient
push_arg s c =
    if ltb c.argc (length c.argv)
    then ok (record c { argv = set c.argv c.argc (some s); argc = c.argc + 1 })
    else fault

-- `sdsfree(c->argv[i])` for `i` below a number, on a copy of the array that forgets freed strings.
unfoldable pub free_args : ℕ → List (Option Bytes) → Run (Unit {0})
free_args zero argv = ok tt
free_args (suc n) [] = fault
free_args (suc n) (none ∷ argv) = fault
free_args (suc n) (some s ∷ argv) = free_args n argv

-- `free(c->argv)` leaves no slot that may be used.
unfoldable pub free_client_argv : SubClient → Run SubClient
unfolding free_args
free_client_argv c =
    free_args c.argc c.argv
    >> ok (record c { argc = 0; argv = if ltb 0 c.argc then [] else c.argv })

unfoldable pub reset_client : SubClient → Run SubClient
unfolding free_client_argv
reset_client c = do
  c' ← free_client_argv c
  ok (record c' { req_type = 0; multi_bulk_len = 0; bulk_len = none })
