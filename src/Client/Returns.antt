-- ===== src/Client/Returns.antt =====
-- What a run returns, if it returns.
use mini_pubsub_broker.Base.{◌≤◌, ◌≡◌, refl, Bool, true, false, length, if◌then◌else◌}
use mathlib.Core.Path.{subst}
use mini_pubsub_broker.Client.{
  Run, ok, fault, exit, out_of_fuel, ◌>>=◌, SubClient, sub_write_buf_len,
}

abbrev pub Returns {ℓ κ} : {A : Type ℓ} → (A → Type κ) → Run A → Type κ
Returns P (ok a) = P a
Returns P fault = Unit
Returns P exit = Unit
Returns P out_of_fuel = Unit

pub Returns-bind {ℓ κ μ ν} :
    {A : Type ℓ} {B : Type κ} (Q : A → Type μ) (P : B → Type ν) (m : Run A) (k : A → Run B)
    → Returns Q m
    → ((a : A) → Q a → Returns P (k a))
    → Returns P (m >>= k)
Returns-bind Q P (ok a) k q h = h a q
Returns-bind Q P fault k q h = tt
Returns-bind Q P exit k q h = tt
Returns-bind Q P out_of_fuel k q h = tt

pub Returns-if {ℓ κ} :
    {A : Type ℓ} (P : A → Type κ) (c : Bool) (x y : Run A)
    → (c ≡ true → Returns P x)
    → (c ≡ false → Returns P y)
    → Returns P (if c then x else y)
Returns-if P true x y f g = f refl
Returns-if P false x y f g = g refl

pub Returns-any {ℓ} : {A : Type ℓ} (m : Run A) → Returns (λ a. Unit {0}) m
Returns-any (ok a) = tt
Returns-any fault = tt
Returns-any exit = tt
Returns-any out_of_fuel = tt

pub of_Returns {ℓ κ} :
    {A : Type ℓ} (P : A → Type κ) (m : Run A) (a : A) → Returns P m → m ≡ ok a → P a
of_Returns P m a h e = subst (Returns P) e h

pub if_both {ℓ κ} :
    {A : Type ℓ} (P : A → Type κ) (c : Bool) (x y : A) → P x → P y → P (if c then x else y)
if_both P true x y f g = f
if_both P false x y f g = g

-- The write buffer of a connection holds no more than its array.
abbrev pub Fits : SubClient → Type 0
Fits c = length c.wbuf ≤ sub_write_buf_len

-- What a run does not fail to return.
abbrev pub Gives {ℓ} : {A : Type ℓ} → (A → Type 0) → Run A → Type 0
Gives P (ok a) = P a
Gives P fault = ⊥
Gives P exit = ⊥
Gives P out_of_fuel = ⊥

-- Any value.
abbrev pub Any {ℓ} : {A : Type ℓ} → A → Type 0
Any a = Unit

pub Gives-bind {ℓ κ} :
    {A : Type ℓ} {B : Type κ} (Q : A → Type 0) (P : B → Type 0) (m : Run A) (k : A → Run B)
    → Gives Q m
    → ((a : A) → Q a → Gives P (k a))
    → Gives P (m >>= k)
Gives-bind Q P (ok a) k q h = h a q
Gives-bind Q P fault k q h = absurd q
Gives-bind Q P exit k q h = absurd q
Gives-bind Q P out_of_fuel k q h = absurd q

pub Gives-if {ℓ} :
    {A : Type ℓ} (P : A → Type 0) (c : Bool) (x y : Run A)
    → (c ≡ true → Gives P x)
    → (c ≡ false → Gives P y)
    → Gives P (if c then x else y)
Gives-if P true x y f g = f refl
Gives-if P false x y f g = g refl

pub of_Gives {ℓ} :
    {A : Type ℓ} (P : A → Type 0) (m : Run A) → Gives P m → (a : A) × (m ≡ ok a) × P a
of_Gives P (ok a) h = (a, refl, h)
of_Gives P fault h = absurd h
of_Gives P exit h = absurd h
of_Gives P out_of_fuel h = absurd h
