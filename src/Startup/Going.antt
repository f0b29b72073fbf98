-- ===== src/Startup/Going.antt =====
-- What a process holds that goes on.
use mini_pubsub_broker.Base.{◌≡◌, refl, Bool, true, false, if◌then◌else◌}
use mini_pubsub_broker.Client.{Run, ok, fault, exit, out_of_fuel}
use mini_pubsub_broker.Config.{Settings, ConfigStatus, config_ok, config_err}
use mini_pubsub_broker.Startup.{Process, running, exited, crashed, ◌>>=◌, loaded}

-- What a process that goes on holds.
abbrev pub Holds {ℓ κ} : {A : Type ℓ} → (A → Type κ) → Process A → Type κ
Holds P (running a) = P a
Holds P (exited n) = Unit
Holds P crashed = Unit

pub Holds-bind {ℓ κ μ ν} :
    {A : Type ℓ} {B : Type κ} (Q : A → Type μ) (P : B → Type ν) (m : Process A) (k : A → Process B)
    → Holds Q m
    → ((a : A) → Q a → Holds P (k a))
    → Holds P (m >>= k)
Holds-bind Q P (running a) k q h = h a q
Holds-bind Q P (exited n) k q h = tt
Holds-bind Q P crashed k q h = tt

pub Holds-if {ℓ κ} :
    {A : Type ℓ} (P : A → Type κ) (c : Bool) (x y : Process A)
    → (c ≡ true → Holds P x)
    → (c ≡ false → Holds P y)
    → Holds P (if c then x else y)
Holds-if P true x y f g = f refl
Holds-if P false x y f g = g refl

pub Holds-map {ℓ κ μ} :
    {A : Type ℓ} (Q : A → Type κ) (P : A → Type μ) (m : Process A)
    → ((a : A) → Q a → P a)
    → Holds Q m
    → Holds P m
Holds-map Q P (running a) h q = h a q
Holds-map Q P (exited n) h q = tt
Holds-map Q P crashed h q = tt

pub Holds-self {ℓ} : {A : Type ℓ} (m : Process A) → Holds (λ a. m ≡ running a) m
Holds-self (running a) = refl
Holds-self (exited n) = tt
Holds-self crashed = tt

pub loaded-Holds :
    (r : Run (ConfigStatus × Settings)) → Holds (λ cfg. r ≡ ok (config_ok, cfg)) (loaded r)
unfolding loaded
loaded-Holds (ok (config_ok, cfg)) = refl
loaded-Holds (ok (config_err, cfg)) = tt
loaded-Holds fault = tt
loaded-Holds exit = tt
loaded-Holds out_of_fuel = tt
