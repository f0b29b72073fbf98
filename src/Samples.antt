-- ===== src/Samples.antt =====
-- Concrete libraries, with which the theorems about any libraries are applied in the tests.
pub mod Keys
pub mod Tables
pub mod Tries
use mini_pubsub_broker.Base.{
  ℕ, suc, ◌+◌, ◌≡◌, ◌≢◌, refl, ap, ◌∙◌, sym, Bool, true, false, not, ◌&&◌, ◌||◌, Option, none, some,
  List, [], ◌∷◌, ◌++◌, append-nil, append_assoc, Bytes, take, drop, ℤ, pos, negsuc, ◌==◌,
  if◌then◌else◌, arith, Bool-cases, inl, inr, leb, map,
}
use mathlib.Core.Path.{subst}
use mini_pubsub_broker.Number.Print.{print}
use mini_pubsub_broker.Libc.{cr, lf}
use mini_pubsub_broker.Sds.{Sds}
use mini_pubsub_broker.Libevent.{Libevent}
use mini_pubsub_broker.Ght.{Ght, Insert, inserted, exists}
use mini_pubsub_broker.Datrie.{Datrie}
use mini_pubsub_broker.Broker.{Libraries}
use mini_pubsub_broker.Samples.Tables.{ght}
use mini_pubsub_broker.Samples.Tries.{datrie}

abbrev pub range : Bytes → ℤ → ℤ → Bytes
range s (pos n) last = drop n s
range s (negsuc n) last = s

abbrev pub lower : ℕ → ℕ
lower b = if leb b'A' b && leb b b'Z' then b + 32 else b

-- The split knows lines of one word only.
abbrev pub sds : Sds
sds = record {
  sdsnewlen = λ s n. take n s;
  sdsrange = range;
  sdssplitargs = λ s. some (s ∷ []);
  sdstolower = map lower;
  sdsclear = λ s. [];
  sdsclear-nil = λ s. refl;
  sdscatprintf_len = λ n. b'$' ∷ (print n ++ (cr ∷ lf ∷ []));
  sdscatvprintf = λ before arg after. before ++ (arg ++ after);
  sdscatvprintf-append = λ before arg after h h' h''. refl;
  sdsnewlen-take = λ s n h. refl;
  sdsrange-drop = λ s n. refl;
  sdscatprintf_len-print = λ n. refl;
}

abbrev pub libevent : Libevent
libevent = record { event_new = λ fd e. true; event_add = λ fd e. true }

-- A text in ASCII as UCS-4LE.
abbrev pub wide : Bytes → ℕ → Bytes
wide [] n = []
wide (b ∷ s) n = b ∷ 0 ∷ 0 ∷ 0 ∷ wide s n

abbrev pub libs : Libraries
libs = record { sds = sds; libevent = libevent; ght = ght; datrie = datrie; iconv = wide }

-- The letters `a` to `z` and `A` to `Z`.
abbrev pub letters : ℕ → Bool
letters a = (leb 97 a && leb a 122) || (leb 65 a && leb a 90)
