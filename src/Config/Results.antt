-- ===== src/Config/Results.antt =====
-- Inversion of a successful chain.
use llama_swap.Base.{◌≡◌, refl, Bool, true, false}
use llama_swap.Config.Types.{Result, ok, err, ◌>>=◌, ConfigError, guard}

pub bind_ok {ℓ κ} :
    {A : Type ℓ} {B : Type κ} (first : Result A) (next : A → Result B) {b : B}
    → (first >>= next) ≡ ok b
    → (a : A) × (first ≡ ok a) × (next a ≡ ok b)
bind_ok (err why) next h = cc
bind_ok (ok a) next h = (a, refl, h)

pub ok_injective {ℓ} : {A : Type ℓ} {a b : A} → ok a ≡ ok b → a ≡ b
ok_injective h = cc

pub guard_ok : (b : Bool) (e : ConfigError) {u : Unit {0}} → guard b e ≡ ok u → b ≡ true
guard_ok true e h = refl
guard_ok false e h = cc
