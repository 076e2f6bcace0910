-- ===== src/Base/Runs.antt =====
-- What a run of kernel code comes to, and commands over a state.
use mathlib.Core.Path.{◌≡◌, refl}
use Prim.Native.String.{String}

-- `halt m` is a call of `error(m)`, which prints `m` and then loops for ever. `fault` is an access
-- outside an array, which C leaves undefined. `hung` is a loop that has used up its fuel.
pub data Outcome (S A : Type 0) : Type 0 where
  ok : A → S → Outcome S A
  halt : String → Outcome S A
  fault : Outcome S A
  hung : Outcome S A

abbrev pub Cmd : Type 0 → Type 0 → Type 0
Cmd S A = S → Outcome S A

abbrev pub pure : {S A : Type 0} → A → Cmd S A
pure a s = ok a s

module _ {S A B : Type 0} where
  abbrev pub and_then : Outcome S A → (A → Cmd S B) → Outcome S B
  and_then (ok a s) k = k a s
  and_then (halt m) k = halt m
  and_then fault k = fault
  and_then hung k = hung

  infixl 5 ◌>>=◌ ◌>>◌
  abbrev pub ◌>>=◌ : Cmd S A → (A → Cmd S B) → Cmd S B
  m >>= k = λ s. and_then (m s) k

  abbrev pub ◌>>◌ : Cmd S A → Cmd S B → Cmd S B
  m >> n = m >>= λ _. n

pub and_then_assoc :
    {S A B C : Type 0} (o : Outcome S A) (f : A → Cmd S B) (g : B → Cmd S C)
    → and_then (and_then o f) g ≡ and_then o (λ a s. and_then (f a s) g)
and_then_assoc (ok a s) f g = refl
and_then_assoc (halt m) f g = refl
and_then_assoc fault f g = refl
and_then_assoc hung f g = refl

module _ {S : Type 0} where
  -- `error(m)`: the type says that nothing after it runs.
  abbrev pub error : {A : Type 0} → String → Cmd S A
  error m s = halt m

-- A run over `S` does what a run over `T` does: it returns the same value in related states, or
-- stops with the same message. It neither leaves an array nor runs out of fuel.
pub data Refines {S T A : Type 0} (R : S → T → Type 0) : Outcome S A → Outcome T A → Type 0 where
  both_ok : {a : A} {s : S} {t : T} → R s t → Refines R (ok a s) (ok a t)
  both_halt : {m : String} → Refines R (halt m) (halt m)

module _ {S T A B : Type 0} {R Q : S → T → Type 0} where
  pub Refines-bind :
      {m : Outcome S A} {n : Outcome T A} (f : A → Cmd S B) (g : A → Cmd T B)
      → Refines R m n
      → ((a : A) (s : S) (t : T) → R s t → Refines Q (f a s) (g a t))
      → Refines Q (and_then m f) (and_then n g)
  Refines-bind f g (both_ok r) k = k _ _ _ r
  Refines-bind f g both_halt k = both_halt

pub ok-injective : {S A : Type 0} {a b : A} {s t : S} → ok a s ≡ ok b t → (a ≡ b) × (s ≡ t)
ok-injective e = (cc, cc)

-- A run returns with what `Q` says of the value and the state, or stops with a message that `M`
-- allows. It neither leaves an array nor runs out of fuel.
pub data Ends {S A : Type 0} (M : String → Type 0) (Q : A → S → Type 0) : Outcome S A → Type 0 where
  ends_ok : {a : A} {s : S} → Q a s → Ends M Q (ok a s)
  ends_halt : {e : String} → M e → Ends M Q (halt e)

pub Ends-bind :
    {S A B : Type 0} {M : String → Type 0} {Q : A → S → Type 0} {R : B → S → Type 0}
    {m : Outcome S A} (f : A → Cmd S B)
    → Ends M Q m
    → ((a : A) (s : S) → Q a s → Ends M R (f a s))
    → Ends M R (and_then m f)
Ends-bind f (ends_ok q) k = k _ _ q
Ends-bind f (ends_halt e) k = ends_halt e
