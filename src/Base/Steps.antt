-- ===== src/Base/Steps.antt =====
-- Code that changes a state and may fail: a step gives a value or an error's message, and the state
-- also after an error, since what was written stays written.
use Prim.Native.String.{String}
use mathlib.Core.Bool.{Bool, true, false}

pub data Result (A : Type 0) : Type 0 where
  ok : A → Result A
  err : String → Result A

abbrev pub Step : Type 0 → Type 0 → Type 0
Step S A = S → Result A × S

module _ {S : Type 0} where
  abbrev pub pure : {A : Type 0} → A → Step S A
  pure a s = (ok a, s)

  abbrev pub raise : {A : Type 0} → String → Step S A
  raise e s = (err e, s)

  abbrev pub gets : {A : Type 0} → (S → A) → Step S A
  gets f s = (ok (f s), s)

  abbrev pub modify : (S → S) → Step S (Unit {0})
  modify f s = (ok tt, f s)

  abbrev pub and_then : {A B : Type 0} → Result A × S → (A → Step S B) → Result B × S
  and_then (ok a, s) f = f a s
  and_then (err e, s) f = (err e, s)

  -- Goes on after an error as after a success.
  abbrev pub attempted : {A : Type 0} → Result A × S → Result (Unit {0}) × S
  attempted (r, s) = (ok tt, s)

  abbrev pub ignore_error : {A : Type 0} → Step S A → Step S (Unit {0})
  ignore_error m s = attempted (m s)

  abbrev pub when : Bool → Step S (Unit {0}) → Step S (Unit {0})
  when true m = m
  when false m = pure tt

infixl 5 ◌>>=◌ ◌>>◌
abbrev pub ◌>>=◌ : {S A B : Type 0} → Step S A → (A → Step S B) → Step S B
◌>>=◌ m f s = and_then (m s) f

abbrev pub ◌>>◌ : {S A B : Type 0} → Step S A → Step S B → Step S B
m >> k = m >>= λ _. k

-- How a step ended: with a value and a state that are in `Q`, or with an error in `E`.
pub data Ends {S A : Type 0} (Q : A → S → Type 0) (E : String → S → Type 0)
    : Result A × S → Type 0 where
  returned : {a : A} {s : S} → Q a s → Ends Q E (ok a, s)
  failed : {e : String} {s : S} → E e s → Ends Q E (err e, s)

module _ {S A : Type 0} {Q : A → S → Type 0} {E : String → S → Type 0} where
  -- The parts of a sequence of steps.
  pub and_then-Ends :
      {B : Type 0} {R : B → S → Type 0} {r : Result A × S} {f : A → Step S B}
      → Ends Q E r
      → ((a : A) (s : S) → Q a s → Ends R E (f a s))
      → Ends R E (and_then r f)
  and_then-Ends (returned q) k = k _ _ q
  and_then-Ends (failed q) k = failed q

  pub attempted-Ends :
      {R : S → Type 0} {E' : String → S → Type 0} {r : Result A × S}
      → Ends Q E r
      → ((a : A) (s : S) → Q a s → R s)
      → ((e : String) (s : S) → E e s → R s)
      → Ends (λ (_ : Unit {0}) s. R s) E' (attempted r)
  attempted-Ends (returned h) q e = returned (q _ _ h)
  attempted-Ends (failed h) q e = returned (e _ _ h)

  pub Ends-map :
      {R : A → S → Type 0} {F : String → S → Type 0} {r : Result A × S}
      → Ends Q E r
      → ((a : A) (s : S) → Q a s → R a s)
      → ((e : String) (s : S) → E e s → F e s)
      → Ends R F r
  Ends-map (returned h) q e = returned (q _ _ h)
  Ends-map (failed h) q e = failed (e _ _ h)

  -- What holds however a step ended.
  pub Ends_state :
      {R : S → Type 0} {r : Result A × S}
      → Ends Q E r
      → ((a : A) (s : S) → Q a s → R s)
      → ((e : String) (s : S) → E e s → R s)
      → R r.1
  Ends_state (returned h) q e = q _ _ h
  Ends_state (failed h) q e = e _ _ h
