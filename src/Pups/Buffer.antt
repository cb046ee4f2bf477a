-- ===== src/Pups/Buffer.antt =====
-- The circular buffer of a metric's values (pkg/pups.go, lines 170 to 196), and the list of the last
-- values that it stands for.
use mathlib.Core.List.{append_assoc, append-nil}
use native.Mathlib.Nat.{mod-lt, mod-eq_of_lt, mod_self}
use dogeboxd.Base.{
  ℕ, zero, suc, ◌+◌, ◌%◌, ◌<◌, ◌≡◌, refl, sym, ap, ap₂, ◌∙◌, true, Option, none, some, List, [],
  ◌∷◌, ◌++◌, if◌then◌else◌, ltb, length, arith,
}

pub record Buffer {ℓ} (A : Type ℓ) : Type ℓ where
  pub values : List A
  pub tail : ℕ

module _ {ℓ} {A : Type ℓ} where
  abbrev pub take : ℕ → List A → List A
  take zero xs = []
  take (suc n) [] = []
  take (suc n) (x ∷ xs) = x ∷ take n xs

  abbrev pub drop : ℕ → List A → List A
  drop zero xs = xs
  drop (suc n) [] = []
  drop (suc n) (x ∷ xs) = drop n xs

  -- xs[i] = a, if `i` is in range
  abbrev pub set : List A → ℕ → A → List A
  set [] i a = []
  set (x ∷ xs) zero a = a ∷ xs
  set (x ∷ xs) (suc i) a = x ∷ set xs i a

  abbrev pub replicate : ℕ → A → List A
  replicate zero a = []
  replicate (suc n) a = a ∷ replicate n a

  -- NewBuffer; `a` is the zero value.
  unfoldable pub new_buffer : ℕ → A → Buffer A
  new_buffer size a = record { values = replicate size a; tail = 0 }

  -- Add; `none` is the panic of an index out of range.
  unfoldable pub add : A → Buffer A → Option (Buffer A)
  add a b =
      if ltb b.tail (length b.values)
      then some (record { values = set b.values b.tail a; tail = (b.tail + 1) % length b.values })
      else none

  -- GetValues
  unfoldable pub get_values : Buffer A → List A
  get_values b = if ltb 0 b.tail then drop b.tail b.values ++ take b.tail b.values else b.values

  abbrev pub and_add_all : Option (Buffer A) → (Buffer A → Option (Buffer A)) → Option (Buffer A)
  and_add_all none rest = none
  and_add_all (some b) rest = rest b

  -- A sequence of calls of Add.
  unfoldable pub add_all : List A → Buffer A → Option (Buffer A)
  add_all [] b = some b
  add_all (a ∷ more) b = and_add_all (add a b) (add_all more)

  -- The specification: the oldest value goes when a new one comes.
  abbrev pub push : A → List A → List A
  push a xs = drop 1 xs ++ a ∷ []

  abbrev pub push_all : List A → List A → List A
  push_all [] xs = xs
  push_all (a ∷ more) xs = push_all more (push a xs)

  -- The place of the next value is in range; a buffer of size 0 has none.
  abbrev pub IsBuffer : Buffer A → Type 0
  IsBuffer b = b.tail < length b.values

  take-append : (xs ys : List A) → take (length xs) (xs ++ ys) ≡ xs
  take-append [] ys = refl
  take-append (x ∷ xs) ys = ap (λ l. x ∷ l) (take-append xs ys)

  drop-append : (xs ys : List A) → drop (length xs) (xs ++ ys) ≡ ys
  drop-append [] ys = refl
  drop-append (x ∷ xs) ys = drop-append xs ys

  set-append : (xs ys : List A) (y a : A) → set (xs ++ y ∷ ys) (length xs) a ≡ xs ++ a ∷ ys
  set-append [] ys y a = refl
  set-append (x ∷ xs) ys y a = ap (λ l. x ∷ l) (set-append xs ys y a)

  length-append : (xs ys : List A) → length (xs ++ ys) ≡ length xs + length ys
  length-append [] ys = omega arith
  length-append (x ∷ xs) ys = let e = length-append xs ys in omega arith

  -- The values before a place in range, the value there, and those after.
  split_at :
      (i : ℕ) (xs : List A)
      → i < length xs
      → (front : List A) × (y : A) × (back : List A) × (xs ≡ front ++ y ∷ back) × (length front ≡ i)
  split_at i [] h = absurd (omega arith)
  split_at zero (x ∷ xs) h = ([], x, xs, refl, refl)
  split_at (suc i) (x ∷ xs) h =
      let (front, y, back, e, n) = split_at i xs (omega arith) in
      (x ∷ front, y, back, ap (λ l. x ∷ l) e, ap suc n)

  get_values-split :
      (b : Buffer A) (front back : List A)
      → b.values ≡ front ++ back
      → b.tail ≡ length front
      → get_values b ≡ back ++ front
  unfolding get_values
  get_values-split b [] back e n = rw (e, n) (sym (append-nil back))
  get_values-split b (x ∷ front) back e n =
      let pos : ltb 0 (suc (length front)) ≡ true = ground arith in
      rw (e, n, pos) (ap₂ ◌++◌ (drop-append front back) (ap (λ l. x ∷ l) (take-append front back)))

  -- Adding at the place of `y` puts `a` there and moves on.
  added :
      (a : A) (b : Buffer A) (front back : List A) (y : A)
      → b.values ≡ front ++ y ∷ back
      → b.tail ≡ length front
      → (b' : Buffer A) × (add a b ≡ some b')
        × (b'.values ≡ front ++ a ∷ back)
        × (b'.tail ≡ (length front + 1) % (length front + suc (length back)))
  unfolding add
  added a b front back y e n =
      let room : ltb b.tail (length b.values) ≡ true =
        rw (e, n, length-append front (y ∷ back)) (ground arith) in
      (
        record { values = set b.values b.tail a; tail = (b.tail + 1) % length b.values },
        rw room refl,
        rw (e, n) (set-append front back y a),
        rw (e, n, length-append front (y ∷ back)) refl,
      )

  tail_in_range :
      (b : Buffer A) (front back : List A) (a : A)
      → b.values ≡ front ++ a ∷ back
      → b.tail ≡ (length front + 1) % (length front + suc (length back))
      → IsBuffer b
  tail_in_range b front back a e n =
      let m : length b.values ≡ length front + suc (length back) =
        ap length e ∙ length-append front (a ∷ back) in
      rw (n, m) (mod-lt (length front + 1) (omega arith))

  -- Of a buffer with its place in range, `Add` does not panic, keeps the place in range, and drops the
  -- oldest of the values that `GetValues` returns and appends the new one.
  pub add_refines :
      (a : A) (b : Buffer A)
      → IsBuffer b
      → (b' : Buffer A) × (add a b ≡ some b')
        × IsBuffer b'
        × (get_values b' ≡ push a (get_values b))
  add_refines a b h =
      let (front, y, back, e, n) = split_at b.tail b.values h in
      let (b', f, v, t) = added a b front back y e (sym n) in
      (
        b',
        f,
        tail_in_range b' front back a v t,
        after b' front back y v t
            ∙ ap (push a) (sym (get_values-split b front (y ∷ back) e (sym n))),
      )
    where
      after :
          (b' : Buffer A) (front back : List A) (y : A)
          → b'.values ≡ front ++ a ∷ back
          → b'.tail ≡ (length front + 1) % (length front + suc (length back))
          → get_values b' ≡ push a ((y ∷ back) ++ front)
      after b' front [] y v t =
          get_values-split b' [] (front ++ a ∷ []) v (t ∙ mod_self (length front + 1))
          ∙ append-nil (front ++ a ∷ [])
      after b' front (z ∷ zs) y v t =
          get_values-split b' (front ++ a ∷ []) (z ∷ zs)
            (v ∙ sym (append_assoc front (a ∷ []) (z ∷ zs)))
            (t ∙ mod-eq_of_lt (omega arith) ∙ sym (length-append front (a ∷ [])))
          ∙ sym (append_assoc (z ∷ zs) front (a ∷ []))

  -- Of a buffer with its place in range, no sequence of calls of `Add` panics, and what `GetValues`
  -- returns after it is what came of the list of values by dropping the oldest and appending the new
  -- one at each call.
  pub add_all_refines :
      (values : List A) (b : Buffer A)
      → IsBuffer b
      → (b' : Buffer A) × (add_all values b ≡ some b')
        × IsBuffer b'
        × (get_values b' ≡ push_all values (get_values b))
  unfolding add_all
  add_all_refines [] b h = (b, refl, h, refl)
  add_all_refines (a ∷ more) b h =
      let (b₁, e, h₁, g) = add_refines a b h in
      let (b₂, f, h₂, k) = add_all_refines more b₁ h₁ in (b₂, rw e f, h₂, k ∙ ap (push_all more) g)

  length-replicate : (n : ℕ) (a : A) → length (replicate n a) ≡ n
  length-replicate zero a = refl
  length-replicate (suc n) a = ap suc (length-replicate n a)

  -- A new buffer of a positive size has its place in range, and `GetValues` returns that many zero
  -- values.
  pub new_buffer-IsBuffer :
      (size : ℕ) (a : A)
      → 0 < size
      → IsBuffer (new_buffer size a) × (get_values (new_buffer size a) ≡ replicate size a)
  unfolding new_buffer get_values
  new_buffer-IsBuffer size a h = (let n = length-replicate size a in omega arith, refl)
