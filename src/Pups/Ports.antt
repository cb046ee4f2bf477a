-- ===== src/Pups/Ports.antt =====
-- The ports of web interfaces (pkg/pup/actions.go, nextAvailablePorts). Whether the host can listen on
-- a port is the parameter `is_port_available`.
use dogeboxd.Base.{
  ℕ, zero, suc, ◌+◌, ◌<◌, ◌≤◌, ◌≡◌, refl, Bool, true, false, Option, none, some, List, [], ◌∷◌,
  ◌&&◌, not, if◌then◌else◌, eqb, leb, length, any, arith, Bool-cases, Option-cases, inl, inr,
  some_inj, subst, ap,
}

-- MIN_WEBUI_PORT
abbrev pub min_webui_port : ℕ
min_webui_port = 10000

-- `_, exists := consumed[port]`
abbrev pub is_consumed : ℕ → List ℕ → Bool
is_consumed port consumed = any (λ p. eqb p port) consumed

-- How many of the numbers are `p` or more.
abbrev count_from : ℕ → List ℕ → ℕ
count_from p [] = 0
count_from p (x ∷ xs) = let rest = count_from p xs in if leb p x then suc rest else rest

count_from-length : (p : ℕ) (ports : List ℕ) → count_from p ports ≤ length ports
count_from-length p [] = omega arith
count_from-length p (x ∷ xs) = ground (arith, count_from-length p xs)

count_from-suc : (p : ℕ) (ports : List ℕ) → count_from (suc p) ports ≤ count_from p ports
count_from-suc p [] = omega arith
count_from-suc p (x ∷ xs) = ground (arith, count_from-suc p xs)

count_from-consumed :
    (p : ℕ) (ports : List ℕ)
    → is_consumed p ports ≡ true
    → count_from (suc p) ports < count_from p ports
count_from-consumed p [] h = cc
count_from-consumed p (x ∷ xs) h = elim (Bool-cases (is_consumed p xs)) [
  | inl later ↦ ground (arith, count_from-consumed p xs later)
  | inr here ↦ ground (arith, count_from-suc p xs)
]

module _ (is_port_available : ℕ → Bool) where
  abbrev pub is_free : ℕ → List ℕ → Bool
  is_free port consumed = not (is_consumed port consumed) && is_port_available port

  -- The inner loop, from `port`. It has no bound in the code, and here it has fuel.
  unfoldable pub find_port : ℕ → ℕ → List ℕ → Option ℕ
  find_port zero port consumed = none
  find_port (suc fuel) port consumed =
      let rest = find_port fuel (suc port) consumed in
      if is_free port consumed then some port else rest

  abbrev pub cons_ports : ℕ → Option (List ℕ) → Option (List ℕ)
  cons_ports port none = none
  cons_ports port (some ports) = some (port ∷ ports)

  abbrev pub then_ports : Option ℕ → (ℕ → Option (List ℕ)) → Option (List ℕ)
  then_ports none more = none
  then_ports (some port) more = cons_ports port (more port)

  -- nextAvailablePorts, on the consumed ports of the pups; `how_many` counts the ports still to find.
  unfoldable pub next_available_ports : ℕ → ℕ → List ℕ → Option (List ℕ)
  next_available_ports fuel zero consumed = some []
  next_available_ports fuel (suc how_many) consumed =
      then_ports (find_port fuel min_webui_port consumed)
        (λ port. next_available_ports fuel how_many (port ∷ consumed))

  find_port-found :
      (fuel port p : ℕ) (consumed : List ℕ)
      → find_port fuel port consumed ≡ some p
      → (port ≤ p) × (is_free p consumed ≡ true)
  unfolding find_port
  find_port-found zero port p consumed h = cc
  find_port-found (suc fuel) port p consumed h = elim (Bool-cases (is_free port consumed)) [
    | inl free ↦
        let e : port ≡ p = some_inj (rw free at h) in
        (omega arith, subst (λ x. is_free x consumed ≡ true) e free)
    | inr taken ↦
        let (le, free) = find_port-found fuel (suc port) p consumed (rw taken at h) in
        (omega arith, free)
  ]

  -- A search that fails although every port within the fuel is available has met as many consumed
  -- ports.
  find_port-count :
      (fuel port : ℕ) (consumed : List ℕ)
      → ((p : ℕ) → port ≤ p → p < port + fuel → is_port_available p ≡ true)
      → find_port fuel port consumed ≡ none
      → fuel ≤ count_from port consumed
  unfolding find_port
  find_port-count zero port consumed host h = omega arith
  find_port-count (suc fuel) port consumed host h = elim (Bool-cases (is_free port consumed)) [
    | inl free ↦ cc (rw free at h)
    | inr taken ↦
        let here = host port (omega arith) (omega arith) in
        let rest =
          find_port-count fuel (suc port) consumed (λ p lo hi. host p (omega arith) (omega arith))
            (rw taken at h) in
        let less = count_from-consumed port consumed (ground arith) in omega arith
  ]

  -- What holds of the ports that are handed out: they are free and no two are the same.
  abbrev pub AreFresh : List ℕ → List ℕ → Type 0
  AreFresh consumed [] = Unit {0}
  AreFresh consumed (p ∷ ps) =
      (min_webui_port ≤ p)
      × (is_port_available p ≡ true)
      × (is_consumed p consumed ≡ false)
      × AreFresh (p ∷ consumed) ps

  found_first :
      (fuel how_many : ℕ) (consumed ports : List ℕ)
      → ((c ps : List ℕ)
          → next_available_ports fuel how_many c ≡ some ps
          → (length ps ≡ how_many) × AreFresh c ps)
      → (o : Option ℕ) → find_port fuel min_webui_port consumed ≡ o
      → then_ports o (λ port. next_available_ports fuel how_many (port ∷ consumed)) ≡ some ports
      → (length ports ≡ suc how_many) × AreFresh consumed ports
  found_first fuel how_many consumed ports more none f h = cc
  found_first fuel how_many consumed ports more (some p) f h =
      elim (Option-cases (next_available_ports fuel how_many (p ∷ consumed))) [
        | inl e ↦ cc (rw e at h)
        | inr (ps, e) ↦
            let (n, fresh) = more (p ∷ consumed) ps e in
            let (lo, free) = find_port-found fuel min_webui_port p consumed f in
            subst (λ l. (length l ≡ suc how_many) × AreFresh consumed l) (some_inj (rw e at h))
              (ap (λ x. suc x) n, (lo, ground arith, ground arith, fresh))
      ]

  -- The ports that are handed out are as many as were asked for, from 10000 on, available on the host,
  -- not consumed, and pairwise different.
  pub next_available_ports-AreFresh :
      (fuel how_many : ℕ) (consumed ports : List ℕ)
      → next_available_ports fuel how_many consumed ≡ some ports
      → (length ports ≡ how_many) × AreFresh consumed ports
  unfolding next_available_ports
  next_available_ports-AreFresh fuel zero consumed ports h =
      subst (λ ps. (length ps ≡ 0) × AreFresh consumed ps) (some_inj h) (refl, tt)
  next_available_ports-AreFresh fuel (suc n) consumed ports h =
      found_first fuel n consumed ports (λ c ps. next_available_ports-AreFresh fuel n c ps)
        (find_port fuel min_webui_port consumed) refl h

  -- If every port from 10000 on within the fuel is available on the host, and the fuel is at least the
  -- number of consumed ports and of ports asked for, then the ports are found.
  pub next_available_ports-finds :
      (fuel how_many : ℕ) (consumed : List ℕ)
      → ((p : ℕ) → min_webui_port ≤ p → p < min_webui_port + fuel → is_port_available p ≡ true)
      → length consumed + how_many ≤ fuel
      → (ports : List ℕ) × (next_available_ports fuel how_many consumed ≡ some ports)
  unfolding next_available_ports
  next_available_ports-finds fuel zero consumed host enough = ([], refl)
  next_available_ports-finds fuel (suc n) consumed host enough =
      elim (Option-cases (find_port fuel min_webui_port consumed)) [
        | inl e ↦
            let k = find_port-count fuel min_webui_port consumed host e in
            let l = count_from-length min_webui_port consumed in absurd (omega arith)
        | inr (p, e) ↦
            let (ports, f) = next_available_ports-finds fuel n (p ∷ consumed) host (omega arith) in
            (p ∷ ports, rw (e, f) refl)
      ]
