-- ===== src/Pups/Address.antt =====
-- The addresses of pups (pkg/pup/actions.go, AdoptPup). An octet is a byte: it wraps at 256.
use dogeboxd.Base.{
  ℕ, ◌+◌, ◌*◌, ◌%◌, ◌<◌, ◌≤◌, ◌≡◌, refl, Bool, true, false, if◌then◌else◌, ltb, eqb, ◌&&◌, ◌||◌,
  arith, Bool-cases, inl, inr, List, [], ◌∷◌, Memᴰ, subst, sym,
}

-- net.IP of four octets
pub record Ip : Type 0 where
  pub o0 : ℕ
  pub o1 : ℕ
  pub o2 : ℕ
  pub o3 : ℕ

abbrev pub next_octet : ℕ → ℕ
next_octet n = (n + 1) % 256

-- The loop that claims the next address: an octet that wraps carries into the one before.
unfoldable pub next_ip : Ip → Ip
next_ip ip =
    let d = next_octet ip.o3 in
    let c = next_octet ip.o2 in
    let b = next_octet ip.o1 in
    let a = next_octet ip.o0 in
    if ltb 0 d
    then record ip { o3 = d }
    else (if ltb 0 c
        then record ip { o3 = 0; o2 = c }
        else (if ltb 0 b
            then record ip { o3 = 0; o2 = 0; o1 = b }
            else record { o0 = a; o1 = 0; o2 = 0; o3 = 0 }))

-- The test that the address has left the range.
unfoldable pub is_exhausted : Ip → Bool
is_exhausted ip = ltb 10 ip.o0 || (eqb ip.o0 10 && ltb 70 ip.o1)

-- The octets are bytes.
pub record IsIp (ip : Ip) : Type 0 where
  pub byte0 : ip.o0 < 256
  pub byte1 : ip.o1 < 256
  pub byte2 : ip.o2 < 256
  pub byte3 : ip.o3 < 256

-- The address as a number.
abbrev pub number : Ip → ℕ
number ip = ((ip.o0 * 256 + ip.o1) * 256 + ip.o2) * 256 + ip.o3

octet_grows : (n : ℕ) → n < 256 → ltb 0 (next_octet n) ≡ true → (n < 255) × (next_octet n ≡ n + 1)
octet_grows n b h = ground arith

octet_wraps : (n : ℕ) → n < 256 → ltb 0 (next_octet n) ≡ false → n ≡ 255
octet_wraps n b h = ground arith

-- Of an address of bytes, the next address is the next number, and after the last number comes 0: the
-- carry from octet to octet is that of addition modulo 2^32.
pub number-next_ip : (ip : Ip) → IsIp ip → number (next_ip ip) ≡ (number ip + 1) % 4294967296
unfolding next_ip
number-next_ip ip x = elim (Bool-cases (ltb 0 (next_octet ip.o3))) [
  | inl e3 ↦ let (l, n) = octet_grows ip.o3 x.byte3 e3 in rw (e3, n) (omega arith)
  | inr e3 ↦
      let n3 = octet_wraps ip.o3 x.byte3 e3 in
      elim (Bool-cases (ltb 0 (next_octet ip.o2))) [
        | inl e2 ↦ let (l, n) = octet_grows ip.o2 x.byte2 e2 in rw (e3, e2, n) (omega arith)
        | inr e2 ↦
            let n2 = octet_wraps ip.o2 x.byte2 e2 in
            elim (Bool-cases (ltb 0 (next_octet ip.o1))) [
              | inl e1 ↦
                  let (l, n) = octet_grows ip.o1 x.byte1 e1 in rw (e3, e2, e1, n) (omega arith)
              | inr e1 ↦ let n1 = octet_wraps ip.o1 x.byte1 e1 in rw (e3, e2, e1) (omega arith)
            ]
      ]
]

pub next_ip-IsIp : (ip : Ip) → IsIp ip → IsIp (next_ip ip)
unfolding next_ip
next_ip-IsIp ip x = record {
  byte0 = ground arith;
  byte1 = ground arith;
  byte2 = ground arith;
  byte3 = ground arith;
}

-- The test of the loop in NewPupManager: some octet of the second address is greater.
abbrev pub is_replaced : Ip → Ip → Bool
is_replaced ip v = ltb ip.o0 v.o0 || ltb ip.o1 v.o1 || ltb ip.o2 v.o2 || ltb ip.o3 v.o3

-- The loop of NewPupManager that sets the last address from those of the stored pups.
unfoldable pub last_address : Ip → List Ip → Ip
last_address ip [] = ip
last_address ip (v ∷ vs) = last_address (if is_replaced ip v then v else ip) vs

-- 10.69.0.1, the address of dogeboxd itself
abbrev pub first_address : Ip
first_address = record { o0 = 10; o1 = 69; o2 = 0; o3 = 1 }

-- The address is in the first block, 10.69.0.x.
abbrev pub IsFirstBlock : Ip → Type 0
IsFirstBlock ip = (ip.o0 ≡ 10) × (ip.o1 ≡ 69) × (ip.o2 ≡ 0)

replaced_le :
    (ip v : Ip) → IsFirstBlock ip → IsFirstBlock v → is_replaced ip v ≡ true → number ip ≤ number v
replaced_le ip v b c h = let l : ip.o3 ≤ v.o3 = ground arith in ground arith

kept_le :
    (ip v : Ip) → IsFirstBlock ip → IsFirstBlock v → is_replaced ip v ≡ false → number v ≤ number ip
kept_le ip v b c h = let l : v.o3 ≤ ip.o3 = ground arith in ground arith

last_address-bound :
    (ip : Ip) (vs : List Ip)
    → IsFirstBlock ip
    → ((v : Ip) → Memᴰ v vs → IsFirstBlock v)
    → (number ip ≤ number (last_address ip vs))
      × ((v : Ip) → Memᴰ v vs → number v ≤ number (last_address ip vs))
unfolding last_address
last_address-bound ip [] b h = (omega arith, λ v i. elim i [ ])
last_address-bound ip (x ∷ xs) b h =
    let bx = h x (Memᴰ.head refl) in
    elim (Bool-cases (is_replaced ip x)) [
      | inl e ↦
          let (le, rest) = last_address-bound x xs bx (λ v i. h v (Memᴰ.tail i)) in
          let up : number ip ≤ number x = replaced_le ip x b bx e in
          rw (last_address, e) (omega arith, mem_bound x xs (number (last_address x xs)) le rest)
      | inr e ↦
          let (le, rest) = last_address-bound ip xs b (λ v i. h v (Memᴰ.tail i)) in
          let up : number x ≤ number ip = kept_le ip x b bx e in
          rw (last_address, e) (le, mem_bound x xs (number (last_address ip xs)) (omega arith) rest)
    ]
  where
    mem_bound :
        (x : Ip) (xs : List Ip) (n : ℕ)
        → number x ≤ n
        → ((v : Ip) → Memᴰ v xs → number v ≤ n)
        → (v : Ip) → Memᴰ v (x ∷ xs)
        → number v ≤ n
    mem_bound x xs n le rest v (Memᴰ.head e) = subst (λ y. number y ≤ n) (sym e) le
    mem_bound x xs n le rest v (Memᴰ.tail i) = rest v i

-- If all stored addresses are in the first block, then the last address that NewPupManager sets is at
-- least each of them.
pub last_address-max :
    (vs : List Ip)
    → ((v : Ip) → Memᴰ v vs → IsFirstBlock v)
    → (v : Ip) → Memᴰ v vs
    → number v ≤ number (last_address first_address vs)
last_address-max vs h = (last_address-bound first_address vs (refl, refl, refl) h).1
