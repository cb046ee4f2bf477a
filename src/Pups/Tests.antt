-- ===== src/Pups/Tests.antt =====
-- An adoption on a small state, and the theorems at it.
use dogeboxd.Base.{
  ℕ, ◌+◌, ◌%◌, ◌≤◌, ◌<◌, ◌≡◌, refl, Bool, true, false, some, List, [], ◌∷◌, length, arith, Memᴰ,
  subst, sym,
}
use dogeboxd.Pups.Address.{
  Ip, IsIp, number, next_ip, number-next_ip, last_address, last_address-max, first_address,
  IsFirstBlock,
}
use dogeboxd.Pups.Ports.{
  AreFresh, next_available_ports, next_available_ports-AreFresh, next_available_ports-finds,
}
use dogeboxd.Pups.Adopt.{Expose, Manifest, Source, PupState, PupManager, Host, adopt_pup}
use dogeboxd.Pups.Adopted.{Adopts, adopt_pup-Adopts, IsAllocated, adopt_pup-IsAllocated}

abbrev last_of_block : Ip
last_of_block = record { o0 = 10; o1 = 69; o2 = 0; o3 = 255 }

last_of_block-IsIp : IsIp last_of_block
last_of_block-IsIp = record {
  byte0 = omega arith;
  byte1 = omega arith;
  byte2 = omega arith;
  byte3 = omega arith;
}

number-next_ip_example : number (next_ip last_of_block) ≡ (number last_of_block + 1) % 4294967296
number-next_ip_example = number-next_ip last_of_block last_of_block-IsIp

block-IsFirstBlock : (v : Ip) → Memᴰ v (last_of_block ∷ []) → IsFirstBlock v
block-IsFirstBlock v (Memᴰ.head e) = subst IsFirstBlock (sym e) (refl, refl, refl)
block-IsFirstBlock v (Memᴰ.tail i) = elim i [ ]

last_address-max_example :
    number last_of_block ≤ number (last_address first_address (last_of_block ∷ []))
last_address-max_example =
    last_address-max (last_of_block ∷ []) block-IsFirstBlock last_of_block (Memᴰ.head refl)

abbrev all_available : ℕ → Bool
all_available p = true

abbrev taken : List ℕ
taken = 10000 ∷ 10002 ∷ []

abbrev given : List ℕ
given = 10001 ∷ 10003 ∷ []

next_available_ports-AreFresh_example : (length given ≡ 2) × AreFresh all_available taken given
unfolding next_available_ports dogeboxd.Pups.Ports.find_port
next_available_ports-AreFresh_example =
    next_available_ports-AreFresh all_available 9 2 taken given refl

next_available_ports-finds_example :
    (ports : List ℕ) × (next_available_ports all_available 9 2 taken ≡ some ports)
next_available_ports-finds_example =
    next_available_ports-finds all_available 9 2 taken (λ p lo hi. refl) (omega arith)

abbrev core : Manifest
core = record {
  name = "core";
  version = "1.0";
  exposes = record { name = "ui"; port = 80; web_ui = true; listen_on_host = false } ∷ [];
}

abbrev shop : Source
shop = record { id = "s1"; is_disk = false }

abbrev small_host : Host (Unit {0}) (Unit {0})
small_host = record {
  is_port_available = all_available;
  dev_mode_services = λ s id m. some [];
  config_defaults = λ m. some tt;
  needs_values = λ m c. false;
  save_pup = λ p d. some tt;
  health = λ ps p. (false, false);
}

abbrev no_pups : PupManager (Unit {0}) (Unit {0})
no_pups = record { state = []; last_ip = last_of_block; adopted = []; disk = tt }

no_pups-IsAllocated : IsAllocated small_host no_pups
no_pups-IsAllocated = record { bytes = last_of_block-IsIp; below = λ p i. elim i [ ] }

adopt_pup-Adopts_example :
    Adopts small_host no_pups (adopt_pup small_host 9 (some "a1") core shop false no_pups).0
unfolding adopt_pup dogeboxd.Pups.Address.is_exhausted next_ip next_available_ports
    dogeboxd.Pups.Ports.find_port dogeboxd.Pups.Adopt.consumed_ports
adopt_pup-Adopts_example = adopt_pup-Adopts small_host 9 (some "a1") core shop false no_pups refl

adopt_pup-IsAllocated_example :
    let t' = (adopt_pup small_host 9 (some "a1") core shop false no_pups).0 in
    IsAllocated small_host t'
    × ((q : PupState (Unit {0})) × (t'.state ≡ q ∷ no_pups.state)
        × ((p : PupState (Unit {0})) → Memᴰ p no_pups.state → number p.ip < number q.ip))
unfolding adopt_pup dogeboxd.Pups.Address.is_exhausted next_ip next_available_ports
    dogeboxd.Pups.Ports.find_port dogeboxd.Pups.Adopt.consumed_ports
adopt_pup-IsAllocated_example =
    adopt_pup-IsAllocated small_host 9 (some "a1") core shop false no_pups no_pups-IsAllocated
      (omega arith) refl
