-- ===== src/Pups/Adopted.antt =====
-- What an adopted pup is given (AdoptPup of pkg/pup/actions.go): an address above those of the other
-- pups, and ports that nothing uses.
use dogeboxd.Base.{
  ℕ, ◌+◌, ◌≤◌, ◌<◌, String, ◌≡◌, refl, sym, ap, subst, ◌∙◌, Bool, true, false, Option, none, some,
  List, [], ◌∷◌, length, arith, Memᴰ, Bool-cases, inl, inr,
}
use dogeboxd.Pups.Address.{IsIp, number, next_ip, is_exhausted, number-next_ip, next_ip-IsIp}
use dogeboxd.Pups.Ports.{AreFresh, next_available_ports, next_available_ports-AreFresh}
use dogeboxd.Pups.Adopt.{
  Manifest, Source, WebUi, PupState, PupManager, Host, ports_of, exposed_uis, with_ports,
  find_installed, consumed_ports, saved, with_config, with_services, with_uis, claimed,
  unless_installed, adopt_pup,
}

ports_of-with_ports :
    (ws : List WebUi) (ps : List ℕ) → length ps ≡ length ws → ports_of (with_ports ws ps) ≡ ps
ports_of-with_ports [] [] h = refl
ports_of-with_ports [] (p ∷ ps) h = absurd (omega arith)
ports_of-with_ports (w ∷ ws) [] h = absurd (omega arith)
ports_of-with_ports (w ∷ ws) (p ∷ ps) h = ap (λ l. p ∷ l) (ports_of-with_ports ws ps (omega arith))

module _ {C D : Type 0} (host : Host C D) where
  -- One pup was added, with the last address and these interfaces.
  abbrev Adds : List WebUi → PupManager C D → PupManager C D → Type 0
  Adds ws t t' =
      (q : PupState C) × (t'.state ≡ q ∷ t.state)
      × (q.ip ≡ t.last_ip)
      × (q.web_uis ≡ ws)
      × (t'.last_ip ≡ t.last_ip)

  saved-Adds :
      (t : PupManager C D) (p : PupState C) (o : Option D)
      → p.ip ≡ t.last_ip
      → (saved host t p o).1 ≡ none
      → Adds p.web_uis t (saved host t p o).0
  saved-Adds t p none e h = cc
  saved-Adds t p (some disk) e h =
      let (conf, deps) = host.health (p ∷ t.state) p in
      (record p { needs_conf = conf; needs_deps = deps }, refl, e, refl, refl)

  with_config-Adds :
      (t : PupManager C D) (id : String) (m : Manifest) (source : Source) (dev : Bool)
      (uis : List WebUi) (services : List String) (o : Option C)
      → (with_config host t id m source dev uis services o).1 ≡ none
      → Adds uis t (with_config host t id m source dev uis services o).0
  with_config-Adds t id m source dev uis services none h = cc
  with_config-Adds t id m source dev uis services (some config) h = saved-Adds t _ _ refl h

  with_services-Adds :
      (t : PupManager C D) (id : String) (m : Manifest) (source : Source) (dev : Bool)
      (uis : List WebUi) (o : Option (List String))
      → (with_services host t id m source dev uis o).1 ≡ none
      → Adds uis t (with_services host t id m source dev uis o).0
  with_services-Adds t id m source dev uis none h = cc
  with_services-Adds t id m source true uis (some []) h = cc
  with_services-Adds t id m source false uis (some []) h =
      with_config-Adds t id m source false uis [] (host.config_defaults m) h
  with_services-Adds t id m source dev uis (some (s ∷ ss)) h =
      with_config-Adds t id m source dev uis (s ∷ ss) (host.config_defaults m) h

  -- What an adoption from `t` to `t'` promises: it adds one pup, whose address is the next one, above
  -- the address of every other pup and within the range, and whose ports are free and different.
  pub record Adopts (t t' : PupManager C D) : Type 0 where
    pub pup : PupState C
    pub indexed : t'.state ≡ pup ∷ t.state
    pub address : pup.ip ≡ next_ip t.last_ip
    pub last : t'.last_ip ≡ next_ip t.last_ip
    pub in_range : is_exhausted pup.ip ≡ false
    pub ports : AreFresh host.is_port_available (consumed_ports host t.state) (ports_of pup.web_uis)

  claimed_uis :
      (fuel : ℕ) (id : String) (m : Manifest) (source : Source) (dev : Bool) (t : PupManager C D)
      → is_exhausted (next_ip t.last_ip) ≡ false
      → let t₁ = record t { last_ip = next_ip t.last_ip } in
        (o : Option (List ℕ))
        → next_available_ports host.is_port_available fuel
            (length (exposed_uis m.exposes))
            (consumed_ports host t.state)
          ≡ o
        → (with_uis host t₁ id m source dev o).1 ≡ none
        → Adopts t (with_uis host t₁ id m source dev o).0
  claimed_uis fuel id m source dev t range none e h = cc
  claimed_uis fuel id m source dev t range (some ports) e h =
      let uis = with_ports (exposed_uis m.exposes) ports in
      let (count, fresh) =
        next_available_ports-AreFresh host.is_port_available fuel (length (exposed_uis m.exposes))
          (consumed_ports host t.state) ports e in
      let (q, s, i, w, l) =
        with_services-Adds (record t { last_ip = next_ip t.last_ip }) id m source dev uis _ h in
      record {
        pup = q;
        indexed = s;
        address = i;
        last = l;
        in_range = subst (λ x. is_exhausted x ≡ false) (sym i) range;
        ports =
            subst (λ x. AreFresh host.is_port_available (consumed_ports host t.state) x)
              (sym (ap ports_of w ∙ ports_of-with_ports (exposed_uis m.exposes) ports count)) fresh;
      }

  claimed-Adopts :
      (fuel : ℕ) (random : Option String) (m : Manifest) (source : Source) (dev : Bool)
      (t : PupManager C D)
      → (claimed host fuel random m source dev t).1 ≡ none
      → Adopts t (claimed host fuel random m source dev t).0
  claimed-Adopts fuel none m source dev t h = cc
  claimed-Adopts fuel (some id) m source dev t h =
      elim (Bool-cases (is_exhausted (next_ip t.last_ip))) [
        | inl e ↦ let stop = rw e at h in cc
        | inr e ↦ rw e (claimed_uis fuel id m source dev t e _ refl (rw e at h))
      ]

  unless-Adopts :
      (fuel : ℕ) (random : Option String) (m : Manifest) (source : Source) (dev : Bool)
      (t : PupManager C D) (o : Option String)
      → (unless_installed host fuel random m source dev t o).1 ≡ none
      → Adopts t (unless_installed host fuel random m source dev t o).0
  unless-Adopts fuel random m source dev t none h = claimed-Adopts fuel random m source dev t h
  unless-Adopts fuel random m source dev t (some id) h = cc

  -- An adoption that reports no error adds one pup. Its address is the one after the last address, and
  -- is within the range; its ports are from 10000 on, available on the host, not consumed by another
  -- pup, and pairwise different.
  pub adopt_pup-Adopts :
      (fuel : ℕ) (random : Option String) (m : Manifest) (source : Source) (dev : Bool)
      (t : PupManager C D)
      → (adopt_pup host fuel random m source dev t).1 ≡ none
      → Adopts t (adopt_pup host fuel random m source dev t).0
  unfolding adopt_pup
  adopt_pup-Adopts fuel random m source dev t h =
      unless-Adopts fuel random m source dev t (find_installed host m source t.state) h

  -- The last address is one of bytes and none of the pups has a greater one.
  pub record IsAllocated (t : PupManager C D) : Type 0 where
    pub bytes : IsIp t.last_ip
    pub below : (p : PupState C) → Memᴰ p t.state → number p.ip ≤ number t.last_ip

  mem_cons :
      (p q : PupState C) (ps : List (PupState C)) (P : PupState C → Type 0)
      → P q
      → ((x : PupState C) → Memᴰ x ps → P x)
      → Memᴰ p (q ∷ ps)
      → P p
  mem_cons p q ps P here later (Memᴰ.head e) = subst P (sym e) here
  mem_cons p q ps P here later (Memᴰ.tail i) = later p i

  -- If no pup has an address above the last one, and the last one is not the very last of all, then an
  -- adoption that reports no error keeps this, and gives the new pup an address above those of all the
  -- other pups.
  pub adopt_pup-IsAllocated :
      (fuel : ℕ) (random : Option String) (m : Manifest) (source : Source) (dev : Bool)
      (t : PupManager C D)
      → IsAllocated t
      → number t.last_ip < 4294967295
      → (adopt_pup host fuel random m source dev t).1 ≡ none
      → let t' = (adopt_pup host fuel random m source dev t).0 in
        IsAllocated t'
        × ((q : PupState C) × (t'.state ≡ q ∷ t.state)
            × ((p : PupState C) → Memᴰ p t.state → number p.ip < number q.ip))
  adopt_pup-IsAllocated fuel random m source dev t a room h =
      let x = adopt_pup-Adopts fuel random m source dev t h in
      let n = number-next_ip t.last_ip a.bytes in
      let up : number (next_ip t.last_ip) ≡ number t.last_ip + 1 = omega arith in
      let above : (p : PupState C) → Memᴰ p t.state → number p.ip < number x.pup.ip =
        λ p i. let le = a.below p i in let e = ap number x.address in omega arith in
      (
        record {
          bytes = subst (λ i. IsIp i) (sym x.last) (next_ip-IsIp t.last_ip a.bytes);
          below = λ p i.
              subst (λ l. number p.ip ≤ number l) (sym x.last)
                (mem_cons p x.pup t.state (λ y. number y.ip ≤ number (next_ip t.last_ip))
                  (let e = ap number x.address in omega arith)
                  (λ y j. let le = a.below y j in omega arith) (subst (λ l. Memᴰ p l) x.indexed i));
        },
        (x.pup, x.indexed, above),
      )
