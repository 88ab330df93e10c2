-- ===== src/Cypress/Devices/Laws.antt =====
-- Which device is chosen, and what a failed attempt to open one leaves.
use demo_testbench.Base.{
  ℕ, ◌+◌, ◌&&◌, if◌then◌else◌, List, [], ◌∷◌, ◌++◌, length, take, Bool, true, false,
}
use demo_testbench.Base.{
  Option, none, some, done, failed, texts_eq_iff, take_front, ◌≡◌, refl, sym, ap, subst, ◌∙◌, arith,
  Bool-cases, inl, inr, ◌⊎◌,
}
use demo_testbench.Glip.{Entry}
use demo_testbench.Glip.Options.{Number}
use demo_testbench.Cypress.{Cypress}
use demo_testbench.Cypress.Devices.{
  UsbDevEntry, Device, Usb, Selection, automatic, search_list, discover, choose, product_matches,
  select, gb_cypressfx2_open, open_selected, open_chosen, set_up,
}

-- No device of a list matches.
unfoldable pub NoneMatch : List UsbDevEntry → List Device → Type 0
NoneMatch entries [] = Unit
NoneMatch entries (d ∷ ds) = (search_list entries d ≡ false) × NoneMatch entries ds

-- The last device of a list that matches, behind `front`.
pub record LastMatch (entries : List UsbDevEntry) (devices front : List Device) : Type 0 where
  pub device : Device
  pub back : List Device
  pub devices_are : devices ≡ front ++ (device ∷ back)
  pub matches : search_list entries device ≡ true
  pub last : NoneMatch entries back

discover_next :
    (entries : List UsbDevEntry) (d : Device) (ds : List Device) (i c : ℕ) (f : Option ℕ) (t : Bool)
    → search_list entries d ≡ t
    → discover entries (d ∷ ds) i (c, f)
      ≡ discover entries ds (i + 1) (if t then (c + 1, some i) else (c, f))
unfolding discover
discover_next entries d ds i c f t e = rw e refl

-- What a search that goes on from the device number `i` comes to.
Found : List UsbDevEntry → List Device → ℕ → Option ℕ → Option ℕ → Type 0
Found entries ds i f r =
    ((r ≡ f) × NoneMatch entries ds)
    ⊎ ((front : List Device) × (r ≡ some (i + length front)) × LastMatch entries ds front)

search_later :
    (entries : List UsbDevEntry) (d : Device) (ds : List Device) (i : ℕ) (r : Option ℕ)
    → (front : List Device) × (r ≡ some (i + 1 + length front)) × LastMatch entries ds front
    → (front : List Device) × (r ≡ some (i + length front)) × LastMatch entries (d ∷ ds) front
search_later entries d ds i r (front, e, m) =
    let after : i + 1 + length front ≡ i + length (d ∷ front) = omega arith in
    (
      d ∷ front,
      e ∙ ap (λ k. some k) after,
      record {
        device = m.device;
        back = m.back;
        devices_are = ap (λ l. d ∷ l) m.devices_are;
        matches = m.matches;
        last = m.last;
      },
    )

search_next :
    (entries : List UsbDevEntry) (d : Device) (ds : List Device) (i : ℕ) (f r : Option ℕ) (t : Bool)
    → search_list entries d ≡ t
    → Found entries ds (i + 1) (if t then some i else f) r
    → Found entries (d ∷ ds) i f r
unfolding NoneMatch Found
search_next entries d ds i f r true yes_d (inl (e, quiet)) =
    let here : i ≡ i + length {A = Device} [] = omega arith in
    inr (
      [],
      e ∙ ap (λ k. some k) here,
      record { device = d; back = ds; devices_are = refl; matches = yes_d; last = quiet },
    )
search_next entries d ds i f r true yes_d (inr later) = inr (search_later entries d ds i r later)
search_next entries d ds i f r false no_d (inl (e, quiet)) = inl (e, (no_d, quiet))
search_next entries d ds i f r false no_d (inr later) = inr (search_later entries d ds i r later)

discover_lem :
    (entries : List UsbDevEntry) (ds : List Device) (i c : ℕ) (f : Option ℕ)
    → Found entries ds i f (discover entries ds i (c, f)).1
unfolding discover NoneMatch Found
discover_lem entries [] i c f = inl (refl, tt)
discover_lem entries (d ∷ ds) i c f = elim (Bool-cases (search_list entries d)) [
  | inl yes_d ↦
      subst (λ p. Found entries (d ∷ ds) i f p.1)
        (sym (discover_next entries d ds i c f true yes_d))
        (search_next entries d ds i f _ true yes_d
          (discover_lem entries ds (i + 1) (c + 1) (some i)))
  | inr no_d ↦
      subst (λ p. Found entries (d ∷ ds) i f p.1)
        (sym (discover_next entries d ds i c f false no_d))
        (search_next entries d ds i f _ false no_d (discover_lem entries ds (i + 1) c f))
]

-- The automatic search finds no device exactly where none matches, and otherwise the last one that
-- does.
pub choose-LastMatch :
    (entries : List UsbDevEntry) (devices : List Device)
    → ((choose (automatic entries) devices ≡ none) × NoneMatch entries devices)
      ⊎ ((front : List Device) × (choose (automatic entries) devices ≡ some (length front))
          × LastMatch entries devices front)
unfolding choose Found
choose-LastMatch entries devices = elim (discover_lem entries devices 0 0 none) [
  | inl r ↦ inl r
  | inr (front, e, m) ↦ inr (front, e ∙ ap (λ k. some k) (omega arith), m)
]

-- A device whose product name is the beginning of the one asked for, even an empty one, passes.
pub product_matches-prefix :
    (str more : List ℕ) → product_matches (some (str ++ more)) (some str) ≡ true
unfolding product_matches
product_matches-prefix str more =
    (texts_eq_iff str (take (length str) (str ++ more))).1
      (sym (take_front str more (length str) refl))

module _ (calloc : ℕ → Option (List ℕ)) where
  set_up_failure :
      (usb : Usb) (u : Cypress)
      → (usb.configured && (usb.claimed && (usb.reset_set && usb.reset_cleared))) ≡ false
      → set_up calloc usb u ≡ done (failed, u)
  unfolding set_up
  set_up_failure usb u f = elim (Bool-cases usb.configured) [
    | inr stop ↦ rw stop refl
    | inl on ↦ elim (Bool-cases usb.claimed) [
      | inr stop ↦ rw (on, stop) refl
      | inl on1 ↦ elim (Bool-cases usb.reset_set) [
        | inr stop ↦ rw (on, on1, stop) refl
        | inl on2 ↦
            let stop : usb.reset_cleared ≡ false = sym (rw (on, on1, on2) refl) ∙ f in
            rw (on, on1, on2, stop) refl
      ]
    ]
  ]

  -- Where a device is chosen and libusb opens it, but cannot set its configuration, claim its interface
  -- or reset it, opening fails and leaves the backend connected: from then on every attempt to open
  -- fails at once, whatever libusb would answer.
  pub gb_cypressfx2_open_failure :
      (strtoul : List ℕ → Number) (usb later : Usb) (options others : List Entry) (u : Cypress)
      (selection : Selection) (devices : List Device) (dev_idx : ℕ)
      → u.connected ≡ false
      → select strtoul options ≡ some selection
      → usb.listed ≡ some devices
      → choose selection devices ≡ some dev_idx
      → usb.opened ≡ true
      → (usb.configured && (usb.claimed && (usb.reset_set && usb.reset_cleared))) ≡ false
      → let u' = record u { connected = true } in
        (gb_cypressfx2_open calloc strtoul usb options u ≡ done (failed, u'))
        × (gb_cypressfx2_open calloc strtoul later others u' ≡ done (failed, u'))
  unfolding gb_cypressfx2_open open_selected open_chosen
  gb_cypressfx2_open_failure strtoul usb later options others u selection devices dev_idx a b c d e
        f =
      (
        rw (a, b, open_selected, c, d, e) (set_up_failure usb (record u { connected = true }) f),
        refl,
      )
