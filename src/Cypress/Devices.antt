-- ===== src/Cypress/Devices.antt =====
-- How `gb_cypressfx2_open` finds its device and connects to it. What libusb answers about the devices
-- is a parameter.
pub mod Laws
mod Tests
use demo_testbench.Base.{
  ℕ, zero, suc, ◌+◌, ◌==◌, ltb, not, ◌&&◌, ◌||◌, if◌then◌else◌, List, [], ◌∷◌, length, take, Bool,
  true, false,
}
use demo_testbench.Base.{
  Option, none, some, Outcome, done, ◌>>=◌, Status, ok, einval, failed, is_ok, texts_eq,
}
use demo_testbench.Cbuf.{Cbuf, init, set_hint_max_read_size}
use demo_testbench.Glip.{Entry}
use demo_testbench.Glip.Options.{
  Number, glip_option_get_uint8, glip_option_get_uint16, glip_option_get_char,
}
use demo_testbench.Cypress.{Cypress, usb_buf_size}

-- `struct usb_dev_entry`; a null pointer is `none`.
pub record UsbDevEntry : Type 0 where
  pub vid : ℕ
  pub pid : ℕ
  pub manufacturer : Option (List ℕ)
  pub product : Option (List ℕ)

-- A device as libusb shows it: `none` where it fails to give a descriptor or a string.
pub record Device : Type 0 where
  pub bus_number : ℕ
  pub device_address : ℕ
  pub descriptor : Option (ℕ × ℕ)
  pub opens : Bool
  pub manufacturer_name : Option (List ℕ)
  pub product_name : Option (List ℕ)

-- `strncmp(str, name, sizeof(str)) == 0`; a string of a device is shorter than `str`.
pub manufacturer_matches : Option (List ℕ) → Option (List ℕ) → Bool
manufacturer_matches none name = true
manufacturer_matches (some filter) none = false
manufacturer_matches (some filter) (some str) = texts_eq str filter

-- `strncmp(str, name, rv) == 0`, with `rv` the length of the device's string.
pub product_matches : Option (List ℕ) → Option (List ℕ) → Bool
product_matches none name = true
product_matches (some filter) none = false
product_matches (some filter) (some str) = texts_eq str (take (length str) filter)

pub ids_match : UsbDevEntry → Option (ℕ × ℕ) → Bool
ids_match e none = false
ids_match e (some (vendor, id)) = (e.vid == vendor) && (e.pid == id)

-- An entry of the search list against a device.
pub entry_matches : UsbDevEntry → Device → Bool
unfolding ids_match manufacturer_matches product_matches
entry_matches e d =
    ids_match e d.descriptor
    && (d.opens
        && (manufacturer_matches e.manufacturer d.manufacturer_name
            && product_matches e.product d.product_name))

-- The search list ends with an entry whose `vid` is 0.
pub search_list : List UsbDevEntry → Device → Bool
search_list [] d = false
search_list (e ∷ es) d =
    let rest = search_list es d in
    if e.vid == 0 then false else if entry_matches e d then true else rest

-- The automatic search: how many devices match, and the index of the last one.
pub discover : List UsbDevEntry → List Device → ℕ → ℕ × Option ℕ → ℕ × Option ℕ
discover entries [] dev_idx found = found
discover entries (d ∷ ds) dev_idx (found_cnt, found_dev_idx) =
    discover entries ds (dev_idx + 1)
      (if search_list entries d then (found_cnt + 1, some dev_idx) else (found_cnt, found_dev_idx))

-- The device on a given bus with a given address.
pub pick : ℕ → ℕ → List Device → ℕ → Option ℕ
pick bus addr [] dev_idx = none
pick bus addr (d ∷ ds) dev_idx =
    let rest = pick bus addr ds (dev_idx + 1) in
    if (d.bus_number == bus) && (d.device_address == addr) then some dev_idx else rest

-- What the options select: a bus and an address, or a search list.
pub data Selection : Type 0 where
  manual : ℕ → ℕ → Selection
  automatic : List UsbDevEntry → Selection

-- "TUM LIS" and "GLIP"
pub usb_devs : List UsbDevEntry
usb_devs =
    record {
      vid = 0x221a;
      pid = 0x0100;
      manufacturer = some (b'T' ∷ b'U' ∷ b'M' ∷ b' ' ∷ b'L' ∷ b'I' ∷ b'S' ∷ []);
      product = some (b'G' ∷ b'L' ∷ b'I' ∷ b'P' ∷ []);
    }
    ∷ []

abbrev pub text_if_set : Status × List ℕ → Option (List ℕ)
text_if_set (s, out) = if is_ok s then some out else none

-- usb_dev_bus
abbrev pub dev_bus : List ℕ
dev_bus = b'u' ∷ b's' ∷ b'b' ∷ b'_' ∷ b'd' ∷ b'e' ∷ b'v' ∷ b'_' ∷ b'b' ∷ b'u' ∷ b's' ∷ []

-- usb_dev_addr
abbrev pub dev_addr : List ℕ
dev_addr = b'u' ∷ b's' ∷ b'b' ∷ b'_' ∷ b'd' ∷ b'e' ∷ b'v' ∷ b'_' ∷ b'a' ∷ b'd' ∷ b'd' ∷ b'r' ∷ []

-- usb_vid
abbrev pub vid_name : List ℕ
vid_name = b'u' ∷ b's' ∷ b'b' ∷ b'_' ∷ b'v' ∷ b'i' ∷ b'd' ∷ []

-- usb_pid
abbrev pub pid_name : List ℕ
pid_name = b'u' ∷ b's' ∷ b'b' ∷ b'_' ∷ b'p' ∷ b'i' ∷ b'd' ∷ []

-- usb_manufacturer
abbrev pub manufacturer_name_option : List ℕ
manufacturer_name_option =
    b'u' ∷ b's' ∷ b'b' ∷ b'_' ∷ b'm' ∷ b'a' ∷ b'n' ∷ b'u' ∷ b'f' ∷ b'a' ∷ b'c' ∷ b't' ∷ b'u' ∷ b'r'
    ∷ b'e' ∷ b'r' ∷ []

-- usb_product
abbrev pub product_name_option : List ℕ
product_name_option =
    b'u' ∷ b's' ∷ b'b' ∷ b'_' ∷ b'p' ∷ b'r' ∷ b'o' ∷ b'd' ∷ b'u' ∷ b'c' ∷ b't' ∷ []

-- `none` where one of two options that belong together is missing.
pub select : (List ℕ → Number) → List Entry → Option Selection
select strtoul options =
    let (bus_s, cfg_bus) = glip_option_get_uint8 strtoul options dev_bus 0 in
    let (addr_s, cfg_addr) = glip_option_get_uint8 strtoul options dev_addr 0 in
    let (vid_s, cfg_vid) = glip_option_get_uint16 strtoul options vid_name 0 in
    let (pid_s, cfg_pid) = glip_option_get_uint16 strtoul options pid_name 0 in
    if not (is_ok bus_s) && is_ok addr_s || is_ok bus_s && not (is_ok addr_s)
    then none
    else if is_ok bus_s
    then some (manual cfg_bus cfg_addr)
    else if not (is_ok vid_s) && is_ok pid_s || is_ok vid_s && not (is_ok pid_s)
    then none
    else if is_ok vid_s
    then some (
        automatic (
          record {
            vid = cfg_vid;
            pid = cfg_pid;
            manufacturer = text_if_set (glip_option_get_char options manufacturer_name_option []);
            product = text_if_set (glip_option_get_char options product_name_option []);
          }
          ∷ []))
    else some (automatic usb_devs)

-- The index of the device to use.
pub choose : Selection → List Device → Option ℕ
choose (manual bus addr) devices = pick bus addr devices 0
choose (automatic entries) devices = (discover entries devices 0 (0, none)).1

-- What libusb and the system answer when a device is opened: whether each call succeeds, in the order of
-- the calls; `listed` are the devices, if they can be listed.
pub record Usb : Type 0 where
  pub listed : Option (List Device)
  pub opened : Bool
  pub configured : Bool
  pub claimed : Bool
  pub reset_set : Bool
  pub reset_cleared : Bool
  pub have_write_struct : Bool
  pub have_read_struct : Bool
  pub write_thread_created : Bool
  pub read_thread_created : Bool

-- The part behind a `cbuf_init` that has succeeded; the pointer is not used where it has failed.
pub with_ring :
    Status × Option Cbuf
    → Cypress
    → (Cbuf → Outcome (Status × Cypress))
    → Outcome (Status × Cypress)
with_ring (ok, some b) u go = go b
with_ring (s, b) u go = done (failed, u)

-- `calloc` is the C library's, for the memory of the rings.
module _ (calloc : ℕ → Option (List ℕ)) where
  pub start_session : Usb → Cypress → Outcome (Status × Cypress)
  unfolding with_ring
  start_session usb u = init calloc usb.have_write_struct usb_buf_size >>= λ w.
      with_ring w u (λ write_ring.
        let u1 = record u { write_buf = (set_hint_max_read_size write_ring 32768).1 } in
        init calloc usb.have_read_struct usb_buf_size >>= λ r. with_ring r u1 (λ read_ring.
          let u2 = record u1 {
            read_buf = read_ring;
            write_notification_sem = 0;
            read_notification_sem = 0;
          } in
          if not usb.write_thread_created
          then done (failed, u2)
          else if not usb.read_thread_created
          then done (failed, u2)
          else done (ok, u2)))

  -- The device is open from here on.
  pub set_up : Usb → Cypress → Outcome (Status × Cypress)
  unfolding start_session
  set_up usb u =
      if not usb.configured
      then done (failed, u)
      else if not usb.claimed
      then done (failed, u)
      else if not usb.reset_set
      then done (failed, u)
      else if not usb.reset_cleared
      then done (failed, u)
      else start_session usb u

  pub open_chosen : Usb → Cypress → Option ℕ → Outcome (Status × Cypress)
  unfolding set_up
  open_chosen usb u none = done (einval, u)
  open_chosen usb u (some dev_idx) =
      if not usb.opened then done (failed, u) else set_up usb (record u { connected = true })

  pub open_selected : Usb → Cypress → Option Selection → Outcome (Status × Cypress)
  unfolding open_chosen
  open_selected usb u none = done (einval, u)
  open_selected usb u (some selection) = elim (usb.listed) [
    | none ↦ done (failed, u)
    | some devices ↦ open_chosen usb u (choose selection devices)
  ]

  pub gb_cypressfx2_open :
      (List ℕ → Number) → Usb → List Entry → Cypress → Outcome (Status × Cypress)
  unfolding open_selected
  gb_cypressfx2_open strtoul usb options u =
      if u.connected then done (failed, u) else open_selected usb u (select strtoul options)
