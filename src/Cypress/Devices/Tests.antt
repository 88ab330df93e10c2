-- ===== src/Cypress/Devices/Tests.antt =====
-- Two devices on the bus, the second one the board that the backend looks for.
use demo_testbench.Base.{
  ℕ, List, [], ◌∷◌, true, false, none, some, texts_eq, done, failed, ◌≡◌, refl,
}
use demo_testbench.Glip.Options.{Number}
use demo_testbench.Glip.Options.Laws.{glip_option_get-none}
use demo_testbench.Cbuf.{Cbuf}
use demo_testbench.Cypress.{Cypress}
use demo_testbench.Cypress.Devices.{
  Device, Usb, dev_bus, dev_addr, vid_name, pid_name, automatic, choose, discover, search_list,
  entry_matches, ids_match, manufacturer_matches, product_matches, usb_devs, select,
  gb_cypressfx2_open,
}
use demo_testbench.Cypress.Devices.Laws.{gb_cypressfx2_open_failure}

abbrev other_device : Device
other_device = record {
  bus_number = 1;
  device_address = 2;
  descriptor = some (7, 9);
  opens = false;
  manufacturer_name = none;
  product_name = none;
}

abbrev board : Device
board = record {
  bus_number = 1;
  device_address = 3;
  descriptor = some (0x221a, 0x0100);
  opens = true;
  manufacturer_name = some (b'T' ∷ b'U' ∷ b'M' ∷ b' ' ∷ b'L' ∷ b'I' ∷ b'S' ∷ []);
  product_name = some (b'G' ∷ b'L' ∷ b'I' ∷ b'P' ∷ []);
}

abbrev bus : List Device
bus = other_device ∷ board ∷ []

found_board : choose (automatic usb_devs) bus ≡ some 1
unfolding texts_eq choose discover search_list entry_matches ids_match manufacturer_matches
    product_matches usb_devs
found_board = refl

abbrev idle : Cbuf
idle = record {
  wr_ptr = 0;
  rd_ptr = 0;
  size = 1;
  bytes = 0 ∷ [];
  hint_max_read_size = 0;
  read_data_tmp_size = 0;
  read_data_tmp = none;
  hint_max_write_size = 0;
  write_data_tmp_size = 0;
  write_data_tmp = none;
}

abbrev closed : Cypress
closed = record {
  connected = false;
  write_buf = idle;
  read_buf = idle;
  write_notification_sem = 0;
  read_notification_sem = 0;
}

-- libusb opens the board and cannot claim its interface.
abbrev busy : Usb
busy = record {
  listed = some bus;
  opened = true;
  configured = true;
  claimed = false;
  reset_set = true;
  reset_cleared = true;
  have_write_struct = true;
  have_read_struct = true;
  write_thread_created = true;
  read_thread_created = true;
}

abbrev unread : List ℕ → Number
unread text = record { val = 0; erange = false; other_error = true; used = 0 }

no_options : select unread [] ≡ some (automatic usb_devs)
unfolding select
no_options =
    rw
      (
        (glip_option_get-none unread [] dev_bus 0 tt).1,
        (glip_option_get-none unread [] dev_addr 0 tt).1,
        (glip_option_get-none unread [] vid_name 0 tt).0,
        (glip_option_get-none unread [] pid_name 0 tt).0,
      )
      refl

gb_cypressfx2_open_failure_example :
    let u' = record closed { connected = true } in
    (gb_cypressfx2_open (λ n. none) unread busy [] closed ≡ done (failed, u'))
    × (gb_cypressfx2_open (λ n. none) unread (record busy { claimed = true }) [] u'
        ≡ done (failed, u'))
gb_cypressfx2_open_failure_example =
    gb_cypressfx2_open_failure (λ n. none) unread busy (record busy { claimed = true }) [] [] closed
      (automatic usb_devs) bus 1 refl no_options refl found_board refl refl
