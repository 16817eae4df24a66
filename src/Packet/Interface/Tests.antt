-- ===== src/Packet/Interface/Tests.antt =====
-- A run whose `bind` fails, and the theorems at it.
use Prim.Native.Nat.{bit_or}
use file_system_homework.Base.{ℕ, ◌≡◌, ◌⊎◌, refl, true, false, List, [], ◌∷◌, some}
use file_system_homework.Packet.Interface.{
  Device, Outcomes, mode2, iff_promisc, mode_of, promiscuous, main_capture, main_modifier,
  main_capture-device, main_modifier-device,
}

abbrev up : Device
up = record { flags = 0x1043; open_sockets = 0 }

abbrev bind_fails : Outcomes
bind_fails = record {
  socket = true;
  get_address = true;
  get_flags = true;
  set_flags = true;
  get_index = true;
  bind = false;
  restore_flags = true;
}

abbrev mode2_text : List ℕ
mode2_text = b'm' ∷ b'o' ∷ b'd' ∷ b'e' ∷ b'2' ∷ []

runs_mode2 : (main_capture (record bind_fails { bind = true }) mode2_text up).ran ≡ some mode2
unfolding main_capture promiscuous mode_of
runs_mode2 = refl

stays_promiscuous :
    (main_capture (record bind_fails { restore_flags = false }) mode2_text up).device.flags ≡ 0x1143
unfolding main_capture promiscuous
stays_promiscuous = refl

main_capture-device_example :
    let d' = (main_capture bind_fails mode2_text up).device in
    (d'.open_sockets ≡ up.open_sockets)
    × ((d'.flags ≡ up.flags)
        ⊎ ((bind_fails.restore_flags ≡ false) × (d'.flags ≡ bit_or up.flags iff_promisc)))
main_capture-device_example = main_capture-device bind_fails mode2_text up

main_modifier-device_example :
    let d' = (main_modifier bind_fails 3 up).device in
    (d'.open_sockets ≡ up.open_sockets)
    × ((d'.flags ≡ up.flags)
        ⊎ ((bind_fails.restore_flags ≡ false) × (d'.flags ≡ bit_or up.flags iff_promisc)))
    × ((main_modifier bind_fails 3 up).ran ≡ some tt → ◌≡◌ {A = ℕ} 3 3)
main_modifier-device_example = main_modifier-device bind_fails 3 up
