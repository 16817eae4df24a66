-- ===== src/Packet/Interface.antt =====
-- `main` of hw5/HW5_1.c and hw5/HW5_1_5.c: the socket and the flags of the network interface, on every
-- path. Which system calls succeed is an argument.
mod Tests
use Prim.Native.Nat.{bit_or}
use file_system_homework.Base.{
  ℕ, suc, ◌-◌, ◌≡◌, ◌⊎◌, inl, inr, refl, arith, Bool, true, false, not, List, [], ◌∷◌, Option, some,
  none, ◌==◌, same_text, if◌then◌else◌,
}

pub record Device : Type 0 where
  pub flags : ℕ
  pub open_sockets : ℕ

pub record Outcomes : Type 0 where
  pub socket : Bool
  pub get_address : Bool
  pub get_flags : Bool
  pub set_flags : Bool
  pub get_index : Bool
  pub bind : Bool
  pub restore_flags : Bool

pub data Mode : Type 0 where
  mode1 mode2 mode3 : Mode

-- The exit code, the device at the end, and the loop that ran.
pub record Exit (A : Type 0) : Type 0 where
  pub code : ℕ
  pub device : Device
  pub ran : Option A

abbrev pub iff_promisc : ℕ
iff_promisc = 0x100

abbrev open_socket : Device → Device
open_socket d = record d { open_sockets = suc d.open_sockets }

abbrev close_socket : Device → Device
close_socket d = record d { open_sockets = d.open_sockets - 1 }

-- `ioctl(socket_fd, SIOCSIFFLAGS, …)`
abbrev put_flags : Bool → ℕ → Device → Device
put_flags ok v d = if ok then record d { flags = v } else d

-- `ioctl(socket_fd, SIOCSIFFLAGS, &old_ifr); close(socket_fd);`
abbrev clean_up : Outcomes → ℕ → Device → Device
clean_up os old d = close_socket (put_flags os.restore_flags old d)

module _ {A : Type 0} where
  abbrev fail_with : Device → Exit A
  fail_with d = record { code = 1; device = d; ran = none }

  -- From `ioctl(SIOCGIFFLAGS)` on, where both programs do the same; `old` are the flags that it gave.
  pub promiscuous : Outcomes → Option A → Device → Exit A
  promiscuous os loop d =
      let old = d.flags in
      if not os.get_flags
      then fail_with (close_socket d)
      else if not os.set_flags
      then fail_with (close_socket d)
      else (let on = record d { flags = bit_or old iff_promisc } in
          if not os.get_index
          then fail_with (clean_up os old on)
          else if not os.bind
          then fail_with (clean_up os old on)
          else record { code = 0; device = clean_up os old on; ran = loop })

-- `strcmp(mode, …)`; any other text runs none of the three.
pub mode_of : List ℕ → Option Mode
mode_of text =
    if same_text text (b'm' ∷ b'o' ∷ b'd' ∷ b'e' ∷ b'1' ∷ [])
    then some mode1
    else if same_text text (b'm' ∷ b'o' ∷ b'd' ∷ b'e' ∷ b'2' ∷ [])
    then some mode2
    else if same_text text (b'm' ∷ b'o' ∷ b'd' ∷ b'e' ∷ b'3' ∷ [])
    then some mode3
    else none

pub main_capture : Outcomes → List ℕ → Device → Exit Mode
main_capture os mode d =
    if not os.socket
    then fail_with d
    else if not os.get_address
    then fail_with (close_socket (open_socket d))
    else promiscuous os (mode_of mode) (open_socket d)

-- `some tt` is the loop of the program.
pub main_modifier : Outcomes → ℕ → Device → Exit (Unit {0})
main_modifier os argc d =
    if not (argc == 3)
    then fail_with d
    else if not os.socket
    then fail_with d
    else promiscuous os (some tt) (open_socket d)

-- `main` of HW5_1.c leaves no socket open on any path; the flags of the interface are as before, unless the
-- call that restores them fails, and then they are as before with IFF_PROMISC added.
pub main_capture-device :
    (os : Outcomes) (mode : List ℕ) (d : Device)
    → let d' = (main_capture os mode d).device in
      (d'.open_sockets ≡ d.open_sockets)
      × ((d'.flags ≡ d.flags)
          ⊎ ((os.restore_flags ≡ false) × (d'.flags ≡ bit_or d.flags iff_promisc)))
unfolding main_capture promiscuous
main_capture-device os mode d = ground arith

-- The same for `main` of HW5_1_5.c, whose loop runs only with two arguments on the command line.
pub main_modifier-device :
    (os : Outcomes) (argc : ℕ) (d : Device)
    → let d' = (main_modifier os argc d).device in
      (d'.open_sockets ≡ d.open_sockets)
      × ((d'.flags ≡ d.flags)
          ⊎ ((os.restore_flags ≡ false) × (d'.flags ≡ bit_or d.flags iff_promisc)))
      × ((main_modifier os argc d).ran ≡ some tt → argc ≡ 3)
unfolding main_modifier promiscuous
main_modifier-device os argc d = ground arith
