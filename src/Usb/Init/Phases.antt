-- ===== src/Usb/Init/Phases.antt =====
-- kernel/usb/device.cpp: the order of the phases.
use os_jisaku.Prelude.{arith, refl, ℕ, ◌+◌, ◌==◌, ◌≡◌, ◌≤◌, ◌⊎◌}
use os_jisaku.Usb.Init.{
  UsbDevice, initialize_phase_1, initialize_phase_2, initialize_phase_3, on_control_completed,
  start_initialize,
}
use os_jisaku.Usb.Transfer.{SetupData}

-- The phases go from 0 to 4, and the device is initialized in the last one alone.
pub record IsPhased (d : UsbDevice) : Type 0 where
  pub bound : d.initialize_phase ≤ 4
  pub last : d.is_initialized ≡ (d.initialize_phase == 4)

-- The second phase either changes nothing or starts the third.
pub initialize_phase_2-cases :
    (fuel : ℕ) (buf : ℕ → ℕ) (len : ℕ) (d : UsbDevice)
    → ((initialize_phase_2 fuel buf len d).1 ≡ d)
      ⊎ ((initialize_phase_2 fuel buf len d).1.initialize_phase ≡ 3)
        × ((initialize_phase_2 fuel buf len d).1.is_initialized ≡ d.is_initialized)
unfolding initialize_phase_2
initialize_phase_2-cases fuel buf len d = ground arith

pub start_initialize-IsPhased : (d : UsbDevice) → IsPhased (start_initialize d).1
unfolding start_initialize
start_initialize-IsPhased d = record { bound = omega arith; last = refl }

-- For every completed control transfer, whatever its setup data and its bytes: the phase stays or goes up
-- by one, up to the fourth, and the device is initialized exactly in the fourth phase.
pub on_control_completed-IsPhased :
    (fuel : ℕ) (setup_data : SetupData) (buf : ℕ → ℕ) (len : ℕ) (d : UsbDevice)
    → IsPhased d
    → let next = (on_control_completed fuel setup_data buf len d).1 in
      IsPhased next
      × (d.initialize_phase ≤ next.initialize_phase)
      × (next.initialize_phase ≤ d.initialize_phase + 1)
unfolding on_control_completed initialize_phase_1 initialize_phase_3
on_control_completed-IsPhased fuel setup_data buf len d h =
    ground (arith, initialize_phase_2-cases fuel buf len d)
