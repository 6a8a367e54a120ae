-- ===== src/Usb/Hid/Tests.antt =====
-- Reports of a keyboard.
use os_jisaku.Prelude.{[], arith, get_or, refl, ℕ, ◌↔◌, ◌∷◌, ◌≡◌}
use os_jisaku.Prelude.Int.{pos}
use os_jisaku.Usb.Descriptors.{keyboard}
use os_jisaku.Usb.Hid.{
  HidDriver, contains, key_push, new_hid_driver, on_data_received, on_interrupt_completed,
  pushed_keys,
}
use os_jisaku.Usb.Hid.Keys.{IsIn, IsNewKey, key_push-IsNewKey}

abbrev keyboard_driver : HidDriver
keyboard_driver = new_hid_driver keyboard 0

-- The key 4 with the left shift held, then the keys 4 and 5 with the left alt.
abbrev first_report : ℕ → ℕ
first_report i = get_or (2 ∷ 0 ∷ 4 ∷ []) i 0

abbrev second_report : ℕ → ℕ
second_report i = get_or (4 ∷ 0 ∷ 4 ∷ 5 ∷ []) i 0

key_push-IsNewKey_example :
    let received = (on_interrupt_completed 3 first_report (pos 8) keyboard_driver).2 in
    IsIn (key_push 5) (on_interrupt_completed 3 second_report (pos 8) received).0
    ↔ IsNewKey keyboard_driver 8 first_report second_report 5
key_push-IsNewKey_example =
    key_push-IsNewKey keyboard_driver 3 8 first_report second_report (pos 8) 5 refl refl
      (omega arith)

-- With the left alt alone in the report before, whose byte is 4, the key 4 is not notified.
left_alt_hides :
    on_data_received keyboard (λ i. get_or (0 ∷ 0 ∷ 4 ∷ []) i 0) (λ i. get_or (4 ∷ []) i 0) ≡ []
unfolding on_data_received pushed_keys contains
left_alt_hides = refl
