-- ===== src/Usb/Xhci/Waiting.antt =====
-- kernel/usb/xhci/xhci.cpp: the ports that wait for their turn.
use os_jisaku.Prelude.{
  ==→≡, ==→≢, Bool-cases, Option-cases, arith, false, inl, inr, none, refl, some, suc, true, zero,
  ℕ, ◌+◌, ◌<◌, ◌==◌, ◌≡◌, ◌≢◌, ◌≤◌,
}
use os_jisaku.Usb.Trb.{address_device_command, type_of}
use os_jisaku.Usb.Xhci.{
  ConfigPhase, Controller, Hardware, command_completion, first_waiting, has_device,
  k_addressing_device, k_initializing_device, k_resetting_port, k_waiting_addressed,
  on_command_completion, same_phase, set_phase, step,
}
use os_jisaku.Usb.Xhci.Turns.{
  first_waiting_waits, next_port-found, on_device_addressed-addressed, ports_apart,
}

-- Where `first_waiting` finds no port, none of those that it looked at waits.
first_waiting-none :
    (left i : ℕ) (s : Controller) (q : ℕ)
    → first_waiting left i s ≡ none
    → i ≤ q
    → q < i + left
    → s.port_config_phase q ≢ k_waiting_addressed
unfolding first_waiting
first_waiting-none zero i s q e le lt w = omega arith
first_waiting-none (suc left) i s q e le lt w =
    elim (Bool-cases (same_phase (s.port_config_phase i) k_waiting_addressed)) [
      | inl t ↦ let b : some i ≡ none = rw t at e in absurd cc
      | inr f ↦ elim (Bool-cases (i == q)) [
        | inl k ↦ let b : true ≡ false = rw (==→≡ i q k, w) at f in absurd cc
        | inr k ↦
            first_waiting-none left (i + 1) s q (rw f at e) (ground (arith, ==→≢ i q k))
              (omega arith) w
      ]
    ]

set_phase_other :
    (s : Controller) (p q : ℕ) (a b : ConfigPhase)
    → p ≢ q
    → (set_phase q b (set_phase p a s)).port_config_phase p ≡ a
set_phase_other s p q a b ne = ground (arith, ne)

==_self : (a : ℕ) → (a == a) ≡ true
==_self a = ground arith

-- In a state where the port with the turn has been given its address: if some port waits, and every
-- port that waits is still connected, then the completion of the address command gives the turn to
-- a port that waited, which starts its reset, and the first port's device starts to initialize.
pub turn_passed :
    (hw : Hardware) (slot_id q : ℕ) (s : Controller)
    → has_device slot_id s ≡ true
    → hw.root_hub_port_num slot_id ≡ s.addressing_port
    → s.port_config_phase s.addressing_port ≡ k_addressing_device
    → q < 256
    → s.port_config_phase q ≡ k_waiting_addressed
    → ((i : ℕ) → s.port_config_phase i ≡ k_waiting_addressed → hw.is_connected i ≡ true)
    → let t = (step hw (command_completion (type_of address_device_command) slot_id) s).1 in
      (s.port_config_phase t.addressing_port ≡ k_waiting_addressed)
      × (t.port_config_phase t.addressing_port ≡ k_resetting_port)
      × (t.port_config_phase s.addressing_port ≡ k_initializing_device)
unfolding step on_command_completion
turn_passed hw slot_id q s d r e lt w c =
    let released = record s { addressing_port = 0 } in
    elim (Option-cases (first_waiting 256 0 released)) [
      | inl n ↦ absurd (first_waiting-none 256 0 released q n (omega arith) (omega arith) w)
      | inr (p, f) ↦
          let w' = first_waiting_waits 256 0 released p f in
          rw
            (
              on_device_addressed-addressed hw slot_id s d r e,
              next_port-found hw released p refl f (c p w'),
            )
            (
              w',
              set_phase_other released p s.addressing_port k_resetting_port k_initializing_device
                  (ports_apart s p s.addressing_port _ _ w' e (λ k. cc)),
              rw (==_self s.addressing_port),
            )
    ]
