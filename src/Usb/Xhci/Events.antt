-- ===== src/Usb/Xhci/Events.antt =====
-- kernel/usb/xhci/xhci.cpp: the invariant over every event.
use os_jisaku.Prelude.{
  &&-iff, ==→≡, Bool, Bool-cases, arith, inl, inr, ltb, not, refl, ℕ, ◌&&◌, ◌<◌, ◌==◌, ◌||◌, ◌≡◌,
}
use os_jisaku.Usb.Codes.{ErrorCode, is_failure}
use os_jisaku.Usb.Contexts.{k_super_speed_plus}
use os_jisaku.Usb.Trb.{
  address_device_command, configure_endpoint_command, enable_slot_command, type_of,
}
use os_jisaku.Usb.Xhci.{
  ConfigPhase, Controller, Event, Hardware, command_completion, complete_configuration, configure,
  configure_endpoints, configure_port, has_device, k_addressing_device, k_configured,
  k_configuring_endpoints, k_enabling_slot, k_initializing_device, k_not_connected,
  k_resetting_port, k_waiting_addressed, on_command_completion, on_device_addressed,
  on_endpoints_done, on_port_status_change, on_transfer, port_status_change, reset_port, same_phase,
  step, transfer, unknown,
}
use os_jisaku.Usb.Xhci.Invariant.{
  IsConsistent, IsOfPort, Reachable, address_device-IsConsistent, after, enable_slot-IsConsistent,
  initially, is_addressing, moved-IsConsistent, not_port_zero, reset_port-IsConsistent,
  same_phase-≡,
}
use os_jisaku.Usb.Xhci.Turns.{next_turn-IsConsistent, on_device_addressed-addressed}

-- A handler that gives `e` on the states of the guards that it passes, and else fails without a change.
on_device_addressed-IsConsistent :
    (hw : Hardware) (slot_id : ℕ) (s : Controller)
    → IsConsistent s
    → IsConsistent (on_device_addressed hw slot_id s).1
unfolding on_device_addressed
on_device_addressed-IsConsistent hw slot_id s h = elim (Bool-cases (has_device slot_id s)) [
  | inr d ↦ rw d h
  | inl d ↦ elim (Bool-cases (hw.root_hub_port_num slot_id == s.addressing_port)) [
    | inr r ↦ rw (d, r) h
    | inl r ↦
        let r' = ==→≡ _ _ r in
        elim (Bool-cases
          (same_phase (s.port_config_phase (hw.root_hub_port_num slot_id)) k_addressing_device)) [
            | inr p ↦ rw (d, r, p) h
            | inl p ↦
                let e = same_phase-≡ _ _ (rw r' at p) in
                rw (on_device_addressed-addressed hw slot_id s d r' e)
                  (next_turn-IsConsistent hw s h e)
          ]
  ]
]

configure_endpoints-IsConsistent :
    (hw : Hardware) (slot_id : ℕ) (s : Controller)
    → IsConsistent s
    → s.port_config_phase (hw.root_hub_port_num slot_id) ≡ k_initializing_device
    → IsConsistent (configure_endpoints hw slot_id s).1
unfolding configure_endpoints
configure_endpoints-IsConsistent hw slot_id s h e =
    let port_id = hw.root_hub_port_num slot_id in
    elim (Bool-cases (hw.speed port_id == 0 || ltb k_super_speed_plus (hw.speed port_id))) [
      | inl c ↦ rw c h
      | inr c ↦ rw c (
          moved-IsConsistent s port_id k_configuring_endpoints h
            (not_port_zero s port_id k_initializing_device h (λ e. cc) e) (rw e))
    ]

on_transfer-IsConsistent :
    (hw : Hardware) (slot_id : ℕ) (err : ErrorCode) (is_initialized : Bool) (s : Controller)
    → IsConsistent s
    → IsConsistent (on_transfer hw slot_id err is_initialized s).1
unfolding on_transfer
on_transfer-IsConsistent hw slot_id err is_initialized s h =
    elim (Bool-cases (has_device slot_id s)) [
      | inr d ↦ rw d h
      | inl d ↦ elim (Bool-cases (is_failure err)) [
        | inl f ↦ rw (d, f) h
        | inr f ↦
            elim (Bool-cases (
              is_initialized
              && same_phase (s.port_config_phase (hw.root_hub_port_num slot_id))
                  k_initializing_device)) [
                    | inr i ↦ rw (d, f, i) h
                    | inl i ↦
                        rw (d, f, i)
                          (configure_endpoints-IsConsistent hw slot_id s h
                            (same_phase-≡ _ _ ((&&-iff _ _).0 i).1))
                  ]
      ]
    ]

on_endpoints_done-IsConsistent :
    (hw : Hardware) (slot_id : ℕ) (s : Controller)
    → IsConsistent s
    → IsConsistent (on_endpoints_done hw slot_id s).1
unfolding on_endpoints_done complete_configuration
on_endpoints_done-IsConsistent hw slot_id s h = elim (Bool-cases (has_device slot_id s)) [
  | inr d ↦ rw d h
  | inl d ↦
      elim (Bool-cases
        (same_phase (s.port_config_phase (hw.root_hub_port_num slot_id)) k_configuring_endpoints)) [
          | inr p ↦ rw (d, p) h
          | inl p ↦
              let e = same_phase-≡ _ _ p in
              rw (d, p)
                (moved-IsConsistent s (hw.root_hub_port_num slot_id) k_configured h
                  (not_port_zero s _ k_configuring_endpoints h (λ e. cc) e) (rw e))
        ]
]

on_port_status_change-IsConsistent :
    (hw : Hardware) (p : ℕ) (s : Controller)
    → IsConsistent s
    → 0 < p
    → (phase : ConfigPhase) → s.port_config_phase p ≡ phase
    → IsConsistent (on_port_status_change hw p s).1
unfolding on_port_status_change
on_port_status_change-IsConsistent hw p s h lt k_not_connected e =
    rw (e, on_port_status_change) (reset_port-IsConsistent hw p s h lt (rw e))
on_port_status_change-IsConsistent hw p s h lt k_resetting_port e =
    rw (e, on_port_status_change) (enable_slot-IsConsistent hw p s h e)
on_port_status_change-IsConsistent hw p s h lt k_waiting_addressed e =
    rw (e, on_port_status_change) h
on_port_status_change-IsConsistent hw p s h lt k_enabling_slot e = rw (e, on_port_status_change) h
on_port_status_change-IsConsistent hw p s h lt k_addressing_device e =
    rw (e, on_port_status_change) h
on_port_status_change-IsConsistent hw p s h lt k_initializing_device e =
    rw (e, on_port_status_change) h
on_port_status_change-IsConsistent hw p s h lt k_configuring_endpoints e =
    rw (e, on_port_status_change) h
on_port_status_change-IsConsistent hw p s h lt k_configured e = rw (e, on_port_status_change) h

pub configure_port-unconnected :
    (hw : Hardware) (p : ℕ) (s : Controller)
    → s.port_config_phase p ≡ k_not_connected
    → configure_port hw p s ≡ reset_port hw p s
unfolding configure_port
configure_port-unconnected hw p s e = rw e

configure_port-IsConsistent :
    (hw : Hardware) (p : ℕ) (s : Controller)
    → IsConsistent s
    → 0 < p
    → IsConsistent (configure_port hw p s).1
unfolding configure_port
configure_port-IsConsistent hw p s h lt =
    elim (Bool-cases (same_phase (s.port_config_phase p) k_not_connected)) [
      | inl t ↦
          let e = same_phase-≡ _ _ t in
          rw (configure_port-unconnected hw p s e) (reset_port-IsConsistent hw p s h lt (rw e))
      | inr f ↦ rw f h
    ]

enable_slot_done-IsConsistent :
    (hw : Hardware) (slot_id : ℕ) (s : Controller)
    → IsConsistent s
    → IsConsistent (on_command_completion hw (type_of enable_slot_command) slot_id s).1
unfolding on_command_completion
enable_slot_done-IsConsistent hw slot_id s h =
    elim (Bool-cases (same_phase (s.port_config_phase s.addressing_port) k_enabling_slot)) [
      | inl t ↦ rw t (address_device-IsConsistent hw slot_id s h (same_phase-≡ _ _ t))
      | inr f ↦ rw f h
    ]

on_command_completion-IsConsistent :
    (hw : Hardware) (issuer_type slot_id : ℕ) (s : Controller)
    → IsConsistent s
    → IsConsistent (on_command_completion hw issuer_type slot_id s).1
unfolding on_command_completion
on_command_completion-IsConsistent hw issuer_type slot_id s h =
    elim (Bool-cases (issuer_type == type_of enable_slot_command)) [
      | inl a ↦ rw (==→≡ _ _ a) (enable_slot_done-IsConsistent hw slot_id s h)
      | inr a ↦ elim (Bool-cases (issuer_type == type_of address_device_command)) [
        | inl b ↦ rw (a, b) (on_device_addressed-IsConsistent hw slot_id s h)
        | inr b ↦ elim (Bool-cases (issuer_type == type_of configure_endpoint_command)) [
          | inl c ↦ rw (a, b, c) (on_endpoints_done-IsConsistent hw slot_id s h)
          | inr c ↦ rw (a, b, c) h
        ]
      ]
    ]

-- Every event, whatever the hardware answers, keeps the invariant.
pub step-IsConsistent :
    (hw : Hardware) (e : Event) (s : Controller)
    → IsOfPort e
    → IsConsistent s
    → IsConsistent (step hw e s).1
unfolding step
step-IsConsistent hw (configure p) s lt h = configure_port-IsConsistent hw p s h lt
step-IsConsistent hw (port_status_change p) s lt h =
    on_port_status_change-IsConsistent hw p s h lt (s.port_config_phase p) refl
step-IsConsistent hw (transfer slot_id err is_initialized) s lt h =
    on_transfer-IsConsistent hw slot_id err is_initialized s h
step-IsConsistent hw (command_completion issuer_type slot_id) s lt h =
    on_command_completion-IsConsistent hw issuer_type slot_id s h
step-IsConsistent hw unknown s lt h = h

Reachable-IsConsistent : (s : Controller) → Reachable s → IsConsistent s
Reachable-IsConsistent _ initially = record { port_zero = refl; one_port = λ q. ground arith }
Reachable-IsConsistent _ (after r hw e lt) =
    step-IsConsistent hw e _ lt (Reachable-IsConsistent _ r)

-- Whatever events come, in whatever order, and whatever the hardware answers to them, as long as the
-- events that name a port name another one than 0 (xHCI numbers its ports from 1): a port is between
-- the start of its reset and the completion of its address command exactly when it is
-- `addressing_port` and that is not 0, so at most one port is, and port 0 never is.
pub Reachable-one_port :
    (s : Controller)
    → Reachable s
    → (q : ℕ)
    → is_addressing (s.port_config_phase q)
      ≡ ((q == s.addressing_port) && not (s.addressing_port == 0))
Reachable-one_port s r q = (Reachable-IsConsistent s r).one_port q
