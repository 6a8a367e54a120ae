-- ===== src/Usb/Xhci/Refusals.antt =====
-- kernel/usb/xhci/xhci.cpp: the events that the driver answers with an error.
use os_jisaku.Prelude.{
  ==→≡, Bool, Bool-cases, [], arith, false, inl, inr, ltb, refl, true, ℕ, ◌&&◌, ◌==◌, ◌||◌, ◌∷◌,
  ◌≡◌, ◌⊎◌,
}
use os_jisaku.Usb.Codes.{ErrorCode, is_failure, k_unknown_xhci_speed_id}
use os_jisaku.Usb.Contexts.{k_super_speed_plus}
use os_jisaku.Usb.Trb.{address_device_command, enable_slot_command, type_of}
use os_jisaku.Usb.Xhci.{
  Controller, Event, Hardware, Result, address_device, alloc_device, call, command_completion,
  complete_configuration, configure, configure_endpoints, configure_port, enable_slot, has_device,
  k_addressing_device, k_initializing_device, prepare_input_context, on_command_completion,
  on_device_addressed, on_endpoints_done, on_port_status_change, on_transfer, port_status_change,
  reset_port, same_phase, step, transfer, unknown,
}
use os_jisaku.Usb.Xhci.Invariant.{same_phase-≡}
use os_jisaku.Usb.Xhci.Turns.{on_device_addressed-addressed}

-- `r` fails only with the state that it was given.
IsUnchanged : Controller → Result → Type 0
IsUnchanged s r = is_failure r.0 ≡ true → r.1 ≡ s

reset_port-IsUnchanged :
    (hw : Hardware) (p : ℕ) (s : Controller) → IsUnchanged s (reset_port hw p s)
unfolding reset_port IsUnchanged
reset_port-IsUnchanged hw p s f = ground arith

enable_slot-IsUnchanged :
    (hw : Hardware) (p : ℕ) (s : Controller) → IsUnchanged s (enable_slot hw p s)
unfolding enable_slot IsUnchanged
enable_slot-IsUnchanged hw p s f = ground arith

address_device-IsUnchanged :
    (hw : Hardware) (p slot_id : ℕ) (s : Controller) → IsUnchanged s (address_device hw p slot_id s)
unfolding address_device alloc_device has_device IsUnchanged
address_device-IsUnchanged hw p slot_id s f = ground arith

on_endpoints_done-IsUnchanged :
    (hw : Hardware) (slot_id : ℕ) (s : Controller) → IsUnchanged s (on_endpoints_done hw slot_id s)
unfolding on_endpoints_done has_device complete_configuration IsUnchanged
on_endpoints_done-IsUnchanged hw slot_id s f = ground arith

-- `r` fails with the state that it was given, or as `ConfigureEndpoints` does on a speed it does not
-- know: with the input context of `slot_id` prepared, and nothing else changed.
IsUnconfigured : ℕ → Controller → Result → Type 0
IsUnconfigured slot_id s r =
    is_failure r.0 ≡ true
    → (r.1 ≡ s) ⊎ (r ≡ (k_unknown_xhci_speed_id, call (prepare_input_context slot_id ∷ []) s))

configure_endpoints-IsUnconfigured :
    (hw : Hardware) (slot_id : ℕ) (s : Controller)
    → IsUnconfigured slot_id s (configure_endpoints hw slot_id s)
unfolding configure_endpoints IsUnconfigured
configure_endpoints-IsUnconfigured hw slot_id s =
    let port_speed = hw.speed (hw.root_hub_port_num slot_id) in
    elim (Bool-cases ((port_speed == 0) || ltb k_super_speed_plus port_speed)) [
      | inl bad ↦ rw bad (λ f. inr refl)
      | inr good ↦ rw good (λ f. absurd (cc))
    ]

on_transfer-IsUnconfigured :
    (hw : Hardware) (slot_id : ℕ) (err : ErrorCode) (is_initialized : Bool) (s : Controller)
    → IsUnconfigured slot_id s (on_transfer hw slot_id err is_initialized s)
unfolding on_transfer IsUnconfigured
on_transfer-IsUnconfigured hw slot_id err is_initialized s =
    let phase = s.port_config_phase (hw.root_hub_port_num slot_id) in
    elim (Bool-cases (has_device slot_id s)) [
      | inr d ↦ rw d (λ f. inl refl)
      | inl d ↦ elim (Bool-cases (is_failure err)) [
        | inl e ↦ rw (d, e) (λ f. inl refl)
        | inr e ↦ elim (Bool-cases (is_initialized && same_phase phase k_initializing_device)) [
          | inl ready ↦ rw (d, e, ready) (configure_endpoints-IsUnconfigured hw slot_id s)
          | inr waits ↦ rw (d, e, waits) (λ f. inl refl)
        ]
      ]
    ]

on_transfer_waits :
    (hw : Hardware) (slot_id : ℕ) (err : ErrorCode) (s : Controller)
    → IsUnchanged s (on_transfer hw slot_id err false s)
unfolding on_transfer IsUnchanged
on_transfer_waits hw slot_id err s f = ground arith

on_port_status_change-IsUnchanged :
    (hw : Hardware) (p : ℕ) (s : Controller) → IsUnchanged s (on_port_status_change hw p s)
unfolding on_port_status_change IsUnchanged
on_port_status_change-IsUnchanged hw p s f = ground arith

on_device_addressed-IsUnchanged :
    (hw : Hardware) (slot_id : ℕ) (s : Controller)
    → IsUnchanged s (on_device_addressed hw slot_id s)
unfolding on_device_addressed IsUnchanged
on_device_addressed-IsUnchanged hw slot_id s = elim (Bool-cases (has_device slot_id s)) [
  | inr d ↦ rw d (λ f. refl)
  | inl d ↦ elim (Bool-cases (hw.root_hub_port_num slot_id == s.addressing_port)) [
    | inr r ↦ rw (d, r) (λ f. refl)
    | inl r ↦
        let r' = ==→≡ _ _ r in
        elim (Bool-cases
          (same_phase (s.port_config_phase (hw.root_hub_port_num slot_id)) k_addressing_device)) [
            | inr p ↦ rw (d, r, p) (λ f. refl)
            | inl p ↦
                rw (on_device_addressed-addressed hw slot_id s d r' (same_phase-≡ _ _ (rw r' at p)))
                  (λ f. cc)
          ]
  ]
]

configure_port-IsUnchanged :
    (hw : Hardware) (p : ℕ) (s : Controller) → IsUnchanged s (configure_port hw p s)
unfolding configure_port IsUnchanged
configure_port-IsUnchanged hw p s f = ground arith

on_command_completion-IsUnchanged :
    (hw : Hardware) (issuer_type slot_id : ℕ) (s : Controller)
    → IsUnchanged s (on_command_completion hw issuer_type slot_id s)
unfolding on_command_completion IsUnchanged
on_command_completion-IsUnchanged hw issuer_type slot_id s =
    elim (Bool-cases (issuer_type == type_of enable_slot_command)) [
      | inl a ↦
          rw (==→≡ _ _ a)
            (λ f. ground (arith, address_device-IsUnchanged hw s.addressing_port slot_id s))
      | inr a ↦ elim (Bool-cases (issuer_type == type_of address_device_command)) [
        | inl b ↦ rw (a, b) (on_device_addressed-IsUnchanged hw slot_id s)
        | inr b ↦ rw (a, b) (λ f. ground (arith, on_endpoints_done-IsUnchanged hw slot_id s))
      ]
    ]

-- In every state, an event that the driver answers with an error changes none of the phases, the
-- addressing port, the devices held and the calls made, with one exception: when the error is
-- `k_unknown_xhci_speed_id` from the configuration of a device's endpoints after a transfer, the slot's
-- input context has been prepared, and nothing else is changed.
pub step_error_unchanged :
    (hw : Hardware) (e : Event) (s : Controller)
    → is_failure (step hw e s).0 ≡ true
    → ((step hw e s).1 ≡ s)
      ⊎ ((slot_id : ℕ) × (err : ErrorCode) × (e ≡ transfer slot_id err true)
          × (step hw e s ≡ (k_unknown_xhci_speed_id, call (prepare_input_context slot_id ∷ []) s)))
unfolding step IsUnchanged IsUnconfigured
step_error_unchanged hw (configure p) s f = inl (configure_port-IsUnchanged hw p s f)
step_error_unchanged hw (port_status_change p) s f =
    inl (on_port_status_change-IsUnchanged hw p s f)
step_error_unchanged hw (transfer slot_id err true) s f =
    elim (on_transfer-IsUnconfigured hw slot_id err true s f) [
      | inl same ↦ inl same
      | inr prepared ↦ inr (slot_id, err, refl, prepared)
    ]
step_error_unchanged hw (transfer slot_id err false) s f =
    inl (on_transfer_waits hw slot_id err s f)
step_error_unchanged hw (command_completion issuer_type slot_id) s f =
    inl (on_command_completion-IsUnchanged hw issuer_type slot_id s f)
step_error_unchanged hw unknown s f = inl refl
