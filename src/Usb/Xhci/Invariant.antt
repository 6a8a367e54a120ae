-- ===== src/Usb/Xhci/Invariant.antt =====
-- kernel/usb/xhci/xhci.cpp: one port at a time between its reset and its address.
use os_jisaku.Prelude.{
  ==→≡, Bool, Bool-cases, arith, false, inl, inr, not, suc, sym, true, zero, ℕ, ◌&&◌, ◌<◌, ◌==◌,
  ◌∙◌, ◌≡◌, ◌≢◌,
}
use os_jisaku.Usb.Xhci.{
  ConfigPhase, Controller, Event, Hardware, address_device, alloc_device, configure, enable_slot,
  has_device, k_addressing_device, k_enabling_slot, k_not_connected, k_resetting_port,
  k_waiting_addressed, port_status_change, reset_port, same_phase, set_phase, start, step,
}

-- From the reset to the address.
abbrev pub is_addressing : ConfigPhase → Bool
is_addressing k_resetting_port = true
is_addressing k_enabling_slot = true
is_addressing k_addressing_device = true
is_addressing _ = false

-- The ports are numbered from 1, and the port in such a phase is `addressing_port`.
pub record IsOneTurn (phase : ℕ → ConfigPhase) (addressing_port : ℕ) : Type 0 where
  pub port_zero : phase 0 ≡ k_not_connected
  pub one_port :
      (q : ℕ) → is_addressing (phase q) ≡ ((q == addressing_port) && not (addressing_port == 0))

abbrev pub IsConsistent : Controller → Type 0
IsConsistent s = IsOneTurn s.port_config_phase s.addressing_port

-- The controller numbers the ports of its events from 1.
abbrev pub IsOfPort : Event → Type 0
IsOfPort (configure p) = 0 < p
IsOfPort (port_status_change p) = 0 < p
IsOfPort _ = Unit

-- The states that events lead to from the kernel's start.
pub data Reachable : Controller → Type 0 where
  initially : Reachable start
  after :
      {s : Controller}
      → Reachable s
      → (hw : Hardware) (e : Event) → IsOfPort e
      → Reachable (step hw e s).1

pub same_phase-≡ : (a b : ConfigPhase) → same_phase a b ≡ true → a ≡ b
unfolding same_phase
same_phase-≡ a b h = ground arith

-- A change of phase within or outside the phases of the turn.
pub moved-IsConsistent :
    (s : Controller) (p : ℕ) (phase : ConfigPhase)
    → IsConsistent s
    → 0 < p
    → is_addressing phase ≡ is_addressing (s.port_config_phase p)
    → IsConsistent (set_phase p phase s)
moved-IsConsistent s p phase h lt e = record {
  port_zero = ground (arith, h.port_zero);
  one_port = λ q. elim (Bool-cases (q == p)) [
    | inl t ↦ rw (t, e, sym (==→≡ q p t), h.one_port q)
    | inr f ↦ rw (f, h.one_port q)
  ];
}

-- A free turn is taken by `p`.
pub taken-IsConsistent :
    (s : Controller) (p : ℕ)
    → IsConsistent s
    → 0 < p
    → s.addressing_port ≡ 0
    → IsConsistent (set_phase p k_resetting_port (record s { addressing_port = p }))
taken-IsConsistent s p h lt e = record {
  port_zero = ground (arith, h.port_zero);
  one_port = λ q. ground (arith, h.one_port q);
}

-- The turn is given back.
pub given_back-IsConsistent :
    (s : Controller) (phase : ConfigPhase)
    → IsConsistent s
    → is_addressing phase ≡ false
    → 0 < s.addressing_port
    → IsConsistent (set_phase s.addressing_port phase (record s { addressing_port = 0 }))
given_back-IsConsistent s phase h e lt = record {
  port_zero = ground (arith, h.port_zero);
  one_port = λ q. ground (arith, h.one_port q);
}

-- A port in the turn is `addressing_port`.
pub at_turn :
    (s : Controller) (p : ℕ)
    → IsConsistent s
    → is_addressing (s.port_config_phase p) ≡ true
    → (p ≡ s.addressing_port) × (0 < p)
at_turn s p h e = ground (arith, h.one_port p)

-- A port in any phase but the first is not port 0.
pub not_port_zero :
    (s : Controller) (p : ℕ) (phase : ConfigPhase)
    → IsConsistent s
    → phase ≢ k_not_connected
    → s.port_config_phase p ≡ phase
    → 0 < p
not_port_zero s zero phase h ne e = absurd (ne (sym e ∙ h.port_zero))
not_port_zero s (suc p) phase h ne e = omega arith

pub reset_port-IsConsistent :
    (hw : Hardware) (p : ℕ) (s : Controller)
    → IsConsistent s
    → 0 < p
    → is_addressing (s.port_config_phase p) ≡ false
    → IsConsistent (reset_port hw p s).1
unfolding reset_port
reset_port-IsConsistent hw p s h lt e = elim (Bool-cases (hw.is_connected p)) [
  | inr c ↦ rw c h
  | inl c ↦ elim (Bool-cases (s.addressing_port == 0)) [
    | inr f ↦ rw (c, f) (moved-IsConsistent s p k_waiting_addressed h lt (sym e))
    | inl t ↦
        elim (Bool-cases (
          not (same_phase (s.port_config_phase p) k_not_connected)
          && not (same_phase (s.port_config_phase p) k_waiting_addressed))) [
            | inl o ↦ rw (c, t, o) h
            | inr o ↦ rw (c, t, o) (taken-IsConsistent s p h lt (==→≡ _ _ t))
          ]
  ]
]

pub enable_slot-IsConsistent :
    (hw : Hardware) (p : ℕ) (s : Controller)
    → IsConsistent s
    → s.port_config_phase p ≡ k_resetting_port
    → IsConsistent (enable_slot hw p s).1
unfolding enable_slot
enable_slot-IsConsistent hw p s h e =
    elim (Bool-cases (hw.is_enabled p && hw.is_port_reset_changed p)) [
      | inl c ↦ rw c (
          moved-IsConsistent s p k_enabling_slot h
            (not_port_zero s p k_resetting_port h (λ e. cc) e) (rw e))
      | inr c ↦ rw c h
    ]

pub alloc_device_keeps :
    (slot_id : ℕ) (s : Controller)
    → (alloc_device slot_id s).1 ≡ record s { devices = (alloc_device slot_id s).1.devices }
unfolding alloc_device
alloc_device_keeps slot_id s = ground arith

pub address_device-IsConsistent :
    (hw : Hardware) (slot_id : ℕ) (s : Controller)
    → IsConsistent s
    → s.port_config_phase s.addressing_port ≡ k_enabling_slot
    → IsConsistent (address_device hw s.addressing_port slot_id s).1
unfolding address_device
address_device-IsConsistent hw slot_id s h e =
    let lt = not_port_zero s s.addressing_port k_enabling_slot h (λ e. cc) e in
    elim (Bool-cases (has_device slot_id (alloc_device slot_id s).1)) [
      | inl c ↦
          rw (c, alloc_device_keeps slot_id s)
            (moved-IsConsistent s s.addressing_port k_addressing_device h lt (rw e))
      | inr c ↦ rw (c, alloc_device_keeps slot_id s) h
    ]
