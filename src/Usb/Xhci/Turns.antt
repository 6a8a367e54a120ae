-- ===== src/Usb/Xhci/Turns.antt =====
-- kernel/usb/xhci/xhci.cpp: the end of a port's turn, and every event.
use os_jisaku.Prelude.{
  Bool-cases, Option-cases, [], ap, arith, fun_ext, inl, inr, refl, some, some_inj, suc, sym, true,
  zero, ℕ, ◌+◌, ◌==◌, ◌∙◌, ◌∷◌, ◌≡◌, ◌≢◌, ◌⊎◌,
}
use os_jisaku.Usb.Codes.{k_success}
use os_jisaku.Usb.Xhci.{
  ConfigPhase, Controller, Hardware, call, first_waiting, has_device, initialize_device,
  k_addressing_device, k_initializing_device, k_resetting_port, k_waiting_addressed, next_port,
  on_device_addressed, reset_port, reset_port_register, same_phase, set_phase, start_initialize,
}
use os_jisaku.Usb.Xhci.Invariant.{
  IsConsistent, given_back-IsConsistent, not_port_zero, same_phase-≡, taken-IsConsistent,
}

-- The port that `first_waiting` finds does wait.
pub first_waiting_waits :
    (left i : ℕ) (s : Controller) (p : ℕ)
    → first_waiting left i s ≡ some p
    → s.port_config_phase p ≡ k_waiting_addressed
unfolding first_waiting
first_waiting_waits zero i s p e = absurd cc
first_waiting_waits (suc left) i s p e =
    elim (Bool-cases (same_phase (s.port_config_phase i) k_waiting_addressed)) [
      | inl t ↦ rw (some_inj (rw t at e)) at (same_phase-≡ _ _ t)
      | inr f ↦ first_waiting_waits left (i + 1) s p (rw f at e)
    ]

-- What the reset of a port does that waits, when the turn is free.
pub reset_port-waiting :
    (hw : Hardware) (p : ℕ) (s : Controller)
    → s.addressing_port ≡ 0
    → s.port_config_phase p ≡ k_waiting_addressed
    → hw.is_connected p ≡ true
    → reset_port hw p s ≡ (
      k_success,
      call
          (reset_port_register p ∷ [])
          (set_phase p k_resetting_port (record s { addressing_port = p })),
    )
unfolding reset_port
reset_port-waiting hw p s e w c = rw (c, e, w)

-- The port found takes the free turn, where it is connected.
pub next_port-found :
    (hw : Hardware) (s : Controller) (p : ℕ)
    → s.addressing_port ≡ 0
    → first_waiting 256 0 s ≡ some p
    → hw.is_connected p ≡ true
    → next_port hw s ≡ (
      k_success,
      call
          (reset_port_register p ∷ [])
          (set_phase p k_resetting_port (record s { addressing_port = p })),
    )
unfolding next_port
next_port-found hw s p e f c =
    rw (f, next_port, reset_port-waiting hw p s e (first_waiting_waits 256 0 s p f) c)

-- With the turn free, either no port takes it, or one that waits.
pub next_port-cases :
    (hw : Hardware) (s : Controller)
    → s.addressing_port ≡ 0
    → (next_port hw s ≡ (k_success, s))
      ⊎ (p : ℕ) × (s.port_config_phase p ≡ k_waiting_addressed)
        × (next_port hw s ≡ (
          k_success,
          call
              (reset_port_register p ∷ [])
              (set_phase p k_resetting_port (record s { addressing_port = p })),
        ))
unfolding next_port
next_port-cases hw s e = elim (Option-cases (first_waiting 256 0 s)) [
  | inl n ↦ inl (rw (n, next_port))
  | inr (p, f) ↦ elim (Bool-cases (hw.is_connected p)) [
    | inr c ↦ inl (rw (f, next_port, c, reset_port))
    | inl c ↦ inr (
      p,
      first_waiting_waits 256 0 s p f,
      rw (f, next_port, reset_port-waiting hw p s e (first_waiting_waits 256 0 s p f) c),
    )
  ]
]

-- Changes of the phases of two ports commute.
set_phase_comm :
    (s : Controller) (p q : ℕ) (a b : ConfigPhase)
    → p ≢ q
    → (set_phase p a (set_phase q b s)).port_config_phase
      ≡ (set_phase q b (set_phase p a s)).port_config_phase
set_phase_comm s p q a b ne = fun_ext (λ r. ground (arith, ne))

pub ports_apart :
    (s : Controller) (p q : ℕ) (a b : ConfigPhase)
    → s.port_config_phase p ≡ a
    → s.port_config_phase q ≡ b
    → a ≢ b
    → p ≢ q
ports_apart s p q a b e f ne k = ne (sym e ∙ ap s.port_config_phase k ∙ f)

pub next_turn-IsConsistent :
    (hw : Hardware) (s : Controller)
    → IsConsistent s
    → s.port_config_phase s.addressing_port ≡ k_addressing_device
    → IsConsistent (
        set_phase s.addressing_port k_initializing_device
          (next_port hw (record s { addressing_port = 0 })).1)
next_turn-IsConsistent hw s h e =
    let lt = not_port_zero s s.addressing_port k_addressing_device h (λ e. cc) e in
    let given = given_back-IsConsistent s k_initializing_device h refl lt in
    let t = set_phase s.addressing_port k_initializing_device (record s { addressing_port = 0 }) in
    elim (next_port-cases hw (record s { addressing_port = 0 }) refl) [
      | inl n ↦ rw n given
      | inr (p, w, n) ↦
          rw
            (
              n,
              set_phase_comm s s.addressing_port p k_initializing_device k_resetting_port
                  (ports_apart s _ _ _ _ e w (λ k. cc)),
            )
            (taken-IsConsistent t p given (not_port_zero s p k_waiting_addressed h (λ e. cc) w)
              refl)
    ]

-- The waiting ports never make `next_port` fail.
pub next_port-succeeds :
    (hw : Hardware) (s : Controller) → s.addressing_port ≡ 0 → (next_port hw s).0 ≡ k_success
next_port-succeeds hw s e = elim (next_port-cases hw s e) [ inl n ↦ rw n | inr (p, w, n) ↦ rw n ]

pub has_device-next_port :
    (hw : Hardware) (slot_id : ℕ) (s : Controller)
    → s.addressing_port ≡ 0
    → has_device slot_id (next_port hw s).1 ≡ has_device slot_id s
unfolding has_device
has_device-next_port hw slot_id s e = elim (next_port-cases hw s e) [
  | inl n ↦ rw n
  | inr (p, w, n) ↦ rw n
]

initialize_device-initialized :
    (port_id slot_id : ℕ) (s : Controller)
    → has_device slot_id s ≡ true
    → initialize_device port_id slot_id s ≡ (
      k_success,
      call (start_initialize slot_id ∷ []) (set_phase port_id k_initializing_device s),
    )
unfolding initialize_device
initialize_device-initialized port_id slot_id s d = rw d

-- What a completed address command does where it is in phase.
pub on_device_addressed-addressed :
    (hw : Hardware) (slot_id : ℕ) (s : Controller)
    → has_device slot_id s ≡ true
    → hw.root_hub_port_num slot_id ≡ s.addressing_port
    → s.port_config_phase s.addressing_port ≡ k_addressing_device
    → on_device_addressed hw slot_id s ≡ (
      k_success,
      call (start_initialize slot_id ∷ []) (
          set_phase s.addressing_port k_initializing_device
            (next_port hw (record s { addressing_port = 0 })).1),
    )
unfolding on_device_addressed
on_device_addressed-addressed hw slot_id s d r e =
    let released = record s { addressing_port = 0 } in
    let self : (s.addressing_port == s.addressing_port) ≡ true = ground arith in
    rw (
      d,
      r,
      self,
      e,
      next_port-succeeds hw released refl,
      initialize_device-initialized s.addressing_port slot_id (next_port hw released).1
          (has_device-next_port hw slot_id released refl ∙ d),
    )
