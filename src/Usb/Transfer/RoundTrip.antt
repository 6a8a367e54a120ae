-- ===== src/Usb/Transfer/RoundTrip.antt =====
-- kernel/usb/xhci/device.cpp: a transfer that is started is completed with its own setup data.
use native.Mathlib.Nat.{mod-eq_of_lt}
use os_jisaku.Prelude.{
  arith, false, inl, inr, none, not, refl, some, true, ℕ, ◌&&◌, ◌<◌, ◌==◌, ◌^◌, ◌∙◌, ◌≡◌, ◌≢◌, ◌⊎◌,
}
use os_jisaku.Prelude.Bits.Fields.{
  get_field, get_field-set_field, get_field-set_field_ne, set_field,
}
use os_jisaku.Usb.ArrayMap.{get, has_room, put}
use os_jisaku.Usb.ArrayMap.Gets.{put_absent}
use os_jisaku.Usb.Ring.{Ring, with_cycle}
use os_jisaku.Usb.Ring.Cycle.{trb_type-with_cycle}
use os_jisaku.Usb.Transfer.{
  Device, SetupData, block_address, complete_control, completion_code, make_setup_stage_trb,
  on_transfer_event_received, setup_data_of, setup_parameter, started, transferred,
}
use os_jisaku.Usb.Transfer.Started.{IsStarted}
use os_jisaku.Usb.Trb.{
  Trb, new_setup_stage, normal, setup_stage_layout, trb_type, type_of, with_control,
}

-- Fields of 8 and 16 bits.
pub record IsSetupData (d : SetupData) : Type 0 where
  pub request_type_fits : d.request_type < 2 ^ 8
  pub request_fits : d.request < 2 ^ 8
  pub value_fits : d.value < 2 ^ 16
  pub index_fits : d.index < 2 ^ 16
  pub length_fits : d.length < 2 ^ 16

-- A setup stage holds the data that it was made from.
pub setup_data_of-make_setup_stage_trb :
    (d : SetupData) (transfer_type : ℕ)
    → IsSetupData d
    → setup_data_of (make_setup_stage_trb d transfer_type) ≡ d
unfolding setup_data_of make_setup_stage_trb setup_parameter with_control new_setup_stage
setup_data_of-make_setup_stage_trb d transfer_type h =
    let bits = setup_stage_layout.parameter_bits in
    let p0 = set_field bits 0 d.request_type 0 in
    let p1 = set_field bits 1 d.request p0 in
    let p2 = set_field bits 2 d.value p1 in
    let p3 = set_field bits 3 d.index p2 in
    let p4 = set_field bits 4 d.length p3 in
    let e0 : get_field bits 0 p4 ≡ d.request_type =
      get_field-set_field_ne bits 4 0 d.length p3 (omega arith)
      ∙ get_field-set_field_ne bits 3 0 d.index p2 (omega arith)
      ∙ get_field-set_field_ne bits 2 0 d.value p1 (omega arith)
      ∙ get_field-set_field_ne bits 1 0 d.request p0 (omega arith)
      ∙ get_field-set_field bits 0 d.request_type 0 (omega arith)
      ∙ mod-eq_of_lt h.request_type_fits in
    let e1 : get_field bits 1 p4 ≡ d.request =
      get_field-set_field_ne bits 4 1 d.length p3 (omega arith)
      ∙ get_field-set_field_ne bits 3 1 d.index p2 (omega arith)
      ∙ get_field-set_field_ne bits 2 1 d.value p1 (omega arith)
      ∙ get_field-set_field bits 1 d.request p0 (omega arith)
      ∙ mod-eq_of_lt h.request_fits in
    let e2 : get_field bits 2 p4 ≡ d.value =
      get_field-set_field_ne bits 4 2 d.length p3 (omega arith)
      ∙ get_field-set_field_ne bits 3 2 d.index p2 (omega arith)
      ∙ get_field-set_field bits 2 d.value p1 (omega arith)
      ∙ mod-eq_of_lt h.value_fits in
    let e3 : get_field bits 3 p4 ≡ d.index =
      get_field-set_field_ne bits 4 3 d.length p3 (omega arith)
      ∙ get_field-set_field bits 3 d.index p2 (omega arith)
      ∙ mod-eq_of_lt h.index_fits in
    let e4 : get_field bits 4 p4 ≡ d.length =
      get_field-set_field bits 4 d.length p3 (omega arith) ∙ mod-eq_of_lt h.length_fits in
    rw (e0, e1, e2, e3, e4)

-- What a reader of memory finds at a ring's blocks.
abbrev pub IsMemoryOf : (ℕ → Trb) → Ring → Type 0
IsMemoryOf memory r = (i : ℕ) → i < r.buf_size → memory (block_address r i) ≡ r.buf i

-- A transfer was completed, in full or with a short packet.
abbrev pub IsSuccess : Trb → Type 0
IsSuccess event = (completion_code event ≡ 1) ⊎ (completion_code event ≡ 13)

-- The cycle bit makes no difference to a block's completion.
with_cycle_keeps :
    (c : ℕ) (t : Trb)
    → ((with_cycle c t).parameter ≡ t.parameter) × ((with_cycle c t).status ≡ t.status)
unfolding with_cycle
with_cycle_keeps c t = (refl, refl)

complete_control-with_cycle :
    (event issuer : Trb) (c : ℕ) (d : SetupData)
    → c < 2
    → issuer.control < 2 ^ 32
    → complete_control event (with_cycle c issuer) d ≡ complete_control event issuer d
unfolding complete_control transferred
complete_control-with_cycle event issuer c d h w =
    let (p, s) = with_cycle_keeps c issuer in rw (trb_type-with_cycle c issuer w h, p, s)

setup_data_of-with_cycle : (c : ℕ) (t : Trb) → setup_data_of (with_cycle c t) ≡ setup_data_of t
unfolding setup_data_of
setup_data_of-with_cycle c t = rw ((with_cycle_keeps c t).0)

success_test :
    (event : Trb)
    → IsSuccess event
    → (not (completion_code event == 1) && not (completion_code event == 13)) ≡ false
success_test event (inl e) = rw e
success_test event (inr e) = rw e

-- The event that names the completing block finds the setup stage.
pub completes :
    (memory : ℕ → Trb) (event : Trb) (device : Device) (ep_id : ℕ) (setup completing : Trb)
    (r : Ring) (result : (ℕ × ℕ) × Ring)
    → IsStarted setup completing r result
    → IsMemoryOf memory result.1
    → get ◌==◌ device.setup_stage_map result.0.0 ≡ none
    → has_room device.setup_stage_map ≡ true
    → event.parameter ≡ result.0.0
    → IsSuccess event
    → completing.control < 2 ^ 32
    → trb_type completing ≢ type_of normal
    → (on_transfer_event_received memory event (started ep_id result device)).0
      ≡ complete_control event completing (setup_data_of setup)
unfolding on_transfer_event_received started
completes memory event device ep_id setup completing r result s m absent room names ok word
      no_normal =
    let block : memory event.parameter ≡ with_cycle s.completing_cycle completing =
      rw (names, s.completing_at) (m s.completing_index s.completing_below ∙ s.completing_block) in
    let first : memory result.0.1 ≡ with_cycle s.setup_cycle setup =
      rw s.setup_at (m s.setup_index s.setup_below ∙ s.setup_block) in
    let kind = trb_type-with_cycle s.completing_cycle completing word s.completing_cycle_bound in
    let found_setup : get ◌==◌ (put device.setup_stage_map result.0.0 result.0.1) event.parameter
        ≡ some result.0.1 =
      rw names (
        put_absent ◌==◌ (λ k. ground arith) device.setup_stage_map result.0.0 result.0.1 absent
        ∙ rw room) in
    let t : (type_of normal == trb_type completing) ≡ false = ground (arith, no_normal) in
    rw
      (
        success_test event ok,
        block,
        kind,
        t,
        found_setup,
        first,
        setup_data_of-with_cycle s.setup_cycle setup,
        block,
      )
      (complete_control-with_cycle event completing s.completing_cycle (setup_data_of setup)
        s.completing_cycle_bound word)
