-- ===== src/Usb/Trb/Casts.antt =====
-- kernel/usb/interface/usb/xhci/trb.hpp: what `TRBDynamicCast` relies on.
use os_jisaku.Prelude.{
  ==→≡, Bool-cases, arith, inl, inr, length, none, some, sym, ◌%◌, ◌<◌, ◌==◌, ◌^◌, ◌∙◌, ◌≡◌, ◌≢◌,
}
use os_jisaku.Prelude.Bits.Fields.{field_offset, field_width, get_field-offset, get_field-set_field}
use os_jisaku.Usb.Trb.{
  Trb, TrbKind, control_field, control_layout, cycle_bit, new, trb_dynamic_cast, trb_layout,
  trb_type, type_field, type_of,
}

-- The places of the two fields in every layout.
places :
    (k : TrbKind)
    → (field_offset (control_layout k) (type_field k) ≡ 10)
      × (field_width (control_layout k) (type_field k) ≡ 6)
      × (type_field k < length (control_layout k))
      × (field_width (control_layout k) 0 ≡ 1)
      × (0 < length (control_layout k))
      × (field_offset (control_layout k) 0 ≡ 0)
places k = ground arith

-- Every kind keeps its type and its cycle bit where the generic `TRB` has them: a block's `trb_type` and
-- `cycle_bit`, read by the layout of any kind, are those that `TRBDynamicCast` and the rings read.
pub layouts_agree :
    (k : TrbKind) (t : Trb)
    → (control_field k (type_field k) t ≡ trb_type t) × (control_field k 0 t ≡ cycle_bit t)
unfolding control_field trb_type cycle_bit
layouts_agree k t =
    let (o, w, l, w0, l0, o0) = places k in
    (
      rw (get_field-offset (control_layout k) (type_field k) t.control l, o, w)
          (sym (get_field-offset trb_layout 3 t.control (omega arith))),
      rw (get_field-offset (control_layout k) 0 t.control l0, o0, w0)
          (sym (get_field-offset trb_layout 0 t.control (omega arith))),
    )

-- The numbers of the kinds differ, and each small the field.
type_of_inj : (k j : TrbKind) → type_of k ≡ type_of j → k ≡ j
type_of_inj k j e = ground arith

-- A new block is of its kind.
type-new : (k : TrbKind) → trb_type (new k) ≡ type_of k
unfolding new control_field
type-new k =
    let (o, w, l, w0, l0, o0) = places k in
    let small : type_of k % 2 ^ 6 ≡ type_of k = ground arith in
    sym (layouts_agree k (new k)).0
    ∙ get_field-set_field (control_layout k) (type_field k) (type_of k) 0 l
    ∙ rw w small

-- The cast of a new block succeeds for its own kind, and for no other.
pub trb_dynamic_cast-new :
    (k j : TrbKind)
    → (k ≡ j → trb_dynamic_cast j (new k) ≡ some (new k))
      × (k ≢ j → trb_dynamic_cast j (new k) ≡ none)
unfolding trb_dynamic_cast
trb_dynamic_cast-new k j = rw (type-new k) (
  (λ e. rw e (ground arith)),
  λ ne. elim (Bool-cases (type_of j == type_of k)) [
    | inl t ↦ absurd (ne (sym (type_of_inj j k (==→≡ _ _ t))))
    | inr f ↦ rw f
  ],
)
