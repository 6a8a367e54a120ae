-- ===== src/Memory/Init.antt =====
-- kernel/memory_map.hpp and `initialize_memory_manager`: the bitmap after the walk over the
-- firmware's memory map.
pub mod Visits
-- `MemoryType`, by its number.
use os_jisaku.Memory.{
  BitmapMemoryManager, add_size, bytes_per_frame, mark_allocated, set_memory_range,
}
use os_jisaku.Prelude.{
  Bool, Option, false, if◌then◌else◌, ltb, none, some, suc, true, zero, ℕ, ◌%◌, ◌*◌, ◌+◌, ◌-◌, ◌/◌,
  ◌==◌, ◌^◌, ◌||◌,
}

abbrev pub efi_boot_services_code : ℕ
efi_boot_services_code = 3

abbrev pub efi_boot_services_data : ℕ
efi_boot_services_data = 4

abbrev pub efi_conventional_memory : ℕ
efi_conventional_memory = 7

unfoldable pub is_available : ℕ → Bool
is_available memory_type =
    memory_type == efi_boot_services_code
    || memory_type == efi_boot_services_data
    || memory_type == efi_conventional_memory

abbrev pub uefi_page_size : ℕ
uefi_page_size = 4096

-- The fields that the walk reads; `virtual_start` and `attribute` are not used.
pub record MemoryDescriptor : Type 0 where
  pub memory_type : ℕ
  pub physical_start : ℕ
  pub number_of_pages : ℕ

pub record MemoryMap : Type 0 where
  pub buffer : ℕ
  pub map_size : ℕ
  pub descriptor_size : ℕ

-- The manager and `available_end` during the walk.
pub record Walk : Type 0 where
  pub manager : BitmapMemoryManager
  pub available_end : ℕ

-- `number_of_pages * uefi_page_size`, a 64-bit product.
abbrev pub byte_length : MemoryDescriptor → ℕ
byte_length desc = desc.number_of_pages * uefi_page_size % 2 ^ 64

-- The gap below the descriptor.
pub mark_gap : MemoryDescriptor → Walk → Walk
unfolding mark_allocated
mark_gap desc w =
    if ltb w.available_end desc.physical_start
    then record w {
      manager =
          mark_allocated w.manager (w.available_end / bytes_per_frame)
            ((desc.physical_start - w.available_end) / bytes_per_frame);
    }
    else w

-- The body of the loop.
pub visit : MemoryDescriptor → Walk → Walk
unfolding mark_gap is_available
visit desc w =
    let gap = mark_gap desc w in
    if is_available desc.memory_type
    then record gap { available_end = add_size desc.physical_start (byte_length desc) }
    else record gap {
      manager =
          mark_allocated gap.manager (desc.physical_start / bytes_per_frame)
            (byte_length desc / bytes_per_frame);
    }

-- The loop from the address `iter` on, over the descriptors that memory holds; `none` is a loop
-- that ran out of fuel.
module _ (memory : ℕ → MemoryDescriptor) (memory_map : MemoryMap) where
  pub visit_from : ℕ → ℕ → Walk → Option Walk
  unfolding visit
  visit_from zero iter w = none
  visit_from (suc fuel) iter w = elim (ltb iter (add_size memory_map.buffer memory_map.map_size)) [
    | true ↦ visit_from fuel (add_size iter memory_map.descriptor_size) (visit (memory iter) w)
    | false ↦ some w
  ]

  unfoldable pub initialize_memory_manager : BitmapMemoryManager → Option BitmapMemoryManager
  unfolding visit_from set_memory_range
  initialize_memory_manager m =
      elim (visit_from (memory_map.map_size + 1) memory_map.buffer
        (record { manager = m; available_end = 0 })) [
          | some w ↦ some (set_memory_range w.manager 1 (w.available_end / bytes_per_frame))
          | none ↦ none
        ]
