-- ===== src/Errors.antt =====
-- kernel/error.hpp: the kernel's error codes, their names, and a value with an error.
pub mod Names
use Prim.Native.String.{String}
use os_jisaku.Prelude.{
  Bool, List, Option, [], false, get_elem?, none, refl, some, true, ℕ, ◌∷◌, ◌≡◌,
}

-- `Error::Code`.
pub data Code : Type 0 where
  success full empty index_out_of_range not_implemented no_pci_msi no_enough_memory : Code
  unknown_pixel_format last_of_code : Code

-- `static_cast<int>(code_)`.
pub num_code : Code → ℕ
num_code success = 0
num_code full = 1
num_code empty = 2
num_code index_out_of_range = 3
num_code not_implemented = 4
num_code no_pci_msi = 5
num_code no_enough_memory = 6
num_code unknown_pixel_format = 7
num_code last_of_code = 8

-- `Error::operator bool`.
unfoldable pub is_error : Code → Bool
is_error success = false
is_error _ = true

abbrev pub code_names : List String
code_names =
    "Success" ∷ "Full" ∷ "Empty" ∷ "IndexOutOfRange" ∷ "NotImplemented" ∷ "NoPCIMSI"
    ∷ "NoEnoughMemory" ∷ []

abbrev or_unknown : Option String → String
or_unknown (some s) = s
or_unknown none = "Unknown"

-- `Error::name`. A read past the table is the guarded case.
pub name : Code → String
unfolding num_code
name c = or_unknown (get_elem? code_names (num_code c))

-- `WithError<T>`.
pub record WithError (A : Type 0) : Type 0 where
  pub value : A
  pub error : Code

pub is_error-false : (c : Code) → is_error c ≡ false → c ≡ success
unfolding is_error
is_error-false success h = refl
is_error-false c h = cc
