-- ===== src/Base.antt =====
-- The names that every module shares: the libraries', passed on, and those of the children.
mod Tests
mod Lists
mod Fallible
mod Text
mod Integers
pub mod Sort
pub use Tests.*
pub use Lists.*
pub use Fallible.*
pub use Text.*
pub use Integers.*
pub use Prim.Native.Nat.{ℕ, zero, suc, ◌+◌, ◌-◌, ◌*◌, ◌/◌, ◌%◌, ◌^◌, ◌≤◌, ◌<◌}
pub use mathlib.Core.Path.{◌≡◌, refl, sym, ap, ap₂, subst, ◌∙◌}
pub use mathlib.Core.Logic.{◌≢◌, ◌↔◌, ◌⊎◌, inl, inr}
pub use mathlib.Core.Bool.{Bool, true, false, not, ◌&&◌, ◌||◌}
pub use mathlib.Core.Option.{Option, none, some}
pub use mathlib.Core.List.{List, [], ◌∷◌, ◌++◌, map, append-nil, append_assoc}
pub use native.Mathlib.Omega.{arith}

-- A byte string: `std::string`, `Bytes` and `std::vector<std::byte>` are lists of byte values.
abbrev pub Bytes : Type 0
Bytes = List ℕ

-- The range of a byte, and that of a w-byte unsigned integer.
abbrev pub IsByte : ℕ → Type 0
IsByte b = b < 256

abbrev pub IsUint : ℕ → ℕ → Type 0
IsUint w n = n < 256 ^ w

abbrev pub IsBytes : Bytes → Type 0
IsBytes s = All IsByte s
