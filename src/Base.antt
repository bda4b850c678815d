-- ===== src/Base.antt =====
-- Names that every module shares: the libraries', passed on, and those of the children. `Outcome`
-- is what a C++ call comes to: a value, an exception, or behaviour that the language leaves
-- undefined. `Bytes` is a `std::string` or a buffer, one number below 256 for each `char`.
mod Tests
mod Lists
mod Flow
mod Bits
mod Count
mod Int
pub use Tests.*
pub use Lists.*
pub use Flow.*
unfoldable pub use Bits.*
pub use Int.*
unfoldable pub use Count.*
pub use Prim.Native.Nat.{
  ℕ, zero, suc, ◌+◌, ◌-◌, ◌*◌, ◌/◌, ◌%◌, ◌^◌, ◌≤◌, ◌<◌, min, max, bit_and, bit_or, bit_xor,
}
pub use Prim.Native.String.{String}
pub use mathlib.Core.Path.{◌≡◌, refl, sym, ap, ◌∙◌, subst, ◌≡⟨◌⟩◌, ◌∎}
pub use mathlib.Core.Logic.{◌≢◌, ◌↔◌, ◌⊎◌, inl, inr}
pub use mathlib.Core.Bool.{Bool, true, false, not, ◌&&◌, ◌||◌}
pub use mathlib.Core.Option.{Option, none, some}
pub use mathlib.Core.List.{List, [], ◌∷◌, ◌++◌, map, append-nil, append_assoc}
pub use native.Mathlib.Omega.{arith}
unfoldable pub use native.Mathlib.Decide.{dec_lt, ℕ_discrete}
