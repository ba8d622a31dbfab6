-- ===== src/Base.antt =====
-- The names that the other modules share: the libraries', passed on, tests and lists over the native
-- numbers, C integers, byte buffers and files.
mod Tests
mod Lists
mod Int
pub mod Order
mod Bytes
pub use Tests.*
pub use Lists.*
pub use Int.*
pub use Bytes.*
unfoldable pub use Int.{to_int}
unfoldable pub use Bytes.{read_bytes, write_bytes}
pub use Prim.Native.Nat.{ℕ, zero, suc, ◌+◌, ◌-◌, ◌*◌, ◌/◌, ◌%◌, ◌^◌, ◌≤◌, ◌<◌, min, max}
pub use mathlib.Core.Path.{◌≡◌, refl, sym, ap, ap₂, subst, ◌∙◌}
pub use mathlib.Core.Logic.{◌≢◌, ◌↔◌, ◌⊎◌, inl, inr}
pub use mathlib.Core.Bool.{Bool, true, false, not, ◌&&◌, ◌||◌}
pub use mathlib.Core.Option.{Option, none, some}
pub use mathlib.Core.List.{List, [], ◌∷◌, ◌++◌, map, append-nil, append_assoc}
pub use native.Mathlib.Omega.{arith}
unfoldable pub use native.Mathlib.Decide.{dec_lt, ℕ_discrete}
