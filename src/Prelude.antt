-- ===== src/Prelude.antt =====
-- Names that every module shares: the libraries', and the tests, lists and results of the children.
mod Tests
mod Lists
mod Results
pub mod Fallible
pub use Tests.*
pub use Lists.*
pub use Results.{
  ◌>>=◌, Error, Result, ok, err, service_error, key_error, value_error, runtime_error,
  unique_violation, foreign_key_violation, cancelled_error, data_error, Exec, Result-cases, pure,
  lift, raise, gets, modify, ◌>>◌, or_raise, check,
}
pub use Prim.Native.Nat.{ℕ, zero, suc, ◌+◌, ◌-◌, ◌*◌, ◌^◌, ◌≤◌, ◌<◌, min, max}
pub use mathlib.Core.Path.{◌≡◌, refl, sym, ap, ◌∙◌, subst}
pub use mathlib.Core.Logic.{◌≢◌, ◌↔◌, ◌⊎◌, inl, inr}
pub use mathlib.Core.Bool.{Bool, true, false, not, ◌&&◌, ◌||◌}
pub use mathlib.Core.Option.{Option, none, some}
pub use mathlib.Core.List.{List, [], ◌∷◌, ◌++◌, map}
pub use native.Mathlib.Omega.{arith}
