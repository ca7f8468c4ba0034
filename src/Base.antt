-- ===== src/Base.antt =====
-- Names that every part shares: the libraries' names passed on, and the helpers of the children.
mod Tests
mod Lists
mod Int
mod Results
mod Strings
pub use Tests.*
pub use Lists.*
pub use Int.*
pub use Results.*
pub use Strings.{same_text_refl, c_string}
unfoldable pub use Strings.{same_text, store}
pub use Prim.Native.Nat.{ℕ, zero, suc, ◌+◌, ◌-◌, ◌*◌, ◌/◌, ◌%◌, ◌^◌, ◌≤◌, ◌<◌, min, max}
pub use mathlib.Core.Path.{◌≡◌, refl, sym, ap, ◌∙◌, subst}
pub use mathlib.Core.Logic.{◌≢◌, ◌↔◌, ◌⊎◌, inl, inr}
pub use mathlib.Core.Bool.{Bool, true, false, not, ◌&&◌, ◌||◌}
pub use mathlib.Core.Option.{Option, none, some}
pub use mathlib.Core.List.{List, [], ◌∷◌, ◌++◌, map, append-nil, append_assoc}
pub use native.Mathlib.Omega.{arith}

-- A run of bytes, each below 256.
abbrev pub Bytes : Type 0
Bytes = List ℕ
