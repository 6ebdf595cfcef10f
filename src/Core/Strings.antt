-- ===== src/Core/Strings.antt =====
-- shared/core/src/fixed_string.rs: texts in arrays of `l` bytes, filled up with zeros. A text is the
-- list of its bytes.
use psyche.Base.{
  Bool-cases, inl, inr, ℕ, zero, suc, ◌-◌, ◌≤◌, ◌≡◌, ◌≢◌, refl, ap, Bool, true, Option, none, some,
  List, [], ◌∷◌, ◌++◌, ◌==◌, ltb, if◌then◌else◌, length, take, replicate, arith, length-take,
  length-append,
}
use psyche.Core.Utf8.{from_utf8_lossy}
pub mod Laws

abbrev pub FixedString : Type 0
FixedString = List ℕ

unfoldable pub from_str_truncated : ℕ → List ℕ → FixedString
from_str_truncated l s = take l s ++ replicate (l - length s) 0

-- `none` is `FixedStringError`.
unfoldable pub try_from : ℕ → List ℕ → Option FixedString
try_from l s = if ltb l (length s) then none else some (s ++ replicate (l - length s) 0)

-- `is_empty`
unfoldable pub is_empty : FixedString → Bool
is_empty [] = true
is_empty (b ∷ bs) = b == 0

-- The bytes in front of the first zero, or all.
unfoldable pub sliced : FixedString → List ℕ
sliced [] = []
sliced (b ∷ bs) = if b == 0 then [] else b ∷ sliced bs

-- `String::from`
unfoldable pub to_string : FixedString → List ℕ
to_string value = from_utf8_lossy (sliced value)
