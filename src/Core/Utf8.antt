-- ===== src/Core/Utf8.antt =====
-- `String::from_utf8_lossy` of Rust's standard library, which shared/core/src/fixed_string.rs calls:
-- every longest beginning of a character that does not go on to be one becomes U+FFFD.
use psyche.Base.{
  ℕ, zero, suc, ◌+◌, ◌-◌, ◌/◌, ◌%◌, ◌==◌, ◌≤◌, ◌<◌, ◌≢◌, ◌≡◌, refl, ap, true, false, Bool, Option,
  none, some, List, [], ◌∷◌, ◌++◌, length, ltb, leb, if◌then◌else◌, ◌⊎◌, inl, inr, Bool-cases, ◌&&◌,
  arith, take,
}
pub mod Chars
pub mod Decoding

-- The bytes that may follow, first and last byte of each range.
abbrev pub Ranges : Type 0
Ranges = List (ℕ × ℕ)

-- U+FFFD in UTF-8
abbrev pub replacement : List ℕ
replacement = 239 ∷ 191 ∷ 189 ∷ []

abbrev pub tail : ℕ × ℕ
tail = (128, 191)

-- What follows the first byte of a character, `none` if no character starts with the byte.
unfoldable pub following : ℕ → Option Ranges
following b =
    if ltb b 128
    then some []
    else if ltb b 194
    then none
    else if ltb b 224
    then some (tail ∷ [])
    else if b == 224
    then some ((160, 191) ∷ tail ∷ [])
    else if b == 237
    then some ((128, 159) ∷ tail ∷ [])
    else if ltb b 240
    then some (tail ∷ tail ∷ [])
    else if b == 240
    then some ((144, 191) ∷ tail ∷ tail ∷ [])
    else if ltb b 244
    then some (tail ∷ tail ∷ tail ∷ [])
    else if b == 244
    then some ((128, 143) ∷ tail ∷ tail ∷ [])
    else none

-- What is put out, the bytes held back, and what has to follow them.
abbrev pub Turn : Type 0
Turn = List ℕ × List ℕ × Ranges

abbrev pub begun : ℕ → Option Ranges → Turn
begun b none = (replacement, [], [])
begun b (some []) = (b ∷ [], [], [])
begun b (some (r ∷ rs)) = ([], b ∷ [], r ∷ rs)

abbrev pub continued : List ℕ → Ranges → Turn
continued held [] = (held, [], [])
continued held (r ∷ rs) = ([], held, r ∷ rs)

abbrev pub broken : Turn → Turn
broken (out, held, rs) = (replacement ++ out, held, rs)

unfoldable pub turn : List ℕ → Ranges → ℕ → Turn
turn held [] b = begun b (following b)
turn held ((first, last) ∷ rs) b =
    if leb first b && leb b last
    then continued (held ++ b ∷ []) rs
    else broken (begun b (following b))

unfoldable pub decoded : List ℕ → Ranges → List ℕ → List ℕ
decoded held [] [] = []
decoded held (r ∷ rs) [] = replacement
decoded held rs (b ∷ bs) = let t = turn held rs b in t.0 ++ decoded t.1 t.2 bs

abbrev pub from_utf8_lossy : List ℕ → List ℕ
from_utf8_lossy bytes = decoded [] [] bytes
