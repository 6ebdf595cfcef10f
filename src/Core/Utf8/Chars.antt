-- ===== src/Core/Utf8/Chars.antt =====
-- The characters of a Rust `str` as bytes, and what `String::from_utf8_lossy` makes of them.
use psyche.Base.{
  ℕ, ◌+◌, ◌/◌, ◌%◌, ◌==◌, ◌≤◌, ◌<◌, ◌≢◌, ◌≡◌, refl, some, List, [], ◌∷◌, ltb, if◌then◌else◌, ◌⊎◌,
  inl, inr, Bool-cases, arith,
}
use psyche.Core.Utf8.{Ranges, tail, following}

-- `char::encode_utf8`
abbrev pub encoded : ℕ → List ℕ
encoded c =
    if ltb c 128
    then c ∷ []
    else if ltb c 2048
    then (192 + c / 64) ∷ (128 + c % 64) ∷ []
    else if ltb c 65536
    then (224 + c / 4096) ∷ (128 + c / 64 % 64) ∷ (128 + c % 64) ∷ []
    else (240 + c / 262144) ∷ (128 + c / 4096 % 64) ∷ (128 + c / 64 % 64) ∷ (128 + c % 64) ∷ []

-- The values that a `char` can have: code points but for the surrogates.
abbrev pub IsChar : ℕ → Type 0
IsChar c = (c < 55296) ⊎ ((57344 ≤ c) × (c < 1114112))

-- Bytes in their ranges.
abbrev pub Follow : Ranges → List ℕ → Type 0
Follow [] [] = Unit
Follow [] (b ∷ bs) = ⊥
Follow (r ∷ rs) [] = ⊥
Follow (r ∷ rs) (b ∷ bs) = ((r.0 ≤ b) × (b ≤ r.1)) × Follow rs bs

-- A first byte with the bytes that follow it.
abbrev pub Sequence : List ℕ → Type 0
Sequence bytes =
    (b : ℕ) × (bs : List ℕ) × (rs : Ranges) × (bytes ≡ (b ∷ bs))
    × (following b ≡ some rs)
    × Follow rs bs

ascii : (c : ℕ) → c < 128 → Sequence (c ∷ [])
unfolding following
ascii c h = (c, [], [], refl, ground arith, tt)

two_bytes : (c : ℕ) → 128 ≤ c → c < 2048 → Sequence ((192 + c / 64) ∷ (128 + c % 64) ∷ [])
unfolding following
two_bytes c low high = (
  192 + c / 64,
  (128 + c % 64) ∷ [],
  tail ∷ [],
  refl,
  ground arith,
  ((omega arith, omega arith), tt),
)

zero_or : (n k : ℕ) → (n ≡ 0) ⊎ ((n ≡ k) ⊎ ((n ≢ 0) × (n ≢ k)))
zero_or n k = elim (Bool-cases (n == 0)) [
  | inl zero_here ↦ inl (ground (arith, zero_here))
  | inr some_here ↦ elim (Bool-cases (n == k)) [
    | inl here ↦ inr (inl (ground (arith, here)))
    | inr not_here ↦
        inr (inr ((λ e. ground (arith, some_here, e)), (λ e. ground (arith, not_here, e))))
  ]
]

below : (c : ℕ) → IsChar c → c / 4096 ≡ 13 → 128 + c / 64 % 64 ≤ 159
below c (inl low) h = omega (arith, low, h)
below c (inr (high, top)) h = omega (arith, high, h)

other : (n : ℕ) → n ≢ 0 → n ≢ 13 → n < 16 → following (224 + n) ≡ some (tail ∷ tail ∷ [])
unfolding following
other n a b h = ground arith

-- The first bytes 224 and 237 leave out the short forms and the surrogates.
three_bytes :
    (c : ℕ)
    → 2048 ≤ c
    → c < 65536
    → IsChar c
    → Sequence ((224 + c / 4096) ∷ (128 + c / 64 % 64) ∷ (128 + c % 64) ∷ [])
unfolding following
three_bytes c low high char = elim (zero_or (c / 4096) 13) [
  | inl short ↦ (
    224 + c / 4096,
    (128 + c / 64 % 64) ∷ (128 + c % 64) ∷ [],
    (160, 191) ∷ tail ∷ [],
    refl,
    ground (arith, short),
    ((omega (arith, short), omega arith), ((omega arith, omega arith), tt)),
  )
  | inr (inl surrogate) ↦ (
    224 + c / 4096,
    (128 + c / 64 % 64) ∷ (128 + c % 64) ∷ [],
    (128, 159) ∷ tail ∷ [],
    refl,
    ground (arith, surrogate),
    ((omega arith, below c char surrogate), ((omega arith, omega arith), tt)),
  )
  | inr (inr (a, b)) ↦ (
    224 + c / 4096,
    (128 + c / 64 % 64) ∷ (128 + c % 64) ∷ [],
    tail ∷ tail ∷ [],
    refl,
    other (c / 4096) a b (omega (arith, high)),
    ((omega arith, omega arith), ((omega arith, omega arith), tt)),
  )
]

first_of_four :
    (n : ℕ) → n ≢ 0 → n ≢ 4 → n < 5 → following (240 + n) ≡ some (tail ∷ tail ∷ tail ∷ [])
unfolding following
first_of_four n a b h = ground arith

-- The first byte 240 leaves out the short forms, 244 what is behind the last code point.
four_bytes :
    (c : ℕ)
    → 65536 ≤ c
    → c < 1114112
    → Sequence
        ((240 + c / 262144) ∷ (128 + c / 4096 % 64) ∷ (128 + c / 64 % 64) ∷ (128 + c % 64) ∷ [])
unfolding following
four_bytes c low high =
    let bs : List ℕ = (128 + c / 4096 % 64) ∷ (128 + c / 64 % 64) ∷ (128 + c % 64) ∷ [] in
    elim (zero_or (c / 262144) 4) [
      | inl short ↦ (
        240 + c / 262144,
        bs,
        (144, 191) ∷ tail ∷ tail ∷ [],
        refl,
        ground (arith, short),
        (
          (omega (arith, short), omega arith),
          ((omega arith, omega arith), ((omega arith, omega arith), tt)),
        ),
      )
      | inr (inl last) ↦ (
        240 + c / 262144,
        bs,
        (128, 143) ∷ tail ∷ tail ∷ [],
        refl,
        ground (arith, last),
        (
          (omega arith, omega (arith, last)),
          ((omega arith, omega arith), ((omega arith, omega arith), tt)),
        ),
      )
      | inr (inr (a, b)) ↦ (
        240 + c / 262144,
        bs,
        tail ∷ tail ∷ tail ∷ [],
        refl,
        first_of_four (c / 262144) a b (omega (arith, high)),
        (
          (omega arith, omega arith),
          ((omega arith, omega arith), ((omega arith, omega arith), tt)),
        ),
      )
    ]

top : (c : ℕ) → IsChar c → c < 1114112
top c (inl low) = omega (arith, low)
top c (inr (high, below)) = below

pub encoded-Sequence : (c : ℕ) → IsChar c → Sequence (encoded c)
encoded-Sequence c char = elim (Bool-cases (ltb c 128)) [
  | inl a ↦ let sequence = ascii c (ground (arith, a)) in rw a sequence
  | inr a ↦ elim (Bool-cases (ltb c 2048)) [
    | inl b ↦
        let sequence = two_bytes c (ground (arith, a)) (ground (arith, b)) in rw (a, b) sequence
    | inr b ↦ elim (Bool-cases (ltb c 65536)) [
      | inl d ↦
          let sequence = three_bytes c (ground (arith, b)) (ground (arith, d)) char in
          rw (a, b, d) sequence
      | inr d ↦
          let sequence = four_bytes c (ground (arith, d)) (top c char) in rw (a, b, d) sequence
    ]
  ]
]
