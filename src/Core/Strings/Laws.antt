-- ===== src/Core/Strings/Laws.antt =====
-- What comes back from the arrays of shared/core/src/fixed_string.rs.
use psyche.Base.{
  Bool-cases, inl, inr, ℕ, zero, suc, ◌+◌, ◌-◌, ◌≤◌, ◌≡◌, ◌≢◌, refl, ap, none, some, List, [], ◌∷◌,
  ◌++◌, ◌==◌, ltb, leb, if◌then◌else◌, length, take, replicate, arith, length-take, length-append,
  ◌∙◌,
}
use psyche.Core.Strings.{from_str_truncated, try_from, to_string, sliced}
use psyche.Core.Utf8.{from_utf8_lossy, replacement, decoded}
use psyche.Core.Utf8.Chars.{encoded, IsChar}
use psyche.Core.Utf8.Decoding.{whole, cut_off}

abbrev pub NoZeros : List ℕ → Type 0
NoZeros [] = Unit
NoZeros (b ∷ bs) = (b ≢ 0) × NoZeros bs

sliced-zeros : (n : ℕ) → sliced (replicate n 0) ≡ []
unfolding sliced
sliced-zeros zero = refl
sliced-zeros (suc n) = refl

sliced-padded : (n : ℕ) (s : List ℕ) → NoZeros s → sliced (s ++ replicate n 0) ≡ s
unfolding sliced
sliced-padded n [] h = sliced-zeros n
sliced-padded n (b ∷ bs) h = ground (arith, sliced-padded n bs h.1)

NoZeros-take : (l : ℕ) (s : List ℕ) → NoZeros s → NoZeros (take l s)
NoZeros-take zero s h = tt
NoZeros-take (suc l) [] h = tt
NoZeros-take (suc l) (b ∷ bs) h = (h.0, NoZeros-take l bs h.1)

NoZeros-append : (s t : List ℕ) → NoZeros s → NoZeros t → NoZeros (s ++ t)
NoZeros-append [] t h k = k
NoZeros-append (b ∷ bs) t h k = (h.0, NoZeros-append bs t h.1 k)

take-all : (l : ℕ) (s : List ℕ) → length s ≤ l → take l s ≡ s
take-all zero [] h = refl
take-all zero (b ∷ bs) h = absurd (omega arith)
take-all (suc l) [] h = refl
take-all (suc l) (b ∷ bs) h = ap (λ t. b ∷ t) (take-all l bs (omega arith))

take-behind : (l : ℕ) (s t : List ℕ) → length s ≤ l → take l (s ++ t) ≡ s ++ take (l - length s) t
take-behind l [] t h = let none_off : l - 0 ≡ l = omega arith in rw none_off refl
take-behind zero (b ∷ bs) t h = absurd (omega arith)
take-behind (suc l) (b ∷ bs) t h =
    let left : suc l - suc (length bs) ≡ l - length bs = omega arith in
    rw left (ap (λ u. b ∷ u) (take-behind l bs t (omega arith)))

take-within : (l : ℕ) (s t : List ℕ) → l ≤ length s → take l (s ++ t) ≡ take l s
take-within zero s t h = refl
take-within (suc l) [] t h = absurd (omega arith)
take-within (suc l) (b ∷ bs) t h = ap (λ u. b ∷ u) (take-within l bs t (omega arith))

length-replicate : (n : ℕ) → length (replicate {A = ℕ} n 0) ≡ n
length-replicate zero = refl
length-replicate (suc n) = ap suc (length-replicate n)

-- The bytes of a `str` with the characters.
abbrev pub utf8 : List ℕ → List ℕ
utf8 [] = []
utf8 (c ∷ cs) = encoded c ++ utf8 cs

-- Characters, none of which is NUL.
abbrev pub Chars : List ℕ → Type 0
Chars [] = Unit
Chars (c ∷ cs) = ((c ≢ 0) × IsChar c) × Chars cs

-- The characters that fit into the bytes, and U+FFFD if the next is cut off.
abbrev pub fitting : ℕ → List ℕ → List ℕ
fitting l [] = []
fitting l (c ∷ cs) =
    let rest = fitting (l - length (encoded c)) cs in
    if leb (length (encoded c)) l then encoded c ++ rest else if l == 0 then [] else replacement

encoded-NoZeros : (c : ℕ) → c ≢ 0 → NoZeros (encoded c)
encoded-NoZeros c h = elim (Bool-cases (ltb c 128)) [
  | inl a ↦ rw a (h, tt)
  | inr a ↦ elim (Bool-cases (ltb c 2048)) [
    | inl b ↦ rw (a, b) (omega arith, (omega arith, tt))
    | inr b ↦ elim (Bool-cases (ltb c 65536)) [
      | inl d ↦ rw (a, b, d) (omega arith, (omega arith, (omega arith, tt)))
      | inr d ↦ rw (a, b, d) (omega arith, (omega arith, (omega arith, (omega arith, tt))))
    ]
  ]
]

utf8-NoZeros : (cs : List ℕ) → Chars cs → NoZeros (utf8 cs)
utf8-NoZeros [] h = tt
utf8-NoZeros (c ∷ cs) h =
    NoZeros-append (encoded c) (utf8 cs) (encoded-NoZeros c h.0.0) (utf8-NoZeros cs h.1)

empty-lossy : from_utf8_lossy [] ≡ []
unfolding decoded
empty-lossy = refl

lossy-zero : (l : ℕ) (s : List ℕ) → l ≡ 0 → from_utf8_lossy (take l s) ≡ []
lossy-zero zero s h = empty-lossy
lossy-zero (suc l) s h = absurd (omega (arith, h))

whole_text : (cs : List ℕ) → Chars cs → from_utf8_lossy (utf8 cs) ≡ utf8 cs
whole_text [] h = empty-lossy
whole_text (c ∷ cs) h = whole c (utf8 cs) h.0.1 ∙ ap (λ t. encoded c ++ t) (whole_text cs h.1)

take-lossy : (l : ℕ) (cs : List ℕ) → Chars cs → from_utf8_lossy (take l (utf8 cs)) ≡ fitting l cs
take-lossy zero [] h = empty-lossy
take-lossy (suc l) [] h = empty-lossy
take-lossy l (c ∷ cs) h = elim (Bool-cases (leb (length (encoded c)) l)) [
  | inl fits ↦
      let front = take-behind l (encoded c) (utf8 cs) (ground (arith, fits)) in
      let rest = take-lossy (l - length (encoded c)) cs h.1 in
      rw fits (
        ap from_utf8_lossy front
        ∙ whole c (take (l - length (encoded c)) (utf8 cs)) h.0.1
        ∙ ap (λ t. encoded c ++ t) rest)
  | inr short ↦ elim (Bool-cases (l == 0)) [
    | inl nothing ↦ rw (short, nothing) (lossy-zero l (utf8 (c ∷ cs)) (ground (arith, nothing)))
    | inr some_left ↦
        let within = take-within l (encoded c) (utf8 cs) (ground (arith, short)) in
        rw (short, some_left)
          (ap from_utf8_lossy within
            ∙ cut_off c l h.0.1 (ground (arith, some_left)) (ground (arith, short)))
  ]
]

-- The bytes of a text of characters other than NUL, cut off after `l` bytes, come back from the array
-- of `l` bytes that `from_str_truncated` makes as the characters that fit, with U+FFFD behind them if
-- the next character is cut off inside; all of them come back from an array that is long enough.
-- `try_from` makes the same array of a text of at most `l` bytes and refuses every other.
pub to_string-from_str_truncated :
    (l : ℕ) (cs : List ℕ)
    → Chars cs
    → (to_string (from_str_truncated l (utf8 cs)) ≡ fitting l cs)
      × ((k : ℕ) → to_string (from_str_truncated (length (utf8 cs) + k) (utf8 cs)) ≡ utf8 cs)
      × (length (from_str_truncated l (utf8 cs)) ≡ l)
      × (try_from l (utf8 cs)
          ≡ (if ltb l (length (utf8 cs)) then none else some (from_str_truncated l (utf8 cs))))
unfolding from_str_truncated try_from to_string
to_string-from_str_truncated l cs h =
    let s : List ℕ = utf8 cs in
    (
      ap from_utf8_lossy (sliced-padded _ (take l s) (NoZeros-take l s (utf8-NoZeros cs h)))
          ∙ take-lossy l cs h,
      (λ k.
          ap from_utf8_lossy (
            sliced-padded _ (take (length s + k) s)
              (NoZeros-take (length s + k) s (utf8-NoZeros cs h)))
          ∙ ap from_utf8_lossy (take-all (length s + k) s (omega arith))
          ∙ whole_text cs h),
      omega (
        arith,
        length-append (take l s) (replicate (l - length s) 0),
        length-take l s,
        length-replicate (l - length s),
      ),
      elim (Bool-cases (ltb l (length s))) [
        | inl long ↦ rw long refl
        | inr fits ↦ rw (fits, take-all l s (ground (arith, fits))) refl
      ],
    )
