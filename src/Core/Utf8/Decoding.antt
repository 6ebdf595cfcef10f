-- ===== src/Core/Utf8/Decoding.antt =====
-- `String::from_utf8_lossy` on whole characters and on a character that is cut off.
use psyche.Base.{
  ℕ, zero, suc, ◌≤◌, ◌<◌, ◌≡◌, refl, ap, true, some, List, [], ◌∷◌, ◌++◌, length, leb, ◌&&◌, arith,
  take, ◌∙◌,
}
use mathlib.Core.List.{append_assoc}
use psyche.Core.Utf8.{decoded, replacement, Ranges, following, turn, from_utf8_lossy}
use psyche.Core.Utf8.Chars.{encoded, IsChar, Follow, encoded-Sequence}

-- The bytes that follow one byte that is held back.
fed :
    (held : List ℕ) (r : ℕ × ℕ) (rs : Ranges) (bs more : List ℕ)
    → Follow (r ∷ rs) bs
    → decoded held (r ∷ rs) (bs ++ more) ≡ (held ++ bs) ++ decoded [] [] more
unfolding decoded turn
fed held r rs [] more h = absurd h
fed held (first, last) [] (b ∷ []) more h =
    let inside : leb first b && leb b last ≡ true = ground (arith, h.0.0, h.0.1) in rw inside refl
fed held (first, last) [] (b ∷ c ∷ bs) more h = absurd h.1
fed held (first, last) (q ∷ rs) (b ∷ bs) more h =
    let inside : leb first b && leb b last ≡ true = ground (arith, h.0.0, h.0.1) in
    rw inside (
      fed (held ++ b ∷ []) q rs bs more h.1
      ∙ ap (λ t. t ++ decoded [] [] more) (append_assoc held (b ∷ []) bs))

-- The bytes of a character break off before its last.
cut :
    (held : List ℕ) (r : ℕ × ℕ) (rs : Ranges) (bs : List ℕ) (k : ℕ)
    → Follow (r ∷ rs) bs
    → k < length bs
    → decoded held (r ∷ rs) (take k bs) ≡ replacement
unfolding decoded turn
cut held r rs [] k h short = absurd h
cut held r rs (b ∷ bs) zero h short = refl
cut held (first, last) [] (b ∷ []) (suc k) h short = absurd (omega (arith, short))
cut held (first, last) [] (b ∷ c ∷ bs) (suc k) h short = absurd h.1
cut held (first, last) (q ∷ rs) (b ∷ bs) (suc k) h short =
    let inside : leb first b && leb b last ≡ true = ground (arith, h.0.0, h.0.1) in
    rw inside (cut (held ++ b ∷ []) q rs bs k h.1 (omega (arith, short)))

sequence_whole :
    (b : ℕ) (bs more : List ℕ) (rs : Ranges)
    → following b ≡ some rs
    → Follow rs bs
    → from_utf8_lossy ((b ∷ bs) ++ more) ≡ (b ∷ bs) ++ from_utf8_lossy more
unfolding decoded turn
sequence_whole b [] more [] starts h = rw starts refl
sequence_whole b (c ∷ bs) more [] starts h = absurd h
sequence_whole b bs more (r ∷ rs) starts h = rw starts (fed (b ∷ []) r rs bs more h)

sequence_cut :
    (b : ℕ) (bs : List ℕ) (rs : Ranges) (k : ℕ)
    → following b ≡ some rs
    → Follow rs bs
    → k < length bs
    → from_utf8_lossy (take (suc k) (b ∷ bs)) ≡ replacement
unfolding decoded turn
sequence_cut b [] [] k starts h short = absurd (omega (arith, short))
sequence_cut b (c ∷ bs) [] k starts h short = absurd h
sequence_cut b bs (r ∷ rs) k starts h short = rw starts (cut (b ∷ []) r rs bs k h short)

pub whole :
    (c : ℕ) (more : List ℕ)
    → IsChar c
    → from_utf8_lossy (encoded c ++ more) ≡ encoded c ++ from_utf8_lossy more
whole c more char =
    let (b, bs, rs, same, starts, h) = encoded-Sequence c char in
    rw same (sequence_whole b bs more rs starts h)

pub cut_off :
    (c k : ℕ)
    → IsChar c
    → 1 ≤ k
    → k < length (encoded c)
    → from_utf8_lossy (take k (encoded c)) ≡ replacement
cut_off c zero char some_left short = absurd (omega (arith, some_left))
cut_off c (suc k) char some_left short =
    let (b, bs, rs, same, starts, h) = encoded-Sequence c char in
    let inside : k < length bs = omega (arith, short, ap length same) in
    rw same (sequence_cut b bs rs k starts h inside)
