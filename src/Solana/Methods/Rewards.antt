-- ===== src/Solana/Methods/Rewards.antt =====
-- The rewards at the end of an epoch: the loop of `tick` of instance_state.rs.
use psyche.Base.{
  ℕ, zero, suc, ◌+◌, ◌*◌, ◌/◌, ◌≤◌, ◌≡◌, false, some, List, [], ◌∷◌, length, get_elem?, arith, map,
  Option-cases, ◌⊎◌, get_elem?-bound, inl, inr, ◌∙◌, ap,
}
use native.Mathlib.Nat.{div-mul-le_self}
use psyche.Coordinator.Types
use psyche.Coordinator.Lifecycle.{is_healthy}
use psyche.Solana.ClientsState.{ClientId, Client, ClientsEpochRates}
use psyche.Solana.Instance.{earn, slash, reward}

abbrev pub sum_earned : List Client → ℕ
sum_earned [] = 0
sum_earned (x ∷ xs) = x.earned + sum_earned xs

-- What one client gets.
abbrev pub share : List (Types.Client ClientId) → ClientsEpochRates → ℕ
share finished rates = rates.earning_rate_total_shared / length finished

-- A client's turn over the finished ones: it stays as it is, or is paid its share and the index
-- moves on.
abbrev Turn : List (Types.Client ClientId) → ClientsEpochRates → ℕ → ℕ → Client → Client → Type 0
Turn finished rates i j x y =
    ((y ≡ x) × (i ≤ j) × (j ≤ i + 1))
    ⊎ ((y ≡ record x { earned = x.earned + share finished rates }) × (j ≡ i + 1))

earn-Turn :
    (finished : List (Types.Client ClientId)) (rates : ClientsEpochRates) (i j : ℕ) (x y : Client)
    → earn finished rates i x ≡ some (y, j)
    → i ≤ length finished
    → (j ≤ length finished) × Turn finished rates i j x y
unfolding earn
earn-Turn finished rates i j x y h bound = elim (Option-cases (get_elem? finished i)) [
  | inl none_left ↦ ground arith
  | inr (z, e) ↦ ground (arith, get_elem?-bound finished i e)
]

slash-keeps :
    (exited : List (Types.Client ClientId)) (rates : ClientsEpochRates) (i j : ℕ) (x y : Client)
    → slash exited rates i x ≡ some (y, j)
    → (y.earned ≡ x.earned) × (x.slashed ≤ y.slashed) × (y.id ≡ x.id)
unfolding slash
slash-keeps exited rates i j x y h = ground arith

-- Nobody is removed, reordered or made to lose what was earned, and penalties only grow.
abbrev pub Grown : List Client → List Client → Type 0
Grown [] [] = Unit
Grown [] (y ∷ ys) = ⊥
Grown (x ∷ xs) [] = ⊥
Grown (x ∷ xs) (y ∷ ys) =
    ((y.id ≡ x.id) × (x.earned ≤ y.earned) × (x.slashed ≤ y.slashed)) × Grown xs ys

mul-add_one : (q i : ℕ) → q * (i + 1) ≡ q * i + q
mul-add_one q i = ground arith

mul-le : (q i j : ℕ) → i ≤ j → q * i ≤ q * j
mul-le q i j h = grind arith

Turn-bound :
    (finished : List (Types.Client ClientId)) (rates : ClientsEpochRates) (i j : ℕ) (x y : Client)
    → Turn finished rates i j x y
    → (y.earned + share finished rates * i ≤ x.earned + share finished rates * j)
      × (x.earned ≤ y.earned)
      × (y.slashed ≡ x.slashed)
      × (y.id ≡ x.id)
Turn-bound finished rates i j x y t =
    ground (arith, mul-add_one (share finished rates) i, mul-le (share finished rates) i j)

-- The turns of a loop that ends.
reward-cons :
    (finished exited : List (Types.Client ClientId)) (rates : ClientsEpochRates) (i j : ℕ)
    (x : Client) (xs ys : List Client)
    → reward finished exited rates i j (x ∷ xs) ≡ some ys
    → (x' : Client) × (i' : ℕ) × (x'' : Client) × (j' : ℕ) × (rest : List Client) × (earn finished
          rates i x
        ≡ some (x', i'))
      × (slash exited rates j x' ≡ some (x'', j'))
      × (reward finished exited rates i' j' xs ≡ some rest)
      × (ys ≡ x'' ∷ rest)
unfolding reward
reward-cons finished exited rates i j x xs ys h = elim (Option-cases (earn finished rates i x)) [
  | inl e ↦ ground arith
  | inr ((x', i'), e) ↦ elim (Option-cases (slash exited rates j x')) [
    | inl e' ↦ ground arith
    | inr ((x'', j'), e') ↦ elim (Option-cases (reward finished exited rates i' j' xs)) [
      | inl e'' ↦ ground arith
      | inr (rest, e'') ↦ (x', i', x'', j', rest, e, e', e'', ground arith)
    ]
  ]
]

reward-bound :
    (finished exited : List (Types.Client ClientId)) (rates : ClientsEpochRates) (i j : ℕ)
    (xs ys : List Client)
    → reward finished exited rates i j xs ≡ some ys
    → i ≤ length finished
    → (sum_earned ys + share finished rates * i
        ≤ sum_earned xs + share finished rates * length finished)
      × Grown xs ys
unfolding reward
reward-bound finished exited rates i j [] ys h bound =
    let none_left : ys ≡ [] = ground arith in
    rw none_left (omega (arith, mul-le (share finished rates) i (length finished) bound), tt)
reward-bound finished exited rates i j (x ∷ xs) ys h bound =
    let (x', i', x'', j', rest, e, e', later, all) =
      reward-cons finished exited rates i j x xs ys h in
    let (in_range, turn) = earn-Turn finished rates i i' x x' e bound in
    let (paid, more, same, id) = Turn-bound finished rates i i' x x' turn in
    let (kept, worse, id') = slash-keeps exited rates j j' x' x'' e' in
    let (rest_paid, grown) = reward-bound finished exited rates i' j' xs rest later in_range in
    rw all (
      omega (arith, paid, kept, rest_paid),
      ((id' ∙ id, omega (arith, kept, more), omega (arith, worse, same)), grown),
    )

-- When the end of an epoch is accounted for, what all clients earned grows by at most the rate that
-- they share; and every client stays, under its id, keeps what it had earned, and is not forgiven.
pub reward-Grown :
    (finished exited : List (Types.Client ClientId)) (rates : ClientsEpochRates)
    (xs ys : List Client)
    → reward finished exited rates 0 0 xs ≡ some ys
    → (sum_earned ys ≤ sum_earned xs + rates.earning_rate_total_shared) × Grown xs ys
reward-Grown finished exited rates xs ys h =
    let (bound, grown) = reward-bound finished exited rates 0 0 xs ys h (omega arith) in
    (omega (arith, bound, div-mul-le_self rates.earning_rate_total_shared (length finished)), grown)

-- No client of the list is healthy.
abbrev pub NoneHealthy : List (Types.Client ClientId) → Type 0
NoneHealthy [] = Unit
NoneHealthy (x ∷ xs) = (is_healthy x.state ≡ false) × NoneHealthy xs

NoneHealthy-at :
    (xs : List (Types.Client ClientId)) (i : ℕ) (x : Types.Client ClientId)
    → NoneHealthy xs
    → get_elem? xs i ≡ some x
    → is_healthy x.state ≡ false
NoneHealthy-at [] i x h e = cc
NoneHealthy-at (y ∷ xs) zero x h e = ground arith
NoneHealthy-at (y ∷ xs) (suc i) x h e = NoneHealthy-at xs i x h.1 e

earn-NoneHealthy :
    (finished : List (Types.Client ClientId)) (rates : ClientsEpochRates) (i j : ℕ) (x y : Client)
    → NoneHealthy finished
    → earn finished rates i x ≡ some (y, j)
    → y ≡ x
unfolding earn
earn-NoneHealthy finished rates i j x y h e = elim (Option-cases (get_elem? finished i)) [
  | inl none_left ↦ ground arith
  | inr (z, found) ↦ ground (arith, NoneHealthy-at finished i z h found)
]

-- Without a healthy client nobody is paid.
pub reward-NoneHealthy :
    (finished exited : List (Types.Client ClientId)) (rates : ClientsEpochRates) (i j : ℕ)
    (xs ys : List Client)
    → NoneHealthy finished
    → reward finished exited rates i j xs ≡ some ys
    → map Client.earned ys ≡ map Client.earned xs
unfolding reward
reward-NoneHealthy finished exited rates i j [] ys n h = ground arith
reward-NoneHealthy finished exited rates i j (x ∷ xs) ys n h =
    let (x', i', x'', j', rest, e, e', later, all) =
      reward-cons finished exited rates i j x xs ys h in
    let same = earn-NoneHealthy finished rates i i' x x' n e in
    let (kept, worse, id') = slash-keeps exited rates j j' x' x'' e' in
    let others = reward-NoneHealthy finished exited rates i' j' xs rest n later in
    rw (all, kept, same) (ap (λ l. x.earned ∷ l) others)
