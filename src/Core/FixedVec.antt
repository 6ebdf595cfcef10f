-- ===== src/Core/FixedVec.antt =====
-- shared/core/src/fixed_vec.rs: a vector of a fixed capacity, which is an array and the number of
-- its slots in use. The capacity `N` is the length of the array, and `T::default()` a parameter.

pub mod Edits
pub mod Laws
pub mod Retains
pub mod Runs
pub mod Shifts
use psyche.Base.{
  ℕ, zero, suc, ◌+◌, ◌-◌, Bool, true, false, Option, none, some, List, [], ◌∷◌, length, get_elem?,
  set, take, ltb, leb, ◌==◌, if◌then◌else◌, replicate, not, ◌≤◌,
}

pub record FixedVec (T : Type 0) : Type 0 where
  pub slots : List T
  pub len : ℕ

module _ {T : Type 0} where
  -- `FixedVec::new`, for the capacity `n`
  unfoldable pub new : T → ℕ → FixedVec T
  new default n = record { slots = replicate n default; len = 0 }

  abbrev pub capacity : FixedVec T → ℕ
  capacity v = length v.slots

  unfoldable pub is_empty : FixedVec T → Bool
  is_empty v = v.len == 0

  unfoldable pub is_full : FixedVec T → Bool
  is_full v = v.len == capacity v

  -- `push`; `none` is its error.
  unfoldable pub push : T → FixedVec T → Option (FixedVec T)
  push value v =
      if ltb v.len (capacity v)
      then some (record { slots = set v.slots v.len value; len = v.len + 1 })
      else none

  -- `get`
  unfoldable pub get : ℕ → FixedVec T → Option T
  get index v = if ltb index v.len then get_elem? v.slots index else none

  -- `pop`: the item, if any, and the vector after it
  unfoldable pub pop : T → FixedVec T → Option T × FixedVec T
  pop default v =
      if ltb 0 v.len
      then (
        get_elem? v.slots (v.len - 1),
        record { slots = set v.slots (v.len - 1) default; len = v.len - 1 },
      )
      else (none, v)

  -- The loop that resets the slots `i .. i + n`.
  unfoldable pub reset : T → ℕ → ℕ → List T → List T
  reset default i zero slots = slots
  reset default i (suc n) slots = reset default (i + 1) n (set slots i default)

  unfoldable pub clear : T → FixedVec T → FixedVec T
  clear default v = record { slots = reset default 0 v.len v.slots; len = 0 }

  -- `extend`: the vector after the items that were pushed, and whether all of them were
  unfoldable pub extend : List T → FixedVec T → Bool × FixedVec T
  extend [] v = (true, v)
  extend (x ∷ xs) v = elim (push x v) [ none ↦ (false, v) | some w ↦ extend xs w ]

  unfoldable pub first : FixedVec T → Option T
  first v = if ltb 0 v.len then get_elem? v.slots 0 else none

  unfoldable pub last : FixedVec T → Option T
  last v = if ltb 0 v.len then get_elem? v.slots (v.len - 1) else none

  -- `self.slots[j] = self.slots[i]`; the callers stay in range, so that nothing is skipped.
  abbrev pub copy : ℕ → ℕ → List T → List T
  copy i j slots = elim (get_elem? slots i) [ none ↦ slots | some x ↦ set slots j x ]

  -- The loop of `remove` over `i .. i + n`.
  unfoldable pub shift_left : ℕ → ℕ → List T → List T
  shift_left i zero slots = slots
  shift_left i (suc n) slots = shift_left (i + 1) n (copy (i + 1) i slots)

  unfoldable pub remove : T → ℕ → FixedVec T → Option T × FixedVec T
  remove default index v =
      if leb v.len index
      then (none, v)
      else let last_pos = v.len - 1 in
        (
          get_elem? v.slots index,
          record {
            slots = set (shift_left index (last_pos - index) v.slots) last_pos default;
            len = v.len - 1;
          },
        )

  -- The loop of `insert` over `(i .. i + n).rev()`.
  unfoldable pub shift_right : ℕ → ℕ → List T → List T
  shift_right i zero slots = slots
  shift_right i (suc n) slots = shift_right i n (copy (i + n) (i + n + 1) slots)

  -- `insert`; `none` is either of its errors.
  unfoldable pub insert : ℕ → T → FixedVec T → Option (FixedVec T)
  insert index element v =
      if leb (capacity v) v.len
      then none
      else if ltb v.len index
      then none
      else some (record {
        slots = set (shift_right index (v.len - index) v.slots) index element;
        len = v.len + 1;
      })

  -- The loop of `retain`, for the `n` items from `read` on: the array, and where the next item
  -- would be written. The slot read is there in a valid vector.
  unfoldable pub retain_from : (T → Bool) → ℕ → ℕ → ℕ → List T → List T × ℕ
  retain_from f zero read write slots = (slots, write)
  retain_from f (suc n) read write slots = elim (get_elem? slots read) [
    | none ↦ (slots, write)
    | some x ↦ elim (f x) [
      | false ↦ retain_from f n (read + 1) write slots
      | true ↦
          retain_from f n (read + 1) (write + 1)
            (if read == write then slots else copy read write slots)
    ]
  ]

  unfoldable pub retain : T → (T → Bool) → FixedVec T → FixedVec T
  retain default f v =
      let (slots, write) = retain_from f v.len 0 0 v.slots in
      record { slots = reset default write (v.len - write) slots; len = write }

  -- The abstract view: the items in use.
  abbrev pub items : FixedVec T → List T
  items v = take v.len v.slots

  abbrev pub IsValid : FixedVec T → Type 0
  IsValid v = v.len ≤ capacity v
