-- ===== src/Coordinator/DataSelection.antt =====
-- shared/coordinator/src/data_selection.rs: which node trains on which data. `none` is a panic: a
-- failed assertion, a shuffle out of range, or a word that is left. A `BTreeMap` is the list of its
-- entries in the order of the keys, which is the order in which the loop inserts them.
pub mod Laws
use psyche.Base.{
  ℕ, zero, suc, ◌+◌, ◌-◌, ◌*◌, ◌/◌, ◌%◌, Bool, true, false, Option, none, some, List, [], ◌∷◌, ◌||◌,
  not, ◌==◌, ltb, leb, if◌then◌else◌, length, u64_mod, ◌&&◌,
}
use psyche.Core.Hashing.{Hashing}
use psyche.Core.Shuffle.{deterministic_shuffle}
use psyche.Coordinator.Types.{
  Client, Round, Coordinator, Committee, tie_breaker, verifier, trainer, NodeIdentity,
}
use psyche.Coordinator.Config.{Float64, get_batch_size}
use psyche.Coordinator.Rounds.{current_round, get_sequence_length}
use psyche.Coordinator.Committees.{CommitteeSelection, get_committee}

-- `BatchId`, a closed interval of data indices
pub record BatchId : Type 0 where
  pub start : ℕ
  pub end : ℕ

abbrev pub and_then : {A B : Type 0} → Option A → (A → Option B) → Option B
and_then none k = none
and_then (some a) k = k a

-- `get_target_global_batch_size(Some(round))`, whose product must fit its word
unfoldable pub total_size_of : {T : Type 0} ⦃f : Float64⦄ → Coordinator T → Round → Option ℕ
total_size_of c round =
    if ltb (round.data_index * get_sequence_length c) u64_mod
    then some (get_batch_size c.config (round.data_index * get_sequence_length c))
    else none

-- The batch of the node at a position.
abbrev pub node_batch_size : ℕ → ℕ → ℕ → ℕ
node_batch_size base_size remainder i = base_size + (if ltb i remainder then 1 else 0)

module _ {T : Type 0} where
  -- Whether the committee of a client is a trainer's; the assertions of the other two.
  unfoldable pub is_trainer : Round → Coordinator T → Committee → Option Bool
  is_trainer round c trainer = some true
  is_trainer round c tie_breaker = if round.tie_breaker_tasks == 0 then some false else none
  is_trainer round c verifier = if c.config.verification_percent == 0 then some false else none

  -- The `filter_map` over the clients from `i` on.
  unfoldable pub trainers_from :
      ⦃hashing : Hashing⦄
      → Round
      → Coordinator T
      → CommitteeSelection
      → ℕ
      → List (Client T)
      → Option (List T)
  trainers_from round c selection i [] = some []
  trainers_from round c selection i (client ∷ clients) =
      and_then (get_committee selection i) (λ proof.
        and_then (is_trainer round c proof.committee) (λ trains.
          and_then (trainers_from round c selection (i + 1) clients)
            (λ nodes. some (if trains then client.id ∷ nodes else nodes))))

  -- The loop over the trainers, from position `i` and the given data index on.
  unfoldable pub assign_from : ℕ → ℕ → ℕ → ℕ → List T → Option (List (BatchId × T))
  assign_from base remainder i current [] = some []
  assign_from base remainder i current (node ∷ nodes) =
      let size = node_batch_size base remainder i in
      elim (ltb 0 size) [
        | false ↦ assign_from base remainder (i + 1) current nodes
        | true ↦ elim (ltb (current + size) u64_mod) [
          | false ↦ none
          | true ↦
              and_then (assign_from base remainder (i + 1) (current + size) nodes)
                (λ rest. some ((record { start = current; end = current + size - 1 }, node) ∷ rest))
        ]
      ]

  -- The part of `assign_data_for_state` that follows the shuffle.
  unfoldable pub assign_to : ℕ → ℕ → List T → Option (List (BatchId × T))
  assign_to total_size data_index [] = some []
  assign_to total_size data_index (node ∷ nodes) =
      let n = length (node ∷ nodes) in
      assign_from (total_size / n) (total_size % n) 0 data_index (node ∷ nodes)

  unfoldable pub assign_data_for_state :
      ⦃hashing : Hashing⦄ ⦃f : Float64⦄
      → Coordinator T
      → CommitteeSelection
      → Option (List (BatchId × T))
  assign_data_for_state c selection = and_then (current_round c) (λ round.
      and_then (trainers_from round c selection 0 c.epoch_state.clients) (λ nodes.
        and_then (total_size_of c round) (λ total_size.
          and_then (deterministic_shuffle round.random_seed nodes)
            (λ shuffled. assign_to total_size round.data_index shuffled))))

  -- `get_batch_ids_for_node`
  unfoldable pub get_batch_ids_for_node :
      ⦃node : NodeIdentity T⦄ → List (BatchId × T) → T → List BatchId
  get_batch_ids_for_node [] identity = []
  get_batch_ids_for_node ⦃node⦄ ((interval, assigned) ∷ tree) identity =
      let rest = get_batch_ids_for_node tree identity in
      if node.same assigned identity then interval ∷ rest else rest

-- The loop of `get_batch_ids_for_round`, with `n` nodes to go, which stops at the end of the data.
unfoldable pub batch_ids_from : ℕ → ℕ → ℕ → ℕ → ℕ → ℕ → Option (List BatchId)
batch_ids_from base remainder end i current zero = some []
batch_ids_from base remainder end i current (suc n) =
    let size = node_batch_size base remainder i in
    let batch : BatchId = record { start = current; end = current + size - 1 } in
    elim (ltb 0 size) [
      | false ↦ batch_ids_from base remainder end (i + 1) current n
      | true ↦ elim (ltb (current + size) u64_mod) [
        | false ↦ none
        | true ↦ elim (leb end (current + size)) [
          | true ↦ some (batch ∷ [])
          | false ↦
              and_then (batch_ids_from base remainder end (i + 1) (current + size) n)
                (λ rest. some (batch ∷ rest))
        ]
      ]
    ]

-- The part of `get_batch_ids_for_round` that follows the total size; no nodes are a division by 0.
unfoldable pub batch_ids : ℕ → ℕ → ℕ → Option (List BatchId)
batch_ids total_size start num_trainer_nodes =
    if ltb (start + total_size) u64_mod && not (num_trainer_nodes == 0)
    then batch_ids_from (total_size / num_trainer_nodes) (total_size % num_trainer_nodes)
        (start + total_size) 0 start num_trainer_nodes
    else none

unfoldable pub get_batch_ids_for_round :
    {T : Type 0} ⦃f : Float64⦄ → Round → Coordinator T → ℕ → Option (List BatchId)
get_batch_ids_for_round round c num_trainer_nodes =
    and_then (total_size_of c round)
      (λ total_size. batch_ids total_size round.data_index num_trainer_nodes)

-- The loop of `get_data_index_for_step`, with `n` steps to go.
unfoldable pub data_index_from : {T : Type 0} ⦃f : Float64⦄ → Coordinator T → ℕ → ℕ → Option ℕ
data_index_from c current_data_index zero = some current_data_index
data_index_from c current_data_index (suc n) =
    let tokens = current_data_index * get_sequence_length c in
    let next = current_data_index + get_batch_size c.config tokens in
    elim (ltb tokens u64_mod && ltb next u64_mod) [ true ↦ data_index_from c next n | false ↦ none ]

unfoldable pub get_data_index_for_step : {T : Type 0} ⦃f : Float64⦄ → Coordinator T → ℕ → Option ℕ
get_data_index_for_step c target_step =
    if leb target_step 1 || ltb c.config.total_steps target_step
    then some 0
    else data_index_from c 0 (target_step - 1)
