-- ===== src/Coordinator/Examples/Batches.antt =====
-- Examples for the choice of the data.
use psyche.Base.{ℕ, ◌≡◌, ◌≢◌, ◌+◌, ◌/◌, refl, some, List, [], ◌∷◌, arith}
use psyche.Coordinator.DataSelection.{BatchId, assign_to, assign_from, batch_ids}
use psyche.Coordinator.DataSelection.Laws.{Tiles, Even, keys, assign_to-Tiles, batch_ids-assign_to}

abbrev two_nodes : List ℕ
two_nodes = 10 ∷ 11 ∷ []

-- Five indices from 100 on, for two nodes.
abbrev two_batches : List (BatchId × ℕ)
two_batches = (record { start = 100; end = 102 }, 10) ∷ (record { start = 103; end = 104 }, 11) ∷ []

two_nodes-assigned : assign_to 5 100 two_nodes ≡ some two_batches
unfolding assign_to assign_from
two_nodes-assigned = refl

two_nodes-any : two_nodes ≢ []
two_nodes-any = ground arith

assign_to-Tiles_example : Tiles 100 (keys two_batches) (100 + 5) × Even (5 / 2) (keys two_batches)
assign_to-Tiles_example =
    assign_to-Tiles 5 100 two_nodes two_batches two_nodes-any two_nodes-assigned

batch_ids-assign_to_example :
    (out : List (BatchId × ℕ)) × (assign_to 5 100 two_nodes ≡ some out)
    × (batch_ids 5 100 2 ≡ some (keys out))
batch_ids-assign_to_example = batch_ids-assign_to 5 100 two_nodes (omega arith) two_nodes-any
