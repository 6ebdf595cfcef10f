-- ===== src/Coordinator/Messages/Warmups.antt =====
-- Witnesses of the warmup: `warmup_witness` of shared/coordinator/src/coordinator.rs.
use psyche.Base.{
  ℕ, zero, suc, ◌≤◌, ◌≡◌, ◌≢◌, refl, none, some, List, [], ◌∷◌, length, get_elem?, ok, panic, arith,
  get_elem?-set_self, get_elem?-bound,
}
use psyche.Coordinator.Types.{NodeIdentity, warmup, Witness, Round, Coordinator}
use psyche.Coordinator.Config.{Float64}
use psyche.Coordinator.Rounds.{current_round, current_round_unchecked, update_current_round, halted}
use psyche.Coordinator.Messages.{
  expected_witnesses, add_witness, check_duplicates, push_witness, record_witness, warmup_witness,
}
use psyche.Coordinator.Messages.Witnesses.{witnessed}

get_elem?-past {ℓ} : {A : Type ℓ} (xs : List A) (i : ℕ) → length xs ≤ i → get_elem? xs i ≡ none
get_elem?-past [] i h = refl
get_elem?-past (x ∷ xs) zero h = absurd (omega arith)
get_elem?-past (x ∷ xs) (suc i) h = get_elem?-past xs i (omega arith)

module _ {T : Type 0} ⦃node : NodeIdentity T⦄ ⦃f : Float64⦄ where
  -- The first witness of a warmup, if its index is that of no client and not just one witness is
  -- expected, is accepted from anyone, since nothing checks its proof. Every later warmup witness,
  -- whoever sends it, then makes the coordinator panic.
  pub warmup_witness_poisons :
      (from : T) (w : Witness) (now seed : ℕ) (c : Coordinator T) (r : Round)
      → c.run_state ≡ warmup
      → current_round c ≡ some r
      → r.witnesses ≡ []
      → expected_witnesses c ≢ 1
      → length c.epoch_state.clients ≤ w.proof.index
      → (warmup_witness from w now seed c ≡ ok tt (witnessed r w c))
        × ((from' : T) (w' : Witness) (now' seed' : ℕ)
            → warmup_witness from' w' now' seed' (witnessed r w c) ≡ panic)
  unfolding warmup_witness halted record_witness push_witness check_duplicates
      current_round_unchecked update_current_round current_round
  warmup_witness_poisons from w now seed c r e found empty more out = (
    ground arith,
    λ from' w' now' seed'. ground (
      arith,
      get_elem?-past c.epoch_state.clients w.proof.index out,
      get_elem?-set_self c.epoch_state.rounds c.epoch_state.rounds_head (add_witness w r),
      get_elem?-bound c.epoch_state.rounds c.epoch_state.rounds_head found,
    ),
  )
