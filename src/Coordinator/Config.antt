-- ===== src/Coordinator/Config.antt =====
-- `CoordinatorConfig` and `CoordinatorProgress` of shared/coordinator/src/coordinator.rs.
-- An `f64` is its bit pattern, and the operations on it are parameters.
use psyche.Base.{ℕ, Bool, ◌&&◌, not, ◌==◌, ltb, leb, if◌then◌else◌}
use psyche.Coordinator.Types.{
  CoordinatorConfig, CoordinatorProgress, solana_max_num_clients, solana_max_num_witnesses,
}

-- The double-precision operations that the coordinator uses.
pub record Float64 : Type 0 where
  pub of_int : ℕ → ℕ
  pub add : ℕ → ℕ → ℕ
  pub sub : ℕ → ℕ → ℕ
  pub mul : ℕ → ℕ → ℕ
  pub div : ℕ → ℕ → ℕ
  -- `x.round() as u16`
  pub round_u16 : ℕ → ℕ

-- `CoordinatorConfig::check`
unfoldable pub check : CoordinatorConfig → Bool
check c =
    not (c.max_round_train_time == 0)
    && not (c.round_witness_time == 0)
    && not (c.min_clients == 0)
    && leb c.min_clients c.init_min_clients
    && leb c.init_min_clients solana_max_num_clients
    && not (c.global_batch_size_start == 0)
    && not (c.global_batch_size_end == 0)
    && leb c.global_batch_size_start c.global_batch_size_end
    && not (c.total_steps == 0)
    && leb c.witness_nodes c.min_clients
    && leb c.witness_nodes solana_max_num_witnesses
    && ltb 0 c.cooldown_time
    && ltb 0 c.waiting_for_members_extra_time

-- `CoordinatorConfig::get_batch_size`
unfoldable pub get_batch_size : ⦃f : Float64⦄ → CoordinatorConfig → ℕ → ℕ
get_batch_size ⦃f⦄ c total_tokens_processed =
    if leb c.global_batch_size_warmup_tokens total_tokens_processed
    then c.global_batch_size_end
    else let progress =
        f.div (f.of_int total_tokens_processed) (f.of_int c.global_batch_size_warmup_tokens) in
      let start = f.of_int c.global_batch_size_start in
      let end = f.of_int c.global_batch_size_end in
      f.round_u16 (f.add start (f.mul (f.sub end start) progress))

-- `CoordinatorProgress::check`
unfoldable pub check_progress : CoordinatorProgress → Bool
check_progress p = ltb 0 p.step
