-- ===== src/Solana/ClientsState.antt =====
-- The clients of the on-chain program: client.rs and clients_state.rs of
-- architectures/decentralized/solana-coordinator/programs/solana-coordinator/src.
-- A public key is the number that its 32 bytes stand for.
use psyche.Base.{ℕ, Bool, Option, none, some, List, [], ◌∷◌, ◌==◌, if◌then◌else◌}
use psyche.Core.SwapOrNot.{to_le_bytes}
use psyche.Coordinator.Types.{NodeIdentity}

pub record ClientId : Type 0 where
  pub signer : ℕ
  pub p2p_identity : ℕ

-- `PartialEq` and `AsRef` of a client id look at the signer alone.
abbrev pub same_id : ClientId → ClientId → Bool
same_id a b = a.signer == b.signer

instance pub ClientId-NodeIdentity : NodeIdentity ClientId
ClientId-NodeIdentity = record { same = same_id; as_ref = λ a. to_le_bytes 32 a.signer }

pub record Client : Type 0 where
  pub id : ClientId
  pub earned : ℕ
  pub slashed : ℕ
  pub active : ℕ

pub record ClientsEpochRates : Type 0 where
  pub earning_rate_total_shared : ℕ
  pub slashing_rate_per_client : ℕ

pub record ClientsState : Type 0 where
  pub clients : List Client
  pub next_active : ℕ
  pub current_epoch_rates : ClientsEpochRates
  pub future_epoch_rates : ClientsEpochRates

abbrev pub solana_max_num_pending_clients : ℕ
solana_max_num_pending_clients = 256

unfoldable pub active_ids : ℕ → List Client → List ClientId
active_ids next_active [] = []
active_ids next_active (x ∷ xs) =
    if x.active == next_active then x.id ∷ active_ids next_active xs else active_ids next_active xs

abbrev pub get_active_clients_ids : ClientsState → List ClientId
get_active_clients_ids s = active_ids s.next_active s.clients

-- `iter().find(|x| x.id.signer == signer)`
unfoldable pub find : ℕ → List Client → Option Client
find signer [] = none
find signer (x ∷ xs) = if x.id.signer == signer then some x else find signer xs

-- `find_signer`; `none` is `SignerNotAClient`.
abbrev pub find_signer : ℕ → ClientsState → Option ClientId
find_signer signer s = elim (find signer s.clients) [ none ↦ none | some x ↦ some x.id ]
