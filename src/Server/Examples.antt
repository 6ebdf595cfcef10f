-- ===== src/Server/Examples.antt =====
-- Examples for the centralized server.
use psyche.Coordinator.Lifecycle.{
  check_timeout, start_warmup, change_state, start_round_train, next_round, move_clients_to_exited,
  retain_healthy,
}
use psyche.Coordinator.Tick.{
  tick, tick_waiting_for_members, start_epoch, any_connected, tick_warmup, check_min_clients,
}
use psyche.Coordinator.Rounds.{active, halted, current_round, current_round_unchecked}
use psyche.Core.Strings.{to_string, sliced}
use psyche.Core.Utf8.{decoded}
use psyche.Base.{
  ℕ, ◌≡◌, refl, true, false, some, none, List, [], ◌∷◌, ok, arith, Outcome, err, panic, not, ◌&&◌,
  get_elem?,
}
use psyche.Coordinator.Types.{waiting_for_members, Coordinator, new_client}
use psyche.Coordinator.Examples.{
  toy_identity, toy_hashing, toy_floats, running, first_rounds, lost, member,
}
use psyche.Server.{
  App, Occurrence, Event, on_join, attempt, on_client_message, on_message, post_state_change,
  on_tick, kick_unhealthy_clients, kick_unhealthy, arranged, save_state, run, poll_next, is_pending,
  message, join_message, tick_interval,
}
use psyche.Server.History.{run-Among, Among}
use psyche.Server.Warmups.{run-Restored}
use psyche.Server.Broadcasts.{
  SameIsEqual, Publishes, on_tick-Publishes, is_pending-kick_unhealthy, left_unhealthy,
}

abbrev serving : Coordinator ℕ → List ℕ → App ℕ
serving c pending = record {
  coordinator = c;
  pending_clients = pending;
  original_warmup_time = 77;
  withdraw_on_disconnect = true;
  save_state_dir = false;
  saved = [];
  broadcasts = [];
  data_server = none;
}

abbrev at : ℕ → Event ℕ → Occurrence ℕ
at now e = record { event = e; unix_timestamp = now; random = 5 }

-- 20 joins, and the ticks open the epoch with it and with 10, and start the training.
abbrev opening : List (Occurrence ℕ)
opening =
    at 200 (message 20 (join_message []))
    ∷ at 201 (message 21 (join_message (1 ∷ [])))
    ∷ at 202 (tick_interval (1 ∷ 0 ∷ []))
    ∷ at 900 (tick_interval (1 ∷ 0 ∷ []))
    ∷ []

abbrev waiting : App ℕ
waiting = serving (running waiting_for_members first_rounds 0) (10 ∷ [])

-- The app that a run leaves.
abbrev left_by : Outcome ⊥ (App ℕ) (Unit {0}) → App ℕ → App ℕ
left_by (ok a app) d = app
left_by (err e app) d = d
left_by panic d = d

abbrev opened : App ℕ
opened = left_by (run 0 opening waiting) waiting

opened_lem :
    (run 0 opening waiting ≡ ok tt opened)
    × (get_elem? opened.coordinator.epoch_state.clients 1 ≡ some (member 20))
    × (active opened.coordinator ≡ true)
unfolding run poll_next on_client_message on_message on_join to_string sliced decoded
    post_state_change active on_tick kick_unhealthy_clients kick_unhealthy arranged attempt tick
    halted tick_waiting_for_members check_timeout start_epoch start_warmup change_state
    any_connected new_client tick_warmup start_round_train next_round save_state toy_identity
    toy_floats toy_hashing current_round_unchecked current_round move_clients_to_exited
    retain_healthy check_min_clients
opened_lem = (refl, refl, refl)

run-Among_example : Among {T = ℕ} (10 ∷ 11 ∷ 12 ∷ 10 ∷ 20 ∷ []) 20
unfolding to_string sliced decoded
run-Among_example = run-Among 0 opening waiting opened opened_lem.0 1 (member 20) opened_lem.1

waiting-inactive : active waiting.coordinator ≡ false
unfolding active
waiting-inactive = refl

run-Restored_example : opened.coordinator.config.warmup_time ≡ 77
run-Restored_example =
    run-Restored 0 opening waiting opened waiting-inactive opened_lem.0 opened_lem.2

abbrev ticked_app : App ℕ
ticked_app = left_by (on_tick 0 (0 ∷ []) 200 5 waiting) waiting

ticked_once : on_tick 0 (0 ∷ []) 200 5 waiting ≡ ok tt ticked_app
unfolding run poll_next on_client_message on_message on_join to_string sliced decoded
    post_state_change active on_tick kick_unhealthy_clients kick_unhealthy arranged attempt tick
    halted tick_waiting_for_members check_timeout start_epoch start_warmup change_state
    any_connected new_client tick_warmup start_round_train next_round save_state toy_identity
    toy_floats toy_hashing current_round_unchecked current_round move_clients_to_exited
    retain_healthy check_min_clients
ticked_once = refl

on_tick-Publishes_example : Publishes waiting ticked_app
on_tick-Publishes_example = on_tick-Publishes 0 (0 ∷ []) 200 5 waiting ticked_app ticked_once

toy-SameIsEqual : SameIsEqual toy_identity
unfolding toy_identity
toy-SameIsEqual x y = ground arith

is_pending-kick_unhealthy_example :
    is_pending {T = ℕ} 12 (kick_unhealthy (member 10 ∷ lost 12 ∷ []) (10 ∷ 12 ∷ []))
    ≡ (is_pending {T = ℕ} 12 (10 ∷ 12 ∷ []) && not (left_unhealthy 12 (member 10 ∷ lost 12 ∷ [])))
is_pending-kick_unhealthy_example =
    is_pending-kick_unhealthy toy-SameIsEqual 12 (member 10 ∷ lost 12 ∷ []) (10 ∷ 12 ∷ [])
