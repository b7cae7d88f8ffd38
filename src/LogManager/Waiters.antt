-- ===== src/LogManager/Waiters.antt =====
-- Waiting for new entries: `wait`, `remove_waiter`, `wakeup_all_waiter` and `shutdown`.
use quorumkit.Prelude.{ℕ, ◌+◌, Bool, true, false, not, ◌||◌, List, [], ◌∷◌, ◌==◌, if◌then◌else◌}
use quorumkit.Errno.{Code, ok, minus_one, estop}
use quorumkit.LogManager.{LogManager, Event, wake}

module _ {D W : Type 0} where
  wake_each : Code → List (ℕ × W) → List (Event D W)
  wake_each code [] = []
  wake_each code ((id, w) ∷ rest) = wake w code ∷ wake_each code rest

module _ {W : Type 0} where
  seek : ℕ → List (ℕ × W) → Bool
  seek id [] = false
  seek id ((i, w) ∷ rest) = i == id || seek id rest

  erase : ℕ → List (ℕ × W) → List (ℕ × W)
  erase id [] = []
  erase id ((i, w) ∷ rest) =
      let others = erase id rest in if i == id then others else (i, w) ∷ others

module _ {P S D W : Type 0} where
  abbrev stop_code : LogManager P S D W → Code
  stop_code lm = if lm.stopped then estop else ok

  unfoldable pub wakeup_all_waiter : LogManager P S D W → LogManager P S D W × List (Event D W)
  unfolding wake_each
  wakeup_all_waiter lm = (record lm { wait_map = [] }, wake_each (stop_code lm) lm.wait_map)

  unfoldable pub shutdown : LogManager P S D W → LogManager P S D W × List (Event D W)
  unfolding wakeup_all_waiter
  shutdown lm = wakeup_all_waiter (record lm { stopped = true })

  -- `notify_on_new_log`: the waiter's id, or 0 if it is woken at once.
  unfoldable pub notify_on_new_log :
      LogManager P S D W → ℕ → W → LogManager P S D W × ℕ × List (Event D W)
  notify_on_new_log lm expected_last_log_index w =
      let id = if lm.next_wait_id == 0 then 1 else lm.next_wait_id in
      if not (expected_last_log_index == lm.last_log_index) || lm.stopped
      then (lm, 0, wake w (stop_code lm) ∷ [])
      else (record lm { next_wait_id = id + 1; wait_map = (id, w) ∷ lm.wait_map }, id, [])

  unfoldable pub remove_waiter : LogManager P S D W → ℕ → LogManager P S D W × Code
  unfolding seek erase
  remove_waiter lm id =
      if seek id lm.wait_map
      then (record lm { wait_map = erase id lm.wait_map }, ok)
      else (lm, minus_one)
