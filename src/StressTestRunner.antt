-- ===== src/StressTestRunner.antt =====
-- `StressTestRunner` of frontend/Premiumbank/StressTestRunner.cpp and StressTestRunner.h. `QProcess` is
-- an interface, whose process may change between two calls; a signal is an entry of a list.
pub mod Finishes
use concurrent_banking_syste.Prelude.{
  Bool, true, false, not, String, List, [], ◌∷◌, ◌++◌, if◌then◌else◌,
}
use concurrent_banking_syste.Prelude.Int.{ℤ, negsuc}

pub record QProcess : Type 1 where
  pub Process : Type 0
  -- `state() != QProcess::NotRunning`.
  pub is_active : Process → Bool
  -- `start` of the executable, which has an effect on a process that is not running, and `kill`.
  pub start : Process → Process
  pub kill : Process → Process
  -- The text of an error, and that of the end of a run: whether it crashed, and the exit code.
  pub not_found : String
  pub launch_error : String → String
  pub end_text : Bool → ℤ → String

pub data Signal : Type 0 where
  running_changed : Signal
  output_received : String → Signal
  finished : ℤ → Bool → Signal

module _ (qt : QProcess) where
  open qt use {Process, is_active, start, kill, not_found, launch_error, end_text}

  pub record StressTestRunner : Type 0 where
    pub process : Process
    pub signals : List Signal

  abbrev emit : Signal → StressTestRunner → StressTestRunner
  emit s r = record r { signals = r.signals ++ s ∷ [] }

  unfoldable pub is_running : StressTestRunner → Bool
  is_running r = is_active r.process

  -- `exists` is whether the file system has the executable.
  unfoldable pub run : Bool → StressTestRunner → StressTestRunner
  unfolding is_running
  run exists r =
      if is_running r
      then r
      else if not exists
      then emit (finished (negsuc 0) false) (emit (output_received not_found) r)
      else emit running_changed (record (emit (output_received "Starting stress_test...\n\n") r) {
        process = start r.process;
      })

  unfoldable pub stop : StressTestRunner → StressTestRunner
  unfolding is_running
  stop r = if not (is_running r) then r else record r { process = kill r.process }

  unfoldable pub on_ready_read : String → StressTestRunner → StressTestRunner
  on_ready_read chunk r = emit (output_received chunk) r

  unfoldable pub on_process_finished : ℤ → Bool → StressTestRunner → StressTestRunner
  on_process_finished exit_code crashed r =
      emit running_changed
        (emit (finished exit_code crashed) (emit (output_received (end_text crashed exit_code)) r))

  unfoldable pub on_error_occurred : String → StressTestRunner → StressTestRunner
  on_error_occurred error r = emit running_changed (emit (output_received (launch_error error)) r)
