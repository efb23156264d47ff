-- ===== src/StressTestRunner/Finishes.antt =====
-- How often frontend/Premiumbank/StressTestRunner.cpp emits `finished`, for any sequence of events.
use concurrent_banking_syste.Prelude.{
  ℕ, suc, ◌+◌, ◌≡◌, Bool, true, false, Bool-cases, inl, inr, String, List, [], ◌∷◌, ◌++◌, arith,
  if◌then◌else◌,
}
use concurrent_banking_syste.Prelude.Int.{ℤ}
use concurrent_banking_syste.StressTestRunner.{
  QProcess, Signal, running_changed, output_received, finished, StressTestRunner, is_running, run,
  stop, on_ready_read, on_process_finished, on_error_occurred,
}

-- What happens to a runner: the calls of the view, and the signals of the process.
pub data Event : Type 0 where
  called_run : Bool → Event
  called_stop : Event
  read_output : String → Event
  process_ended : ℤ → Bool → Event
  failed : String → Event

abbrev pub finishes : List Signal → ℕ
finishes [] = 0
finishes (finished code crashed ∷ ss) = suc (finishes ss)
finishes (running_changed ∷ ss) = finishes ss
finishes (output_received text ∷ ss) = finishes ss

finishes-append :
    (ss : List Signal) (s : Signal) → finishes (ss ++ s ∷ []) ≡ finishes ss + finishes (s ∷ [])
finishes-append [] s = omega arith
finishes-append (finished code crashed ∷ ss) s = omega (arith, finishes-append ss s)
finishes-append (running_changed ∷ ss) s = finishes-append ss s
finishes-append (output_received text ∷ ss) s = finishes-append ss s

module _ (qt : QProcess) where
  open qt use {Process, is_active}

  -- A process as the world has left it, and then the event.
  unfoldable pub react : Process × Event → StressTestRunner qt → StressTestRunner qt
  react (p, called_run exists) r = run qt exists (record r { process = p })
  react (p, called_stop) r = stop qt (record r { process = p })
  react (p, read_output chunk) r = on_ready_read qt chunk (record r { process = p })
  react (p, process_ended code crashed) r =
      on_process_finished qt code crashed (record r { process = p })
  react (p, failed error) r = on_error_occurred qt error (record r { process = p })

  unfoldable pub react_all : List (Process × Event) → StressTestRunner qt → StressTestRunner qt
  unfolding react
  react_all [] r = r
  react_all (e ∷ es) r = react_all es (react e r)

  -- The events that end a run: the end of the process, and a call without an executable while no
  -- process is running.
  abbrev pub ends : Process × Event → ℕ
  ends (p, called_run exists) = if is_active p then 0 else if exists then 0 else 1
  ends (p, called_stop) = 0
  ends (p, read_output chunk) = 0
  ends (p, process_ended code crashed) = 1
  ends (p, failed error) = 0

  abbrev pub ends_all : List (Process × Event) → ℕ
  ends_all [] = 0
  ends_all (e ∷ es) = ends e + ends_all es

  react-finishes :
      (e : Process × Event) (r : StressTestRunner qt)
      → finishes (react e r).signals ≡ finishes r.signals + ends e
  unfolding react run stop is_running on_ready_read on_process_finished on_error_occurred
  react-finishes (p, called_run true) r = elim (Bool-cases (is_active p)) [
    | inl active ↦ rw active (omega arith)
    | inr idle ↦ simp (idle, finishes-append) (omega arith)
  ]
  react-finishes (p, called_run false) r = elim (Bool-cases (is_active p)) [
    | inl active ↦ rw active (omega arith)
    | inr idle ↦ simp (idle, finishes-append) (omega arith)
  ]
  react-finishes (p, called_stop) r = ground arith
  react-finishes (p, read_output chunk) r = simp finishes-append (omega arith)
  react-finishes (p, process_ended code crashed) r = simp finishes-append (omega arith)
  react-finishes (p, failed error) r = simp finishes-append (omega arith)

  pub react_all-finishes :
      (es : List (Process × Event)) (r : StressTestRunner qt)
      → finishes (react_all es r).signals ≡ finishes r.signals + ends_all es
  unfolding react_all
  react_all-finishes [] r = omega arith
  react_all-finishes (e ∷ es) r =
      omega (arith, react-finishes e r, react_all-finishes es (react e r))
