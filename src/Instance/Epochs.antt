-- ===== src/Instance/Epochs.antt =====
-- `epochThreadFunction` of wclap-instance-wasmtime.cpp: the thread that counts the epochs by which calls
-- are limited. Times are in milliseconds.
pub mod Limit
mod Examples
use wclap_bridge.Base.{ℕ, suc, ◌+◌, List, [], ◌∷◌, leb, if◌then◌else◌}

-- The times at which the thread increments the epoch, from the time of the first and how long each
-- `sleep_for` takes.
unfoldable pub epoch_thread_function : ℕ → List ℕ → List ℕ
epoch_thread_function t [] = t ∷ []
epoch_thread_function t (d ∷ ds) = t ∷ epoch_thread_function (t + d) ds

-- The engine's epoch at a time.
unfoldable pub epoch_at : List ℕ → ℕ → ℕ
epoch_at [] now = 0
epoch_at (t ∷ ts) now = let later = epoch_at ts now in if leb t now then suc later else later
