-- ===== src/Buffer/Examples.antt =====
-- A buffer of two vectors, filled, flushed and overfilled.
use crawl_viz.Base.{ℕ, ◌≡◌, true, false, List, [], ◌∷◌, ◌++◌, length}
use crawl_viz.Buffer.{SpaceState, UpdaterStep, added, added_batch, polled, new_updater, updater_run}
use crawl_viz.Buffer.Conservation.{updater_run-entries}

abbrev space : SpaceState ℕ
space = record { entries = 1 ∷ []; dirty = false; version = 0 }

abbrev steps : List (UpdaterStep ℕ)
steps = added 5 ∷ polled true ∷ added_batch (6 ∷ 7 ∷ 8 ∷ []) ∷ added 9 ∷ []

updater_run-entries_example :
    let (taken, s) = updater_run 50 steps (new_updater 2 space) in
    (s.space.entries ≡ space.entries ++ taken)
    × (s.buffer.buffer ≡ [])
    × (s.buffer.total_added ≡ length taken)
    × (s.buffer.total_flushed ≡ length taken)
updater_run-entries_example = updater_run-entries 50 2 space steps
