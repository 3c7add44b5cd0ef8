-- ===== src/Keys/Examples.antt =====
-- A provider of three keys, of which the second is rejected.
use crawl_viz.Base.{List, Option, ◌≡◌, String, true, some, [], ◌∷◌, none, refl}
use crawl_viz.Base.Texts.{erase}
use crawl_viz.Keys.{
  KeyStep, asked, rejected, added, load_provider, key_run, Provider, next_key, remove_key,
  find_by_id, remove_first,
}
use crawl_viz.Keys.History.{IsGiven, key_run-next_key}

abbrev provider : Provider
provider = record {
  keys = "a" ∷ "b" ∷ "c" ∷ [];
  index = 2;
  timestamps = ("a", 10) ∷ ("b", 20) ∷ ("c", 0) ∷ [];
}

abbrev steps : List KeyStep
steps = asked 100 ∷ rejected "b" ∷ asked 110 ∷ added "d" ∷ asked 120 ∷ []

key_run-next_key_example :
    (p : Provider) × (key_run 60 steps (load_provider ("a" ∷ "b" ∷ [])) ≡ some p)
    × ((key : Option String) × (p' : Provider) × (next_key 60 130 p ≡ some (key, p'))
        × IsGiven p.keys key
        × (p'.keys ≡ p.keys))
key_run-next_key_example = key_run-next_key 60 ("a" ∷ "b" ∷ []) steps 130

last_key_removed :
    remove_key (λ k. k) "a" (record { keys = "a" ∷ []; index = 0; timestamps = ("a", 3) ∷ [] })
    ≡ (true, none)
unfolding remove_key find_by_id remove_first
last_key_removed = refl

removed : remove_key (λ k. k) "a" provider ≡ (
  true,
  some (record { keys = "b" ∷ "c" ∷ []; index = 0; timestamps = ("b", 20) ∷ ("c", 0) ∷ [] }),
)
unfolding remove_key find_by_id remove_first erase
removed = refl
