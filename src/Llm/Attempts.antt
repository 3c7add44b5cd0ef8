-- ===== src/Llm/Attempts.antt =====
-- The loop over the keys of a provider ends.
use crawl_viz.Base.{
  ℕ, zero, suc, ◌+◌, ◌≤◌, ◌≢◌, ap, max, String, Option, none, some, length, arith, Bool-cases, inl,
  inr,
}
use crawl_viz.Base.Texts.{contains}
use crawl_viz.Keys.{Provider, mark_invalid}
use crawl_viz.Keys.Rotation.{IsReady, next_key-IsReady, mark_invalid-IsReady}
use crawl_viz.Llm.{Provided, Sent, translators, is_rejection, rounds, send, drop_key}

-- A request loop that ended: with a result, within its keys, and with a provider that is ready again.
abbrev IsDone : ℕ → Option Sent × ℕ × Provider → Type 0
IsDone bound (r, sent, p) = (r ≢ none) × (sent ≤ bound) × IsReady p

module _ (provided : Provided) (cooldown : ℕ) (clock : ℕ → ℕ) where
  rounds-IsDone :
      (fuel sent : ℕ) (p : Provider)
      → IsReady p
      → length p.keys ≤ fuel
      → IsDone (sent + fuel) (rounds provided cooldown clock fuel sent p)
  unfolding rounds drop_key
  rounds-IsDone zero sent p v h = absurd (omega (arith, v.place, h))
  rounds-IsDone (suc fuel) sent p v h =
      let (key, p', given, mine, same, v') = next_key-IsReady cooldown (clock sent) p v in
      let (ready, fewer, unchanged) = mark_invalid-IsReady key p' v' in
      elim (Bool-cases (is_rejection (provided sent (some key)))) [
        | inr passed ↦ rw (rounds, given, passed) ((λ e. cc), omega arith, v')
        | inl rejected ↦ elim (Bool-cases (mark_invalid key p').0) [
          | inr last ↦ rw (rounds, given, rejected, drop_key, last) ((λ e. cc), omega arith, v')
          | inl dropped ↦
              (let (ended, count, kept) =
                  rounds-IsDone fuel (suc sent) (mark_invalid key p').1 ready
                    (omega (arith, h, fewer dropped, ap length same)) in
                rw (rounds, given, rejected, drop_key, dropped) (ended, omega (arith, count), kept))
        ]
      ]

  -- A request with a provider that has keys ends, with a response or an exception, after at most one request
  -- for each of its keys; the provider then still has a key and is ready for the next request.
  pub send-IsDone :
      (llm_type : String) (p : Provider)
      → IsReady p
      → let (result, sent, p') = send provided cooldown clock llm_type p in
        (result ≢ none) × (sent ≤ length p.keys) × IsReady p'
  unfolding send
  send-IsDone llm_type p v = elim (Bool-cases (contains translators llm_type)) [
    | inl known ↦
        (let (ended, count, ready) = rounds-IsDone (max 1 (length p.keys)) 0 p v (omega arith) in
          rw known (ended, omega (arith, count, v.place), ready))
    | inr unknown ↦ rw unknown ((λ e. cc), omega arith, v)
  ]
