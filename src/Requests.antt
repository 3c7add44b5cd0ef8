-- ===== src/Requests.antt =====
-- pipelines/requests_pipeline.py: what one fetch worker does with one node.
-- The robots check, the clock, the jitter and the client's answer are arguments; the products with the
-- growth and the decays are functions of the settings. Delays and times are whole numbers.
-- `start`, `resize` and `stop` are those of Pool.
pub mod Pace
mod Examples
use crawl_viz.Base.{
  ℕ, zero, suc, ◌+◌, ◌-◌, String, Bool, true, false, Option, none, some, List, [], ◌∷◌, ◌++◌, min,
  max, ltb, ◌==◌, if◌then◌else◌, str_eq,
}
use crawl_viz.Models.{UrlRules, Node, get_full_url}

pub record PaceSettings : Type 0 where
  pub min_delay : ℕ
  pub backoff_start : ℕ
  pub max_backoff : ℕ
  pub grow : ℕ → ℕ
  pub success_decay : ℕ → ℕ
  pub failure_decay : ℕ → ℕ

pub record PaceState : Type 0 where
  pub last_request_time : ℕ
  pub backoff_delay : ℕ

unfoldable pub new_pace : PaceState
new_pace = record { last_request_time = 0; backoff_delay = 0 }

-- What `emit_request` comes to: a page, or an exception with its class name and text.
pub data Answer : Type 0 where
  page : String → Answer
  error : Bool → String → String → Answer

-- One turn of a worker: the robots verdict (`none` without a policy), the clock before the pause,
-- the jitter, the clock after the pause, and the answer.
pub record Turn : Type 0 where
  pub robots : Option Bool
  pub now : ℕ
  pub jitter : ℕ
  pub resumed : ℕ
  pub answer : Answer

pub data FetchEvent : Type 0 where
  request_started : ℕ → String → FetchEvent
  response_received : ℕ → FetchEvent
  page_fetched : ℕ → Option ℕ → String → String → FetchEvent
  request_failed : ℕ → String → String → FetchEvent

-- `error_str`: an exception without a text is told by its class.
pub error_text : String → String → String
error_text error_type message = if str_eq message "" then error_type else message

module _ (set : PaceSettings) where
  -- `max(self.min_delay - elapsed, 0)`, the backoff and the jitter.
  pub delay_at : ℕ → ℕ → PaceState → ℕ
  delay_at now jitter s = ((set.min_delay + s.last_request_time) - now) + s.backoff_delay + jitter

  pub backoff_after : Bool → ℕ → ℕ
  backoff_after rate_limited delay =
      if rate_limited
      then (if delay == 0 then set.backoff_start else min (set.grow delay) set.max_backoff)
      else set.failure_decay delay

  pub settle : Node → Answer → PaceState → List FetchEvent × PaceState
  unfolding backoff_after error_text
  settle n (page content) s = (
    response_received n.id ∷ page_fetched n.id n.parent n.link.url content ∷ [],
    record s { backoff_delay = set.success_decay s.backoff_delay },
  )
  settle n (error rate_limited error_type message) s = (
    request_failed n.id error_type (error_text error_type message) ∷ [],
    record s { backoff_delay = backoff_after rate_limited s.backoff_delay },
  )

  -- The events, the pause before the request (`none`: no request), and the state after it.
  pub fetch_if :
      Option Bool → UrlRules → Node → Turn → PaceState → List FetchEvent × Option ℕ × PaceState
  unfolding delay_at settle get_full_url
  fetch_if (some false) rules n t s = (
    request_started n.id (get_full_url rules n)
        ∷ request_failed n.id "RobotsDisallowed" "disallowed by robots.txt"
        ∷ [],
    none,
    s,
  )
  fetch_if (some true) rules n t s =
      let (es, s') = settle n t.answer (record s { last_request_time = t.resumed }) in
      (request_started n.id (get_full_url rules n) ∷ es, some (delay_at t.now t.jitter s), s')
  fetch_if none rules n t s =
      let (es, s') = settle n t.answer (record s { last_request_time = t.resumed }) in
      (request_started n.id (get_full_url rules n) ∷ es, some (delay_at t.now t.jitter s), s')

  pub fetch : UrlRules → Node → Turn → PaceState → List FetchEvent × Option ℕ × PaceState
  unfolding fetch_if
  fetch rules n t s = fetch_if t.robots rules n t s

  pub fetch_all : UrlRules → List (Node × Turn) → PaceState → List FetchEvent × PaceState
  unfolding fetch
  fetch_all rules [] s = ([], s)
  fetch_all rules ((n, t) ∷ rest) s =
      let (es, _, s') = fetch rules n t s in
      let (fs, s'') = fetch_all rules rest s' in (es ++ fs, s'')
