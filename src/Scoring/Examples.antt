-- ===== src/Scoring/Examples.antt =====
-- The cascade on a page of four links, and the theorems at it.
use crawl_viz.Base.{
  ℕ, ◌+◌, ◌≤◌, ◌<◌, ◌/◌, ◌≡◌, ◌≢◌, refl, String, Bool, true, false, Option, none, some, List, [],
  ◌∷◌, ◌++◌, map, length, SameItems, All,
}
use crawl_viz.Models.{Link}
use crawl_viz.Budget.{new_budget, CallBudget}
use crawl_viz.Budget.Account.{budget_meter}
use crawl_viz.Scoring.Ranked.{rank}
use crawl_viz.Scoring.Buckets.{
  Settings, Outside, Buckets, bucket_links, split_links, pick, draw, thresholds, assemble, choose,
  cap_sample,
}
use crawl_viz.Scoring.Batches.{batches}
use crawl_viz.Scoring.Partition.{bucket_links-SameItems, dropped_below}
use crawl_viz.Scoring.Limits.{batches_cover, join}
use crawl_viz.Scoring.Process.{
  Services, ScoringState, score_links, high_score_links, low_score_links, ScoringEvent,
}
use crawl_viz.Scoring.Cascade.{score_links_conserves, has_failed}
use crawl_viz.Scoring.Spending.{process_nodes, crawl_calls-le-limit}

abbrev link : String → ℕ → Link
link u score = record {
  url = u;
  anchor = u;
  context = "";
  score = none;
  nlp_score = score;
  relevance_type = none;
  expansions = [];
}

abbrev page : List Link
page = link "/low" 10 ∷ link "/mid" 50 ∷ link "/top" 90 ∷ link "/high" 80 ∷ []

-- Draws the first indices; `W` is a counter of LLM calls.
abbrev outside : Outside (Unit {0})
outside = record { percentile = λ scores p. p; sample = λ r n k. (0 ∷ [], r) }

abbrev settings : Settings
settings = record {
  low_threshold = 20;
  high_threshold = 70;
  percentile_bucketing = false;
  low_percentile = 20;
  high_percentile = 75;
  percentile_min_links = 10;
  max_llm_links = some 2;
  llm_batch_size = some 1;
  low_score_portion = λ n. n / 2;
  high_score_llm_portion = λ n. n;
  high_score_random_portion = λ n. n / 2;
}

abbrev services : Services ℕ
services = record {
  nlp_score_links = λ w ls. (some ls, w);
  llm_score_links = λ w ls. (some ls, w + 1);
  update_space = λ w ls. (true, w);
}

abbrev urls : List Link → List String
urls = map (λ l. l.url)

abbrev page_buckets : Buckets
page_buckets = (bucket_links outside settings tt page).0

-- "/mid" is ambiguous, "/top" is drawn and "/high" is ranked: the cap keeps the best two.
bucketed :
    (urls page_buckets.sampled ≡ "/top" ∷ "/high" ∷ [])
    × (urls page_buckets.skip_llm ≡ "/mid" ∷ [])
    × (urls page_buckets.dropped ≡ "/low" ∷ [])
unfolding bucket_links split_links pick draw thresholds assemble choose cap_sample rank
bucketed = (refl, refl, refl)

bucket_links-SameItems_example :
    SameItems (page_buckets.sampled ++ (page_buckets.skip_llm ++ page_buckets.dropped)) page
bucket_links-SameItems_example = bucket_links-SameItems outside settings tt page

dropped_below_example :
    All (λ l. l.nlp_score < (thresholds outside settings page).0) page_buckets.dropped
dropped_below_example = dropped_below outside settings tt page

abbrev three : Buckets
three = record { sampled = page; skip_llm = []; dropped = [] }

batches_cover_example : join (batches (some 3) page) ≡ page
batches_cover_example = (batches_cover (some 3) page (λ e. cc)).0

abbrev start : ScoringState (Unit {0}) CallBudget ℕ
start = record { rng = tt; budget = some (new_budget (some 1)); world = 0 }

score_links_conserves_example :
    let o = score_links services budget_meter outside settings page start in
    (kept : List Link) × (trusted : List Link) × (dropped : List Link) × (es : List ScoringEvent)
    × (o.events ≡ high_score_links trusted ∷ low_score_links dropped ∷ es)
    × SameItems (kept ++ (trusted ++ dropped)) page
    × (has_failed es ≡ false → kept ≢ [] → join o.calls ≡ kept)
score_links_conserves_example =
    score_links_conserves services budget_meter outside settings page start

abbrev ready_page : Option Bool × List Link
ready_page = (some true, page)

crawl_calls-le-limit_example :
    length
      (process_nodes budget_meter services outside settings (ready_page ∷ ready_page ∷ []) start)
    ≤ 1
crawl_calls-le-limit_example =
    crawl_calls-le-limit services outside settings 1 tt 0 (ready_page ∷ ready_page ∷ [])
