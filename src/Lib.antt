-- ===== src/Lib.antt =====
-- CrawlViz: a model of the crawler's core, in the shape of the Python code.
--
-- A crawl is a set of pipelines that exchange events. A page is a node of the crawl graph; its
-- links are scored, and the links that score well become child nodes. Base holds the lists,
-- dictionaries and integers that all parts share.
--
-- Budget (infrastructure/call_budget.py): `CallBudget.take` and the account it keeps.
--   Budget/Account ends in `CallMeter`, the interface through which the scoring stage uses it.
-- Models, Models/Storage (models/): links, nodes and the in-memory store; a node is its id.
-- Admission (pipelines/storage_pipeline.py, core/boot_strapper.py): the only code that creates
--   nodes. Admission/Growth says what a crawl graph is, with no word of the store; Graph, Preserve
--   and Crawl are about the stage as its implementation, Handlers and Stores about single events.
-- Scoring (pipelines/scoring_pipeline.py): Ranked (the stable sort by score), Buckets
--   (`bucket_links`), Batches (`_take_llm_calls`, the LLM batches), Process (`_process`); the
--   theorems are in Partition, Limits, Cascade and Spending.
-- Pool (pipelines/base_pipeline.py): the queue and the workers of a stage; Shutdown, Drain.
-- Broker (core/event_broker.py, core/event_registry.py): the bus; Delivery, Consumers.
-- Stopping (pipelines/stopping_pipeline.py), Filtering (pipelines/filtering_pipeline.py) and
--   Retry (pipelines/retry_processor.py): the handlers of these stages; their theorems are in
--   Reasons, Dedup and Caps.
-- Requests (pipelines/requests_pipeline.py): the turn of a fetch worker; Pace.
-- Results (services/results_mapper.py, services/llm_contracts.py): the LLM's answer; Scores.
-- Buffer (nlp/buffer_manager.py, nlp/space_updater.py, nlp/vector_space.py): vectors on their way
--   into the semantic space; Conservation.
-- Keys (infrastructure/key_manager.py): the rotation of a provider's API keys; Rotation is about single
--   calls, History about sequences of them.
-- Robots (pipelines/robots.py): the robots.txt cache and the checks that share it; Cache.
-- Frontier (pipelines/frontier_queue.py): the queue of the nodes by priority, as a sorted list; Ordered.
-- Settings (config/settings_store.py): the settings a user changes, stored as a difference from the
--   defaults; Readings (what a reader sees), Merge, Difference, Stored.
-- Network, Network/Guard (infrastructure/network_client.py, infrastructure/url_guard.py): a GET with
--   its redirects and limits, and the addresses that it may reach; Redirects.
-- Access (routes/request_guards.py, routes/session_token.py): who may call the API; Served.
-- Snapshot (ui_bridge/crawl_state_snapshot.py): what the UI is shown; Bounded.
-- Telemetry (ui_bridge/telemetry_bridge.py): events as UI messages; Nodes and Handlers are the
--   handlers, Replay, Pending and Stages are about them.
-- Extraction (models/item_extractor.py, pipelines/processing_pipeline.py): items off a page; Reported.
-- Transformation (pipelines/transformation_pipeline.py): the transform chains; Chains, Truncated.
-- Exporting (pipelines/exporting_pipeline.py): items as rows of a database; Columns, Written.
-- Llm (infrastructure/llm_handler.py, services/scoring_service.py): the attempts of a request over
--   the keys of Keys, and the shortened URLs; Attempts, Prefix.
--
-- Integers are unbounded in Python; ids, depths, counts and scores are natural numbers here, and a
-- priority or a similarity is a whole number of millionths. Time is a natural number that the
-- caller hands in. Third-party and float code are parameters: urljoin and normalize_url (`UrlRules`),
-- numpy.percentile and random.sample (`Outside`), the NLP and LLM services (`Services`), pydantic's
-- validation of settings (`validate`), the lookup of names and the servers that aiohttp talks to (`Dns`,
-- `Server`), lxml (`Selectors`), the methods of `str` and `re` (`TextOps`), sqlite3 (`Connection`), and the
-- LLM client with its translators (`Provided`).
-- No definition runs on fuel but five loops that count their rounds, as the code does or less:
-- `chunks` gets as many as there are links, and takes at least one in each; `rotate` gets as many as
-- there are keys; `work_off` (Pool/Drain) gets as many as there are queued items; `get_rounds`
-- (Network) gets one more than the redirect limit, as the code counts them; `rounds` (Llm) gets as
-- many as the provider has keys, or one, and loses a key in each that does not end it.
--
-- The parts meet in events and in one interface. `Broker` carries the events. A fetched page
-- (Requests) is extracted, filtered against the store (Filtering) and handed to Admission as a
-- completed transformation; its links are scored (Scoring, Results), and come back to Admission as
-- candidates with priorities. Failures go to Retry, progress to Stopping, and the stop to every
-- Pool. Scoring pays for LLM calls through `CallMeter`, which Budget fills; Filtering and
-- Admission are joined by the store alone: Filtering/Dedup uses what Admission/Stores shows of it.
-- Network makes the requests of a fetched page; Frontier says which node a fetch or scoring worker
-- takes next. Extraction reads items off the page and
-- Transformation rewrites them; they go to Admission, which stores them, and to Exporting, which
-- writes them as rows. Llm makes the requests of a scored batch with the keys of Keys. Telemetry
-- hears the events of all stages and keeps the Snapshot beside the messages that it sends.
--
-- Not modelled: the translators of the LLM providers, the embeddings and the priority formula (float
-- code), the link extraction (lxml), the assembly of a crawl and its live settings, the blueprint
-- translator and the configuration schemas, most routes, the websocket gateway, the logs and the
-- traces, the benchmark and the tools.
pub mod Base
pub mod Budget
pub mod Models
pub mod Admission
pub mod Scoring
pub mod Pool
pub mod Broker
pub mod Stopping
pub mod Filtering
pub mod Retry
pub mod Requests
pub mod Results
pub mod Buffer
pub mod Keys
pub mod Robots
pub mod Frontier
pub mod Settings
pub mod Network
pub mod Access
pub mod Snapshot
pub mod Telemetry
pub mod Extraction
pub mod Transformation
pub mod Exporting
pub mod Llm
