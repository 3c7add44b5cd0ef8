-- ===== src/Models.antt =====
-- models/link.py, models/domain.py and models/node.py: the records of the crawl graph.
-- A node's parent is named by its id, the position in `Storage.nodes`; `ready` is the future that
-- the scoring stage waits on, `none` while it is pending. A priority counts millionths.
pub mod Storage
pub mod Seen
use crawl_viz.Base.{
  ℕ, suc, String, Bool, true, false, Option, none, some, List, [], ◌∷◌, if◌then◌else◌,
}
use crawl_viz.Base.Int.{ℤ, pos, ◌-ℤ◌}
use crawl_viz.Base.Texts.{Dict, insert}

-- The URL functions: `urllib.parse.urljoin` (`build_url` of utils/html_utils.py calls nothing
-- else) and `normalize_url`.
pub record UrlRules : Type 0 where
  pub build_url : String → String → String
  pub normalize_url : String → String

pub data RelevanceType : Type 0 where
  direct partial irrelevant ambiguous : RelevanceType

pub record Link : Type 0 where
  pub url : String
  pub anchor : String
  pub context : String
  pub score : Option ℕ
  pub nlp_score : ℕ
  pub relevance_type : Option RelevanceType
  pub expansions : List String

pub new_link : UrlRules → String → String → String → Link
new_link rules url anchor context = record {
  url = rules.normalize_url url;
  anchor = anchor;
  context = context;
  score = none;
  nlp_score = 0;
  relevance_type = none;
  expansions = [];
}

pub record Domain : Type 0 where
  pub name : String
  pub base_url : String
  pub link_selector : String

-- A field's value in an extracted item: `None`, a text, or a list of texts.
pub data Value : Type 0 where
  absent : Value
  text : String → Value
  texts : List String → Value

abbrev pub Item : Type 0
Item = Dict Value

pub record Node : Type 0 where
  pub id : ℕ
  pub link : Link
  pub llm_score : Option ℕ
  pub priority : ℤ
  pub parent : Option ℕ
  pub items : Dict Item
  pub links : List Link
  pub content : String
  pub depth : ℕ
  pub domain : Domain
  pub ready : Option Bool

-- `Node(node_id, url=url, domain=domain)`: a seed synthesizes its own link.
unfoldable pub seed_node : UrlRules → ℕ → String → Domain → Node
unfolding new_link
seed_node rules node_id url domain = record {
  id = node_id;
  link = new_link rules url "" "";
  llm_score = none;
  priority = pos 10_000;
  parent = none;
  items = [];
  links = [];
  content = "";
  depth = 0;
  domain = domain;
  ready = none;
}

-- `Node(node_id, link=link, llm_score=…, priority=…, parent=parent)`.
unfoldable pub child_node : ℕ → Link → Option ℕ → ℤ → Node → Node
child_node node_id link llm_score priority parent = record {
  id = node_id;
  link = link;
  llm_score = llm_score;
  priority = priority;
  parent = some parent.id;
  items = [];
  links = [];
  content = "";
  depth = suc parent.depth;
  domain = parent.domain;
  ready = none;
}

unfoldable pub get_full_url : UrlRules → Node → String
get_full_url rules n = rules.build_url n.domain.base_url n.link.url

unfoldable pub set_content : String → Node → Node
set_content content n = record n { content = content }

pub add_node_item : Item → String → Node → Node
add_node_item item item_hash n = record n { items = insert item_hash item n.items }

unfoldable pub set_links : List Link → Node → Node
set_links links n = record n { links = links }

unfoldable pub decrease_priority : ℤ → Node → Node
decrease_priority value n = record n { priority = n.priority -ℤ value }

-- A future is resolved once: `set_result` under `if not self.ready.done()`.
resolve : Bool → Node → Node
resolve outcome n = elim n.ready [ none ↦ record n { ready = some outcome } | some _ ↦ n ]

unfoldable pub update_state : Node → Node
unfolding resolve
update_state n = resolve true n

unfoldable pub fail : Node → Node
unfolding resolve
fail n = resolve false n
