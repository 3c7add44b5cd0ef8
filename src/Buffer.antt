-- ===== src/Buffer.antt =====
-- nlp/buffer_manager.py, nlp/space_updater.py and the additions of nlp/vector_space.py: vectors on
-- their way from the scoring results into the semantic space. An item `A` is a key with its vector
-- and metadata. A round of the updater's loop is told whether the flush interval has passed.
pub mod Conservation
mod Examples
use crawl_viz.Base.{
  ℕ, zero, suc, ◌+◌, ◌-◌, Bool, true, false, ◌||◌, Option, none, some, List, [], ◌∷◌, ◌++◌, length,
  take, leb, ◌==◌, if◌then◌else◌,
}

pub record BufferState (A : Type 0) : Type 0 where
  pub buffer : List A
  pub max_size : ℕ
  pub total_added : ℕ
  pub total_flushed : ℕ

pub record SpaceState (A : Type 0) : Type 0 where
  pub entries : List A
  pub dirty : Bool
  pub version : ℕ

-- `saved` is the space that `save_space` was called with last; that method leaves a stored space alone that is not
-- to be persisted.
pub record UpdaterState (A : Type 0) : Type 0 where
  pub buffer : BufferState A
  pub space : SpaceState A
  pub flush_count : ℕ
  pub saved : Option (List A)

pub data UpdaterStep (A : Type 0) : Type 0 where
  added : A → UpdaterStep A
  added_batch : List A → UpdaterStep A
  polled : Bool → UpdaterStep A

module _ {A : Type 0} where
  pub new_updater : ℕ → SpaceState A → UpdaterState A
  new_updater max_size space = record {
    buffer = record { buffer = []; max_size = max_size; total_added = 0; total_flushed = 0 };
    space = space;
    flush_count = 0;
    saved = none;
  }

  -- The items that were taken in, and the buffer after them.
  pub add : A → BufferState A → List A × BufferState A
  add item b =
      if leb b.max_size (length b.buffer)
      then ([], b)
      else (item ∷ [], record b { buffer = b.buffer ++ item ∷ []; total_added = suc b.total_added })

  pub add_batch : List A → BufferState A → List A × BufferState A
  add_batch items b =
      let to_add = take (b.max_size - length b.buffer) items in
      (
        to_add,
        record b { buffer = b.buffer ++ to_add; total_added = b.total_added + length to_add },
      )

  pub drain : BufferState A → List A × BufferState A
  drain b = (b.buffer, record b { buffer = []; total_flushed = b.total_flushed + length b.buffer })

  pub is_ready_for_flush : ℕ → BufferState A → Bool
  is_ready_for_flush threshold b = leb threshold (length b.buffer)

  pub add_vector : A → SpaceState A → SpaceState A
  add_vector item space = record space { entries = space.entries ++ item ∷ []; dirty = true }

  pub add_vectors : List A → SpaceState A → SpaceState A
  unfolding add_vector
  add_vectors [] space = space
  add_vectors (item ∷ items) space = add_vectors items (add_vector item space)

  -- `_flush`
  pub flush : UpdaterState A → UpdaterState A
  unfolding drain add_vectors
  flush s =
      let (items, b) = drain s.buffer in
      let space = add_vectors items s.space in
      let space' : SpaceState A = record space { version = suc space.version } in
      if length items == 0 then record s { buffer = b } else record {
        buffer = b;
        space = space';
        flush_count = suc s.flush_count;
        saved = some space'.entries;
      }

  pub maybe_flush : UpdaterState A → UpdaterState A
  unfolding flush
  maybe_flush s = if length s.buffer.buffer == 0 then s else flush s

  -- The items that a step took in, and the state after it.
  pub updater_step : ℕ → UpdaterStep A → UpdaterState A → List A × UpdaterState A
  unfolding add add_batch is_ready_for_flush maybe_flush
  updater_step threshold (added item) s =
      let (taken, b) = add item s.buffer in (taken, record s { buffer = b })
  updater_step threshold (added_batch items) s =
      let (taken, b) = add_batch items s.buffer in (taken, record s { buffer = b })
  updater_step threshold (polled due) s =
      ([], if due || is_ready_for_flush threshold s.buffer then maybe_flush s else s)

  -- The loop of `start` until the stop, and the flush after it.
  pub updater_run : ℕ → List (UpdaterStep A) → UpdaterState A → List A × UpdaterState A
  unfolding updater_step flush
  updater_run threshold [] s = ([], flush s)
  updater_run threshold (t ∷ ts) s =
      let (taken, s') = updater_step threshold t s in
      let (more, s'') = updater_run threshold ts s' in (taken ++ more, s'')
