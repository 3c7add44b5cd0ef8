-- ===== src/Scoring.antt =====
-- pipelines/scoring_pipeline.py: the two-stage relevance cascade.
-- An NLP score is a float in [0, 1] that the code only compares; it is read as the number of its
-- bit pattern, which orders such floats as they are ordered.
pub mod Ranked
pub mod Buckets
pub mod Batches
pub mod Partition
pub mod Limits
pub mod Process
pub mod Cascade
pub mod Spending
mod Examples
