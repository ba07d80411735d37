-- ===== src/Examples.antt =====
-- The theorems on concrete inputs, over whole millionths for floats.
mod Ranking
mod Reviews
mod Posting
mod Merging
mod Limits
mod Memory
mod Runs
mod Answers
mod Diffs
