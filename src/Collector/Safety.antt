-- ===== src/Collector/Safety.antt =====
-- What a collection pass promises however it ends. internal/collector/collector.go
use agentic_stats.Prelude.{ℕ, none, some, List, ◌++◌, All}
use agentic_stats.Collector.{
  Upload, Cursors, Source, Config, Result, and_then, flush, collect_sources, begin, collect_once,
}
use agentic_stats.Collector.Commit.{
  Claim, Stable, SourceReads, Safe, SafeWith, flush-SafeWith, collect_sources-Safe,
}

-- However a pass ends, by success, by an error of a source, a stream, the server or the cursor
-- store, or by a want of fuel, every cursor that is in the store is justified by what the server
-- has acknowledged: whatever holds of a cursor at nothing, is kept by a read whose lines are
-- delivered, and is not spoiled by more records, holds of it.
pub collect_once_safe :
    (J : Claim) (cfg : Config) (fuel : ℕ) (srcs : List Source) (saved : Cursors)
    (acked : List Upload)
    → Stable J
    → All (SourceReads J cfg) srcs
    → All (λ e. J (e.0) (e.1) acked) saved
    → let t = (collect_once fuel cfg srcs saved acked).0 in All (λ e. J (e.0) (e.1) t.acked) t.saved
unfolding collect_once and_then
collect_once_safe J cfg fuel srcs saved acked just reads h =
    finish (collect_sources fuel cfg srcs (begin saved acked))
      (collect_sources-Safe J cfg just fuel srcs (begin saved acked) reads (h, tt))
  where
    end :
        (total : List Upload) (r : Result)
        → SafeWith J cfg just total r
        → All (λ e. J (e.0) (e.1) (r.0).acked) (r.0).saved
    end total (t, none) k = k.0.0
    end total (t, some e) k = k

    finish :
        (r : Result)
        → Safe J cfg just r
        → All
            (λ e. J (e.0) (e.1) ((and_then r (λ t. flush cfg t)).0).acked)
            ((and_then r (λ t. flush cfg t)).0).saved
    finish (t, none) k = end (t.acked ++ t.records) (flush cfg t) (flush-SafeWith J cfg just t k)
    finish (t, some e) k = k
