-- ===== src/Streaming/Examples.antt =====
-- Streams of small completions.
use stock_analyst.Shared.{Text, codes, List, [], ◌∷◌, ◌++◌, false, ◌≡◌, refl, length}
use stock_analyst.Shared.Regex.{match, find_iter}
use stock_analyst.Enforcer.Patterns.{citation_pattern}
use stock_analyst.Enforcer.Quotes.{citations_of}
use stock_analyst.Streaming.{stream, flush_chunk, flush_point, announce, stream_from}
use stock_analyst.Streaming.Content.{content_of, concat, stream_content}
use stock_analyst.Streaming.Found.{NoRepeats, found_of, stream-NoRepeats}

abbrev cited : Text
cited = codes "Sales grew. [10-K, MD&A]: " ++ (34 ∷ (codes "sales grew four percent" ++ (34 ∷ [])))

-- The citation comes in two pieces, and once more.
abbrev deltas : List Text
deltas =
    codes "Sales grew. [10-K, MD&A]: "
    ∷ (34 ∷ (codes "sales grew four percent" ++ (34 ∷ [])))
    ∷ codes " The company has said so more than once in its filings. "
    ∷ cited
    ∷ []

stream_content_example : content_of (stream deltas) ≡ concat deltas
stream_content_example = stream_content deltas

stream-NoRepeats_example : NoRepeats (found_of (stream deltas))
stream-NoRepeats_example = stream-NoRepeats deltas

one_announced : length (found_of (stream deltas)) ≡ 1
unfolding stream stream_from flush_chunk flush_point announce match citation_pattern citations_of
    find_iter
one_announced = refl

abbrev part : Text
part = codes "Sales grew. [10-K, MD&A]: "

part_held : (flush_chunk part [] false).remainder ≡ codes "[10-K, MD&A]: "
unfolding flush_chunk flush_point match citation_pattern
part_held = refl
