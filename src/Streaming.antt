-- ===== src/Streaming.antt =====
-- The token stream of packages/agents/src/agents/shared/base_agent.py: `_call_llm_streaming` cuts
-- what the model writes into events, and `_flush_chunk` says where a cut may be made.
pub mod Content
pub mod Found
mod Examples
use stock_analyst.Shared.{
  ℕ, ◌+◌, Text, List, [], ◌∷◌, ◌++◌, map, Bool, true, false, ◌&&◌, ◌||◌, not, Option, none, some,
  ltb, leb, ◌==◌, length, take, drop, any, strip, same_text, rfind_char, if◌then◌else◌,
}
use stock_analyst.Shared.Regex.{match, is_some}
use stock_analyst.Message.{Citation}
use stock_analyst.Enforcer.Patterns.{citation_pattern}
use stock_analyst.Enforcer.Quotes.{citations_of}

-- What an agent publishes while it runs (`BaseAgent._emit`, and the runner's first event).
pub data Progress : Type 0 where
  starting : Text → Progress
  chunk : Text → List Citation → Progress
  citation_found : Citation → Progress
  enforcer_running : Progress
  enforcer_result : Bool → Progress

abbrev pub chunk_flush_threshold : ℕ
chunk_flush_threshold = 100

abbrev pub chunk_force_flush_threshold : ℕ
chunk_force_flush_threshold = 2000

abbrev pub same_citation : Citation → Citation → Bool
same_citation a b =
    same_text a.doc b.doc && same_text a.section b.section && same_text a.quote b.quote

-- `key in seen_citations`
abbrev pub is_seen : List Citation → Citation → Bool
is_seen seen c = any (same_citation c) seen

-- Where the buffer may be cut: before its last `[`, unless a whole citation begins there.
unfoldable pub flush_point : Text → Bool → ℕ
flush_point buffer force =
    if not force && ltb (length buffer) chunk_force_flush_threshold
    then elim (rfind_char b'[' buffer) [
      | none ↦ length buffer
      | some last_open ↦
          if is_some (match citation_pattern (drop last_open buffer))
          then length buffer
          else last_open
    ]
    else length buffer

abbrev pub stripped : Citation → Citation
stripped c = record { doc = strip c.doc; section = strip c.section; quote = strip c.quote }

-- The loop over the citations of the text: the keys seen, and the events.
unfoldable pub announce : List Citation → List Citation → List Citation × List Progress
announce seen [] = (seen, [])
announce seen (c ∷ cs) =
    let later = announce (if is_seen seen c then seen else c ∷ seen) cs in
    (later.0, (if is_seen seen c then later.1 else citation_found c ∷ later.1))

pub record Flushed : Type 0 where
  pub remainder : Text
  pub seen : List Citation
  pub events : List Progress

-- `_flush_chunk`
unfoldable pub flush_chunk : Text → List Citation → Bool → Flushed
flush_chunk buffer seen force =
    let to = flush_point buffer force in
    if to == 0
    then record { remainder = buffer; seen = seen; events = [] }
    else let flushed = take to buffer in
      let citations = map stripped (citations_of flushed) in
      let (seen', found) = announce seen citations in
      record {
        remainder = drop to buffer;
        seen = seen';
        events = found ++ (chunk flushed citations ∷ []);
      }

-- The stream loop, from a buffer; a delta without text changes nothing.
unfoldable pub stream_from : List Text → Text → List Citation → List Progress
stream_from [] [] seen = []
stream_from [] (c ∷ buffer) seen = (flush_chunk (c ∷ buffer) seen true).events
stream_from (delta ∷ deltas) buffer seen =
    let buffer' = buffer ++ delta in
    let keep = stream_from deltas buffer' seen in
    let cut = flush_chunk buffer' seen false in
    let go_on = cut.events ++ stream_from deltas cut.remainder cut.seen in
    if leb chunk_flush_threshold (length buffer') && not (length delta == 0) then go_on else keep

-- `_call_llm_streaming`: the events for the deltas of one completion.
unfoldable pub stream : List Text → List Progress
stream deltas = stream_from deltas [] []
