-- ===== src/Chunker/Defs.antt =====
-- The data and the helpers of packages/rag/src/rag/ingestion/chunkers/hierarchical.py.
use stock_analyst.Shared.{
  ℕ, ◌+◌, ◌*◌, ◌/◌, Text, List, [], ◌∷◌, Option, none, some, length, drop, find_from, word_count,
}

pub data ChunkType : Type 0 where
  parent child table : ChunkType

-- The metadata that a section's chunks share.
pub record Base : Type 0 where
  pub document_id : Text
  pub document_name : Text
  pub filing_type : Text
  pub period : Text
  pub section_name : Text
  pub tenant_id : Text
  pub coverage_id : Text
  pub page_number : ℕ

pub record Metadata : Type 0 where
  pub base : Base
  open base use {document_id, section_name, tenant_id, coverage_id, page_number}
  pub chunk_type : ChunkType
  pub parent_chunk_id : Option ℕ
  pub char_start : ℕ
  pub char_end : ℕ
  pub token_estimate : ℕ

-- Identifiers are drawn by `uuid4`; here a chunk has the number of its draw.
pub record Chunk : Type 0 where
  pub chunk_id : ℕ
  pub content : Text
  pub chunk_type : ChunkType
  pub parent_chunk_id : Option ℕ
  pub metadata : Metadata

pub record Chunker : Type 0 where
  pub parent_max_tokens : ℕ
  pub child_max_tokens : ℕ
  pub child_overlap_tokens : ℕ

-- The default arguments of the constructor.
abbrev pub default_chunker : Chunker
default_chunker = record {
  parent_max_tokens = 2000;
  child_max_tokens = 200;
  child_overlap_tokens = 20;
}

-- `int(len(text.split()) * 1.3)`: the double product is within a rounding step of the exact one,
-- and a tenth away from the next integer or equal to one.
unfoldable pub token_estimate : Text → ℕ
token_estimate text = 13 * word_count text / 10

-- `_locate_offsets`, from a cursor
unfoldable pub locate_from : Text → ℕ → List Text → List (ℕ × ℕ)
locate_from text cursor [] = []
locate_from text cursor (piece ∷ rest) =
    let start =
      cursor + elim (find_from piece (drop cursor text)) [ none ↦ 0 | some skipped ↦ skipped ] in
    (start, start + length piece) ∷ locate_from text (start + length piece) rest

unfoldable pub locate_offsets : Text → List Text → List (ℕ × ℕ)
locate_offsets text pieces = locate_from text 0 pieces

-- `_make_chunk`, with the identifier drawn
unfoldable pub make_chunk : ℕ → Text → ChunkType → Option ℕ → Base → ℕ → ℕ → Chunk
make_chunk id content kind parent_id base char_start char_end = record {
  chunk_id = id;
  content = content;
  chunk_type = kind;
  parent_chunk_id = parent_id;
  metadata = record {
    base = base;
    chunk_type = kind;
    parent_chunk_id = parent_id;
    char_start = char_start;
    char_end = char_end;
    token_estimate = token_estimate content;
  };
}
