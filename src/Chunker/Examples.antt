-- ===== src/Chunker/Examples.antt =====
-- The chunker on a small section, with small budgets.
use stock_analyst.Shared.{ℕ, Text, codes, List, [], ◌∷◌, ◌++◌, map, ◌≡◌, refl, join, All, arith}
use stock_analyst.Chunker.Defs.{Base, Chunker}
use stock_analyst.Chunker.Parents.{split_into_parent_chunks, blank_line, paragraphs_of}
use stock_analyst.Chunker.Parents.Partition.{parents_partition}
use stock_analyst.Chunker.Parents.Partition
use stock_analyst.Chunker.Children.{windows, windows_from, window_size, extend, step_back}
use stock_analyst.Chunker.Children.Windows.{Covers, windows_cover}
use stock_analyst.Chunker.Children.Windows

abbrev small : Chunker
small = record { parent_max_tokens = 6; child_max_tokens = 5; child_overlap_tokens = 2 }

abbrev base : Base
base = record {
  document_id = codes "d";
  document_name = codes "10-K";
  filing_type = codes "10-K";
  period = codes "FY2023";
  section_name = codes "MD&A";
  tenant_id = codes "n";
  coverage_id = codes "c";
  page_number = 3;
}

abbrev text : Text
text =
    codes "Sales grew this year."
    ++ (10 ∷ 10 ∷ codes "Costs fell." ++ (10 ∷ 10 ∷ codes "Cash rose."))

parents_partition_example :
    (groups : List (List Text)) × (map
        (λ x. x.content)
        (split_into_parent_chunks small text base 0 1)
      ≡ map (join blank_line) groups)
    × (Partition.concat groups ≡ paragraphs_of text)
    × All (Partition.IsWithin small) groups
parents_partition_example = parents_partition small text base 0 1

abbrev tokens : List ℕ
tokens = 2 ∷ 2 ∷ 1 ∷ 7 ∷ 3 ∷ []

-- A window may lie within the one before, where the step back goes far.
windows-tokens : windows small tokens ≡ (0, 3) ∷ (1, 3) ∷ (2, 3) ∷ (3, 4) ∷ (4, 5) ∷ []
unfolding windows windows_from window_size extend step_back
windows-tokens = refl

windows_cover_example :
    Covers 5 0 (windows small tokens) × All (Windows.IsWithin small tokens) (windows small tokens)
windows_cover_example = windows_cover small tokens (λ h. absurd (ground arith))
