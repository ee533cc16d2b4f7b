-- ===== src/Compaction/Extract/Examples.antt =====
-- The searches on a text with one block.
use bonsai_agent.Prelude.{suc, ◌+◌, String, count, ◌≡◌, arith}
use bonsai_agent.Compaction.Extract.{blocks_fuel, blocks, strip_fuel, strip_think_tags}
use bonsai_agent.Compaction.Extract.Fuel.{searches_complete}

abbrev text : String
text = "a<think>b</think>c"

searches_complete_case :
    (blocks_fuel (suc (count text) + 5) "<think>" "</think>" text
      ≡ blocks "<think>" "</think>" text)
    × (strip_fuel (suc (count text) + 5) text ≡ strip_think_tags text)
searches_complete_case = searches_complete "<think>" "</think>" text 5 (omega arith)
