-- ===== src/Examples/OfUpdates.antt =====
-- Three versions, of which the order of the texts is another.
use term_bridge.Text.{Text, codes}

abbrev oldest : Text
oldest = codes "0.9.12"

abbrev older : Text
older = codes "v0.10.2"

abbrev newest : Text
newest = codes "0.10.11"
