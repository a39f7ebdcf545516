-- ===== src/Examples/OfTransfer.antt =====
-- A server that lists a directory with a hostile name in it.
use term_bridge.Prelude.{true, false, none, List, [], ◌∷◌}
use term_bridge.Text.{Text, codes}
use term_bridge.Provider.{ok}
use term_bridge.Traces.{Extends}
use term_bridge.Transfer.{RemoteEntry, Peer, download_dir}
use term_bridge.Transfer.Inside.{Inside, IsSafe, IsComponent, download_dir-Inside}

abbrev hostile : List RemoteEntry
hostile =
    record { name = codes ".."; is_dir = true; is_file = false; size = 0; permissions = none }
    ∷ (record { name = codes "a"; is_dir = false; is_file = true; size = 3; permissions = none }
        ∷ [])

abbrev peer : Peer
peer = record {
  create_dir_all = λ calls local. ok tt;
  list_dir = λ calls remote. ok hostile;
  download = λ calls remote local. ok tt;
}

download_dir-Inside_example :
    Extends (Inside (codes "/tmp" ∷ [])) [] (download_dir peer (codes "/r") (codes "/tmp" ∷ [])).0
    × ((name : Text) → IsSafe name → IsComponent name)
download_dir-Inside_example = download_dir-Inside peer (codes "/r") (codes "/tmp" ∷ [])
