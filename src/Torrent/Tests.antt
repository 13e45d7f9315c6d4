-- ===== src/Torrent/Tests.antt =====
-- Tests of the torrent files on a sample (src/models/torrent_file.rs).
use torrust_index.Base.{
  ◌≡◌, refl, ◌⊎◌, true, not, List, [], ◌∷◌, none, some, Text, bytes, text_eq, flatten, retain,
  is_empty, all, ok, arith,
}
use torrust_index.Hex.Digits.{AllBytes}
use torrust_index.Samples.{torrent, info, file_a, file_b, twenty}
use torrust_index.Torrent.{Torrent, include_url_as_main_tracker, url_to_front}
use torrust_index.Torrent.Reload.{reload_multi, reloaded}
use torrust_index.Torrent.Rows.{reload, announce_rows}
use torrust_index.Torrent.Trackers.{include_url_lem, other}

program : Unit {0}
unfolding text_eq include_url_as_main_tracker url_to_front announce_rows
program = tt

abbrev url : Text
url = bytes "udp://t"

-- The tracker is put first, and its other two places are dropped with the tier that is left empty.
include_url_run :
    (include_url_as_main_tracker url torrent).announce_list
    ≡ some ((url ∷ []) ∷ (bytes "udp://b" ∷ []) ∷ [])
unfolding program
include_url_run = refl

include_url_lem_example :
    let t' = include_url_as_main_tracker url torrent in
    (t'.announce ≡ some url)
    × (t'.info ≡ torrent.info)
    × ((torrent.announce_list ≡ none) × (t'.announce_list ≡ none)
        ⊎ ((list : List (List Text)) × (list' : List (List Text)) × (torrent.announce_list
              ≡ some list)
            × (t'.announce_list ≡ some list')
            × (flatten list' ≡ url ∷ retain (other url) (flatten list))
            × (all (λ tier. not (is_empty tier)) list' ≡ true)))
include_url_lem_example = include_url_lem url torrent

abbrev urls : List Text
urls = bytes "udp://b" ∷ url ∷ url ∷ []

twenty-AllBytes : AllBytes twenty
twenty-AllBytes = omega arith

abbrev two_files : Torrent
two_files = record torrent {
  info = record info { length = none; files = some (file_a ∷ file_b ∷ []) };
}

reload_multi_example :
    reload 9 (bytes "0102") two_files
    ≡ ok (
        reloaded two_files urls
          (record two_files.info { md5sum = none; path = none; root_hash = none; source = none }))
unfolding program
reload_multi_example =
    reload_multi 9 (bytes "0102") two_files twenty (file_a ∷ file_b ∷ []) urls refl twenty-AllBytes
      refl refl (ground arith) refl refl

abbrev one_file : Torrent
one_file = record torrent { info = record info { length = none; files = some (file_a ∷ []) } }
