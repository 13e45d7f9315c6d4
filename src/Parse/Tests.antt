-- ===== src/Parse/Tests.antt =====
-- Tests of the uploads (src/utils/parse_torrent.rs).
use torrust_index.Base.{bytes}
use torrust_index.Parse.{decode_and_validate_torrent_file}
use torrust_index.Parse.Hashes.{Upload, upload_lem}
use torrust_index.Samples.{bencode}

upload_lem_example :
    Upload bencode (bytes "d4:infoe") (decode_and_validate_torrent_file bencode (bytes "d4:infoe"))
upload_lem_example = upload_lem bencode (bytes "d4:infoe")
