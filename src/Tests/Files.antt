-- ===== src/Tests/Files.antt =====
-- The theorems on files, at concrete inputs.
use s_size_store.Prelude.{◌≡◌, refl, [], ◌∷◌, false}
use s_size_store.Bytes.{Bytes, codes, contains}
use s_size_store.Http.{etag, values, without, field_beq, set_header}
use s_size_store.Handlers.{make_response}
use s_size_store.Decimal.{to_string, print_ℕ, digits}
use s_size_store.Handlers.Files.{
  handle_file, serve_file, file_response, relative_path, join_path, or_empty_path, make_etag,
}
use s_size_store.Handlers.Files.Confined.{handle_file-IsServed, IsServed}
use s_size_store.Tests.Sample.{sample_files, sample_request}

abbrev root : Bytes
root = codes "/w"

abbrev rel : Bytes
rel = codes "a.css"

status_ok : (handle_file sample_files sample_request root rel).status ≡ 200
unfolding handle_file serve_file file_response make_etag make_response set_header contains
status_ok = refl

tag_sent :
    values etag (handle_file sample_files sample_request root rel).headers ≡ codes "\"12-3\"" ∷ []
unfolding handle_file serve_file file_response make_etag make_response set_header without field_beq
    values to_string print_ℕ digits contains
tag_sent = refl

handle_file-IsServed_example :
    (contains rel (codes "..") ≡ false)
    × IsServed sample_files
        (or_empty_path (sample_files.canonical root))
        (sample_files.canonical (join_path root (relative_path rel)))
        (handle_file sample_files sample_request root rel).body
handle_file-IsServed_example = handle_file-IsServed sample_files sample_request root rel status_ok
